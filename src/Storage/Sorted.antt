-- ===== src/Storage/Sorted.antt =====
-- The stored links of a record: one for each role, in the order of the roles.
use trail.Prelude.{
  ◌≡◌, refl, ◌∙◌, ap, sym, inl, inr, true, false, none, some, Option, List, [], ◌∷◌, Text, text_eq,
  text_eq_iff, is_empty, codes, starts_with, drop, All, Bool-cases, arith,
}
use mathlib.Core.Path.{subst}
use trail.Wire.{WireField, WireEvent}
use trail.Id.{Identifier}
use trail.Event.{Metadata}
use trail.Storage.{PayloadLink, new_link, Delivery}
use trail.Storage.Normalize.{
  split_dot, set_link, change_link, apply_parts, apply_payload_field, Scan, apply_default,
  apply_field, apply_fields, ltb_text, insert_link, sort_links, is_kept, kept_links, finish_record,
  normalize_event,
}

ltb_text_total : (s t : Text) → ltb_text s t ≡ false → text_eq s t ≡ false → ltb_text t s ≡ true
unfolding ltb_text text_eq
ltb_text_total [] [] h differ = absurd (ground arith)
ltb_text_total [] (b ∷ t) h differ = absurd (ground arith)
ltb_text_total (a ∷ s) [] h differ = refl
ltb_text_total (a ∷ s) (b ∷ t) h differ = ground (arith, h, differ, ltb_text_total s t)

ltb_text_trans : (s t u : Text) → ltb_text s t ≡ true → ltb_text t u ≡ true → ltb_text s u ≡ true
unfolding ltb_text
ltb_text_trans s t [] h k = absurd (ground arith)
ltb_text_trans s [] (c ∷ u) h k = absurd (ground (arith, h))
ltb_text_trans [] (b ∷ t) (c ∷ u) h k = refl
ltb_text_trans (a ∷ s) (b ∷ t) (c ∷ u) h k = ground (arith, h, k, ltb_text_trans s t u)

-- No link of the list has the role.
abbrev Lacks : Text → List PayloadLink → Type 0
Lacks role links = All (λ l. text_eq role l.role ≡ false) links

abbrev Unique : List PayloadLink → Type 0
Unique [] = Unit
Unique (l ∷ links) = Lacks l.role links × Unique links

-- In strictly increasing order of roles.
abbrev pub Increasing : List PayloadLink → Type 0
Increasing [] = Unit
Increasing (l ∷ links) = All (λ k. ltb_text l.role k.role ≡ true) links × Increasing links

text_differ_sym : (s t : Text) → text_eq s t ≡ false → text_eq t s ≡ false
text_differ_sym s t h = elim (Bool-cases (text_eq t s)) [
  | inl same ↦ absurd (ground (arith, h, text_eq_iff t s, text_eq_iff s t))
  | inr differ ↦ differ
]

module _ {κ} (P : PayloadLink → Type κ) where
  All-insert_link :
      (l : PayloadLink) (links : List PayloadLink) → P l → All P links → All P (insert_link l links)
  unfolding insert_link
  All-insert_link l [] pl h = (pl, tt)
  All-insert_link l (x ∷ links) pl (px, h) = elim (Bool-cases (ltb_text x.role l.role)) [
    | inl less ↦ rw less (px, All-insert_link l links pl h)
    | inr not_less ↦ rw not_less (pl, (px, h))
  ]

  All-sort_links : (links : List PayloadLink) → All P links → All P (sort_links links)
  unfolding sort_links
  All-sort_links [] h = tt
  All-sort_links (l ∷ links) (pl, h) =
      All-insert_link l (sort_links links) pl (All-sort_links links h)

  All-kept_links : (links : List PayloadLink) → All P links → All P (kept_links links)
  unfolding kept_links
  All-kept_links [] h = tt
  All-kept_links (l ∷ links) (pl, h) = elim (Bool-cases (is_kept l)) [
    | inl kept ↦ rw kept (pl, All-kept_links links h)
    | inr out ↦ rw out (All-kept_links links h)
  ]

below_more :
    (s t : Text) (links : List PayloadLink)
    → ltb_text s t ≡ true
    → All (λ k. ltb_text t k.role ≡ true) links
    → All (λ k. ltb_text s k.role ≡ true) links
below_more s t [] h below = tt
below_more s t (k ∷ links) h (less, below) =
    (ltb_text_trans s t k.role h less, below_more s t links h below)

insert_link-Increasing :
    (l : PayloadLink) (links : List PayloadLink)
    → Lacks l.role links
    → Increasing links
    → Increasing (insert_link l links)
unfolding insert_link
insert_link-Increasing l [] lacks h = (tt, tt)
insert_link-Increasing l (x ∷ links) (differ, lacks) (below, h) =
    elim (Bool-cases (ltb_text x.role l.role)) [
      | inl less ↦ rw less (
        All-insert_link (λ k. ltb_text x.role k.role ≡ true) l links less below,
        insert_link-Increasing l links lacks h,
      )
      | inr not_less ↦
          let less = ltb_text_total x.role l.role not_less (text_differ_sym l.role x.role differ) in
          rw not_less ((less, below_more l.role x.role links less below), (below, h))
    ]

sort_links-Increasing : (links : List PayloadLink) → Unique links → Increasing (sort_links links)
unfolding sort_links
sort_links-Increasing [] h = tt
sort_links-Increasing (l ∷ links) (lacks, h) =
    insert_link-Increasing l (sort_links links)
      (All-sort_links (λ k. text_eq l.role k.role ≡ false) links lacks)
      (sort_links-Increasing links h)

kept_links-Increasing :
    (links : List PayloadLink) → Increasing links → Increasing (kept_links links)
unfolding kept_links
kept_links-Increasing [] h = tt
kept_links-Increasing (l ∷ links) (below, h) = elim (Bool-cases (is_kept l)) [
  | inl kept ↦ rw kept (
    All-kept_links (λ k. ltb_text l.role k.role ≡ true) links below,
    kept_links-Increasing links h,
  )
  | inr out ↦ rw out (kept_links-Increasing links h)
]

kept_links-kept : (links : List PayloadLink) → All (λ l. is_kept l ≡ true) (kept_links links)
unfolding kept_links
kept_links-kept [] = tt
kept_links-kept (l ∷ links) = elim (Bool-cases (is_kept l)) [
  | inl kept ↦ rw kept (kept, kept_links-kept links)
  | inr out ↦ rw out (kept_links-kept links)
]

abbrev KeepsRole : (PayloadLink → PayloadLink) → Type 0
KeepsRole change = (l : PayloadLink) → (change l).role ≡ l.role

change_link-Lacks :
    (other role : Text) (change : PayloadLink → PayloadLink) (links : List PayloadLink)
    → KeepsRole change
    → text_eq other role ≡ false
    → Lacks other links
    → Lacks other (change_link role change links)
unfolding change_link
change_link-Lacks other role change [] keeps differ h =
    (ap (text_eq other) (keeps (new_link role)) ∙ differ, tt)
change_link-Lacks other role change (l ∷ links) keeps differ (first, h) =
    elim (Bool-cases (text_eq role l.role)) [
      | inl same ↦ rw same (ap (text_eq other) (keeps l) ∙ first, h)
      | inr apart ↦ rw apart (first, change_link-Lacks other role change links keeps differ h)
    ]

change_link-Unique :
    (role : Text) (change : PayloadLink → PayloadLink) (links : List PayloadLink)
    → KeepsRole change
    → Unique links
    → Unique (change_link role change links)
unfolding change_link
change_link-Unique role change [] keeps h = (tt, tt)
change_link-Unique role change (l ∷ links) keeps (lacks, h) =
    elim (Bool-cases (text_eq role l.role)) [
      | inl same ↦ rw same (subst (λ r. Lacks r links) (sym (keeps l)) lacks, h)
      | inr apart ↦ rw apart (
        change_link-Lacks l.role role change links keeps (text_differ_sym role l.role apart) lacks,
        change_link-Unique role change links keeps h,
      )
    ]

set_link-KeepsRole : (name : Text) (f : WireField) → KeepsRole (set_link name f)
unfolding set_link
set_link-KeepsRole name f l = ground arith

apply_parts-Unique :
    (parts : Option (Text × Text)) (f : WireField) (links : List PayloadLink)
    → Unique links
    → Unique (apply_parts parts f links)
unfolding apply_parts
apply_parts-Unique none f links h = h
apply_parts-Unique (some (role, name)) f links h = elim (Bool-cases (is_empty role)) [
  | inl empty ↦ rw empty h
  | inr named ↦
      rw named (change_link-Unique role (set_link name f) links (set_link-KeepsRole name f) h)
]

apply_default-Unique :
    (f : WireField) (s : Scan) → Unique s.links → Unique (apply_default f s).links
unfolding apply_default apply_payload_field
apply_default-Unique f s h = elim (Bool-cases (starts_with (codes "payload.") f.key)) [
  | inl payload ↦ rw payload (apply_parts-Unique (split_dot (drop 8 f.key)) f s.links h)
  | inr other ↦ rw other h
]

apply_field-Unique : (f : WireField) (s : Scan) → Unique s.links → Unique (apply_field f s).links
unfolding apply_field
apply_field-Unique f s h = ground (arith, apply_default-Unique f s h)

apply_fields-Unique :
    (fields : List WireField) (s : Scan) → Unique s.links → Unique (apply_fields fields s).links
unfolding apply_fields
apply_fields-Unique [] s h = h
apply_fields-Unique (f ∷ fields) s h =
    apply_fields-Unique fields (apply_field f s) (apply_field-Unique f s h)

-- The payload links of every record that normalizeEvent makes are in strictly increasing order of
-- their roles, so that there is one for each role, and each of them has a store, a key or an
-- error.
pub normalize_event-Increasing :
    (e : WireEvent) (metadata : Metadata) (batch_id : Identifier) (delivery : Delivery)
    → Increasing (normalize_event e metadata batch_id delivery).payloads
      × All (λ l. is_kept l ≡ true) (normalize_event e metadata batch_id delivery).payloads
unfolding normalize_event finish_record
normalize_event-Increasing e metadata batch_id delivery = (
  kept_links-Increasing _ (sort_links-Increasing _ (apply_fields-Unique e.fields _ tt)),
  kept_links-kept _,
)
