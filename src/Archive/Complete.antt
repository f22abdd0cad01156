-- ===== src/Archive/Complete.antt =====
-- archive/archive.go: the payloads that `Write` copies.
use trail.Prelude.{
  ◌≡◌, refl, sym, ap, ◌∙◌, Bool, true, false, not, ◌||◌, Option, List, [], ◌∷◌, ◌++◌, map, Text,
  text_eq, text_eq_iff, text_eq_refl, All, All-append, arith,
}
use mathlib.Core.Path.{subst}
use trail.Prelude.Int.{ℤ, eq_ℤ, pos, negsuc}
use trail.Payload.{Ref}
use trail.Payload.Store.{Stores}
use trail.Storage.{EventRecord, PayloadLink}
use trail.Archive.{PayloadEntry, Manifest, Receipt, Library}
use trail.Archive.Io.{done, through, through_option, through_test, done-injective}
use trail.Archive.Made.{write-Made}
use trail.Archive.Write.{
  link_key, has_key, made_manifest, same_content, options_of, copy_object, copy_payload, copy_link,
  copy_links, copy_events, Copied, write,
}

abbrev source_key : PayloadEntry → Text
source_key entry = link_key entry.source

-- The keys of the payloads of a manifest.
abbrev pub source_keys : List PayloadEntry → List Text
source_keys payloads = map source_key payloads

-- A copy with the checksum and the size of the payload that it is the copy of.
abbrev pub SameContent : PayloadEntry → Type 0
SameContent entry =
    (entry.archive.sha256 ≡ entry.source.sha256) × (entry.archive.size ≡ entry.source.size)

-- The payloads of these links are copied.
abbrev pub LinksCopied : List PayloadEntry → List PayloadLink → Type 0
LinksCopied payloads links =
    All (λ (link : PayloadLink). has_key (link_key link.ref) (source_keys payloads) ≡ true) links

eq_ℤ-eq : (a b : ℤ) → eq_ℤ a b ≡ true → a ≡ b
eq_ℤ-eq (pos m) (pos n) h = ground arith
eq_ℤ-eq (pos m) (negsuc n) h = absurd (cc)
eq_ℤ-eq (negsuc m) (pos n) h = absurd (cc)
eq_ℤ-eq (negsuc m) (negsuc n) h = ground arith

same_content-SameContent :
    (source archived : Ref)
    → not (same_content archived source) ≡ false
    → SameContent (record { source = source; archive = archived })
unfolding same_content
same_content-SameContent source archived h = (
  ground (arith, h, text_eq_iff archived.sha256 source.sha256),
  ground (arith, h, eq_ℤ-eq archived.size source.size),
)

has_key-append :
    (key : Text) (keys : List Text) (last : Text)
    → has_key key (keys ++ last ∷ []) ≡ (has_key key keys || text_eq key last)
unfolding has_key
has_key-append key [] last = ground arith
has_key-append key (other ∷ keys) last = ground (arith, has_key-append key keys last)

map-append_one :
    (payloads : List PayloadEntry) (entry : PayloadEntry)
    → source_keys (payloads ++ entry ∷ []) ≡ source_keys payloads ++ source_key entry ∷ []
map-append_one [] entry = refl
map-append_one (p ∷ payloads) entry =
    ap (λ (keys : List Text). source_key p ∷ keys) (map-append_one payloads entry)

-- The keys that were seen are those of the payloads that were copied.
record Sound (c : Copied) : Type 0 where
  agrees : (key : Text) → has_key key c.0 ≡ has_key key (source_keys c.1)
  verified : All SameContent c.1

-- From c to d, no copy is lost.
abbrev Grows : Copied → Copied → Type 0
Grows c d =
    (key : Text) → has_key key (source_keys c.1) ≡ true → has_key key (source_keys d.1) ≡ true

record Progress (c d : Copied) (links : List PayloadLink) : Type 0 where
  sound : Sound d
  grows : Grows c d
  copied : LinksCopied d.1 links

LinksCopied-Grows :
    (c d : Copied) (links : List PayloadLink)
    → Grows c d
    → LinksCopied c.1 links
    → LinksCopied d.1 links
LinksCopied-Grows c d [] grows h = tt
LinksCopied-Grows c d (link ∷ links) grows (h, hs) =
    (grows (link_key link.ref) h, LinksCopied-Grows c d links grows hs)

add-Sound :
    (seen : List Text) (payloads : List PayloadEntry) (entry : PayloadEntry)
    → Sound (seen, payloads)
    → SameContent entry
    → Sound (source_key entry ∷ seen, payloads ++ entry ∷ [])
unfolding has_key
add-Sound seen payloads entry h same = record {
  agrees = λ key.
      rw
        (
          map-append_one payloads entry,
          has_key-append key (source_keys payloads) (source_key entry),
        )
        (ground (arith, h.agrees key));
  verified = All-append SameContent payloads (entry ∷ []) h.verified (same, tt);
}

add-Grows :
    (seen seen' : List Text) (payloads : List PayloadEntry) (entry : PayloadEntry)
    → Grows (seen, payloads) (seen', payloads ++ entry ∷ [])
add-Grows seen seen' payloads entry key h =
    rw (map-append_one payloads entry, has_key-append key (source_keys payloads) (source_key entry))
      (ground (arith, h))

add-has_key :
    (payloads : List PayloadEntry) (entry : PayloadEntry)
    → has_key (source_key entry) (source_keys (payloads ++ entry ∷ [])) ≡ true
add-has_key payloads entry =
    rw
      (
        map-append_one payloads entry,
        has_key-append (source_key entry) (source_keys payloads) (source_key entry),
      )
      (ground (arith, text_eq_refl (source_key entry)))

add-Progress :
    (link : PayloadLink) (key : Text) (seen : List Text) (payloads : List PayloadEntry)
    (entry : PayloadEntry)
    → Sound (seen, payloads)
    → SameContent entry
    → source_key entry ≡ key
    → link_key link.ref ≡ key
    → Progress (seen, payloads) (key ∷ seen, payloads ++ entry ∷ []) (link ∷ [])
add-Progress link key seen payloads entry sound same e e' = record {
  sound =
      subst (λ (k : Text). Sound (k ∷ seen, payloads ++ entry ∷ [])) e
        (add-Sound seen payloads entry sound same);
  grows = add-Grows seen (key ∷ seen) payloads entry;
  copied = (
    subst (λ (k : Text). has_key k (source_keys (payloads ++ entry ∷ [])) ≡ true) (e ∙ sym e')
        (add-has_key payloads entry),
    tt,
  );
}

module _ (S : Stores) (lib : Library) (archive : S.Handle) (sources : Text → Option S.Handle) where
  copy_payload-SameContent :
      (source : Ref) (s s' : S.State) (a : PayloadEntry)
      → copy_payload S lib archive sources source s ≡ (s', done a)
      → (a.source ≡ source) × SameContent a
  unfolding copy_payload
  copy_payload-SameContent source s s' a e =
      let (from, _, e1) = through_option _ (sources source.store) _ s s' a e in
      let (s1, archived, _, e2) =
        through (copy_object S lib from source archive (options_of source) s) _ s' a e1 in
      let (same, e3) = through_test (not (same_content archived source)) _ _ s1 s' a e2 in
      let made : record { source = source; archive = archived } ≡ a = cc in
      subst (λ (x : PayloadEntry). (x.source ≡ source) × SameContent x) made
        (refl, same_content-SameContent source archived same)

  copy_link-Progress :
      (link : PayloadLink) (known : Bool) (c : Copied) (s s' : S.State) (d : Copied)
      → Sound c
      → has_key (link_key link.ref) c.0 ≡ known
      → copy_link S lib archive sources link.ref known c s ≡ (s', done d)
      → Progress c d (link ∷ [])
  unfolding copy_link
  copy_link-Progress link true c s s' d sound known e =
      subst (λ (x : Copied). Progress c x (link ∷ [])) (done-injective e)
        (record {
          sound = sound;
          grows = λ key h. h;
          copied = (sym (sound.agrees (link_key link.ref)) ∙ known, tt);
        })
  copy_link-Progress link false (seen, payloads) s s' d sound new e =
      let (s1, a, e1, e2) = through (copy_payload S lib archive sources link.ref s) _ s' d e in
      let (from, same) = copy_payload-SameContent link.ref s s1 a e1 in
      subst (λ (x : Copied). Progress (seen, payloads) x (link ∷ [])) (done-injective e2)
        (add-Progress link (link_key link.ref) seen payloads a sound same (ap link_key from) refl)

  copy_links-Progress :
      (links : List PayloadLink) (c : Copied) (s s' : S.State) (d : Copied)
      → Sound c
      → copy_links S lib archive sources links c s ≡ (s', done d)
      → Progress c d links
  unfolding copy_links
  copy_links-Progress [] c s s' d sound e =
      subst (λ (x : Copied). Progress c x []) (done-injective e)
        (record { sound = sound; grows = λ key h. h; copied = tt })
  copy_links-Progress (link ∷ links) c s s' d sound e =
      let (s1, c1, e1, e2) =
        through (copy_link S lib archive sources link.ref (has_key (link_key link.ref) c.0) c s)
          (copy_links S lib archive sources links) s' d e in
      let first = copy_link-Progress link _ c s s1 c1 sound refl e1 in
      let rest = copy_links-Progress links c1 s1 s' d first.sound e2 in
      record {
        sound = rest.sound;
        grows = λ key h. rest.grows key (first.grows key h);
        copied = (rest.grows (link_key link.ref) (first.copied.0), rest.copied);
      }

  record AllProgress (c d : Copied) (events : List EventRecord) : Type 0 where
    sound : Sound d
    grows : Grows c d
    copied : All (λ (event : EventRecord). LinksCopied d.1 event.payloads) events

  copy_events-AllProgress :
      (events : List EventRecord) (c : Copied) (s s' : S.State) (d : Copied)
      → Sound c
      → copy_events S lib archive sources events c s ≡ (s', done d)
      → AllProgress c d events
  unfolding copy_events
  copy_events-AllProgress [] c s s' d sound e =
      subst (λ (x : Copied). AllProgress c x []) (done-injective e)
        (record { sound = sound; grows = λ key h. h; copied = tt })
  copy_events-AllProgress (event ∷ events) c s s' d sound e =
      let (s1, c1, e1, e2) =
        through (copy_links S lib archive sources event.payloads c s)
          (copy_events S lib archive sources events) s' d e in
      let first = copy_links-Progress event.payloads c s s1 c1 sound e1 in
      let rest = copy_events-AllProgress events c1 s1 s' d first.sound e2 in
      record {
        sound = rest.sound;
        grows = λ key h. rest.grows key (first.grows key h);
        copied = (LinksCopied-Grows c1 d event.payloads rest.grows first.copied, rest.copied);
      }

  -- What a manifest promises of the payloads of these events.
  abbrev pub Archives : Manifest → List EventRecord → Type 0
  Archives manifest events =
      All (λ (event : EventRecord). LinksCopied manifest.payloads event.payloads) events
      × All SameContent manifest.payloads

  -- In a manifest that Write made, over any stores, every payload link of every event has an entry
  -- whose store and key, joined by a zero byte, are those of the link, joined so, and every entry
  -- is a copy with the checksum and the size of its source.
  pub write-Archives :
      (events : List EventRecord) (s s' : S.State) (receipt : Receipt)
      → write S lib archive sources events s ≡ (s', done receipt)
      → Archives receipt.manifest events
  unfolding made_manifest has_key
  write-Archives events s s' receipt e =
      let w = write-Made S lib archive sources events s s' receipt e in
      let p =
        copy_events-AllProgress events ([], []) w.before w.after w.copied
          (record { agrees = λ key. refl; verified = tt }) w.copies in
      subst (λ (m : Manifest). Archives m events) (sym w.made) (p.copied, p.sound.verified)
