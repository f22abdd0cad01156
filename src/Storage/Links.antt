-- ===== src/Storage/Links.antt =====
-- `applyPayloadField`: the link of a role, over the fields of the role.
use trail.Prelude.{
  ℕ, ◌≡◌, ◌≢◌, refl, ap, ◌∙◌, true, false, some, List, [], ◌∷◌, ◌++◌, map, Text, is_empty, text_eq,
  text_eq_refl, All, arith,
}
use trail.Wire.{WireField}
use trail.Payload.{payload_key}
use trail.Storage.{PayloadLink, new_link}
use trail.Storage.Normalize.{
  split_dot, set_link, change_link, apply_parts, apply_payload_field, set_known, apply_default,
  apply_field, apply_fields, Scan,
}

-- A role that `applyPayloadField` tells from the name after it.
abbrev pub IsRole : Text → Type 0
IsRole role = (is_empty role ≡ false) × All (λ c. c ≢ b'.') role

-- No link has the role yet.
abbrev pub Fresh : Text → List PayloadLink → Type 0
Fresh role links = All (λ l. text_eq role l.role ≡ false) links

split_dot-role :
    (role name : Text)
    → All (λ c. c ≢ b'.') role
    → split_dot (role ++ (b'.' ∷ name)) ≡ some (role, name)
unfolding split_dot
split_dot-role [] name h = refl
split_dot-role (c ∷ role) name h = ground (arith, split_dot-role role name h.1)

change_link_last :
    (role : Text) (g : PayloadLink → PayloadLink) (links : List PayloadLink) (l : PayloadLink)
    → Fresh role links
    → text_eq role l.role ≡ true
    → change_link role g (links ++ l ∷ []) ≡ links ++ g l ∷ []
unfolding change_link
change_link_last role g [] l h same = rw same refl
change_link_last role g (x ∷ links) l h same =
    rw h.0 (ap (λ ls. x ∷ ls) (change_link_last role g links l h.1 same))

change_link_new :
    (role : Text) (g : PayloadLink → PayloadLink) (links : List PayloadLink)
    → Fresh role links
    → change_link role g links ≡ links ++ g (new_link role) ∷ []
unfolding change_link
change_link_new role g [] h = refl
change_link_new role g (x ∷ links) h = rw h.0 (ap (λ ls. x ∷ ls) (change_link_new role g links h.1))

-- The value of a field under a name: its type, text and number.
abbrev pub Value : Type 0
Value = Text × (Text × (Text × ℕ))

abbrev pub payload_field : Text → Value → WireField
payload_field role v = record {
  key = payload_key role v.0;
  type = v.1.0;
  text = v.1.1.0;
  num = v.1.1.1;
}

apply_parts_step :
    (role name : Text) (f : WireField) (links : List PayloadLink)
    → is_empty role ≡ false
    → apply_parts (some (role, name)) f links ≡ change_link role (set_link name f) links
unfolding apply_parts
apply_parts_step role name f links h = rw h refl

apply_payload_field-role :
    (role : Text) (v : Value) (links : List PayloadLink)
    → IsRole role
    → apply_payload_field (payload_field role v) links
      ≡ change_link role (set_link v.0 (payload_field role v)) links
unfolding apply_payload_field
apply_payload_field-role role v links h =
    ap (λ p. apply_parts p (payload_field role v) links) (split_dot-role role v.0 h.1)
    ∙ apply_parts_step role v.0 (payload_field role v) links h.0

apply_field-payload_field :
    (role : Text) (v : Value) (s : Scan)
    → IsRole role
    → (apply_field (payload_field role v) s).links
      ≡ change_link role (set_link v.0 (payload_field role v)) s.links
unfolding apply_field apply_default set_known text_eq
apply_field-payload_field role v s h = apply_payload_field-role role v s.links h

role-set_link : (name : Text) (f : WireField) (l : PayloadLink) → (set_link name f l).role ≡ l.role
unfolding set_link
role-set_link name f l = ground arith

-- The link after all the fields of its role.
abbrev pub set_values : Text → List Value → PayloadLink → PayloadLink
set_values role [] l = l
set_values role (v ∷ values) l = set_values role values (set_link v.0 (payload_field role v) l)

apply_fields-last :
    (role : Text) (values : List Value) (s : Scan) (links : List PayloadLink) (l : PayloadLink)
    → IsRole role
    → Fresh role links
    → l.role ≡ role
    → s.links ≡ links ++ l ∷ []
    → (apply_fields (map (payload_field role) values) s).links
      ≡ links ++ set_values role values l ∷ []
unfolding apply_fields
apply_fields-last role [] s links l h fresh same eq = eq
apply_fields-last role (v ∷ values) s links l h fresh same eq =
    apply_fields-last role values (apply_field (payload_field role v) s) links
      (set_link v.0 (payload_field role v) l) h fresh
      (role-set_link v.0 (payload_field role v) l ∙ same)
      (apply_field-payload_field role v s h
        ∙ (ap (change_link role (set_link v.0 (payload_field role v))) eq
            ∙ change_link_last role _ links l fresh (rw same (text_eq_refl role))))

pub apply_fields-new :
    (role : Text) (v : Value) (values : List Value) (s : Scan)
    → IsRole role
    → Fresh role s.links
    → (apply_fields (map (payload_field role) (v ∷ values)) s).links
      ≡ s.links ++ set_values role (v ∷ values) (new_link role) ∷ []
unfolding apply_fields
apply_fields-new role v values s h fresh =
    apply_fields-last role values (apply_field (payload_field role v) s) s.links
      (set_link v.0 (payload_field role v) (new_link role)) h fresh
      (role-set_link v.0 (payload_field role v) (new_link role))
      (apply_field-payload_field role v s h ∙ change_link_new role _ s.links fresh)
