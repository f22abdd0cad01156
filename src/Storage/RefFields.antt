-- ===== src/Storage/RefFields.antt =====
-- `Ref.Fields`, and the link that `Normalize` makes of the fields.
use trail.Prelude.{
  ◌<◌, ◌⊎◌, Option, replicate, sym, ==_iff, ◌==◌, ◌≡◌, refl, ap, ◌∙◌, Bool, true, false, not, some,
  List, [], ◌∷◌, ◌++◌, map, Text, codes, is_empty, text_eq, All, length, Bool-cases, inl, inr,
  arith,
}
use trail.Prelude.Int.{pos, negsuc, ℤ, to_bits64, IsInt64, from_bits64-to_bits64}
use trail.Event.Options.{EventOption, string, int64}
use trail.Wire.{WireField}
use trail.Wire.Encode.{encode_field, field_type}
use trail.Payload.{Ref, ref_fields, is_zero_time, zero_time, Time, when}
use trail.Payload.Hex.{checksum_text, decode_hex, decode_hex-checksum_text}
use trail.Storage.{PayloadLink, new_link}
use trail.Storage.Normalize.{set_link, apply_fields, Scan, copy_checksum}
use trail.Storage.Links.{IsRole, Fresh, Value, payload_field, set_values, apply_fields-new}

abbrev text_value : Text → Text → Value
text_value name t = (name, (codes "string", (t, 0)))

abbrev int_value : Text → ℤ → Value
int_value name n = (name, (codes "int64", ([], to_bits64 n)))

abbrev when_value : Bool → Value → List Value
when_value true v = v ∷ []
when_value false v = []

abbrev compression_values : Ref → List Value
compression_values r =
    when_value (not (is_empty r.compression)) (text_value (codes "compression") r.compression)

abbrev time_values : Ref → List Value
time_values r =
    when_value (not (is_zero_time r.retain_until))
      (int_value (codes "retain_until_unix_nano") r.retain_until)

abbrev class_values : Ref → List Value
class_values r =
    when_value (not (is_empty r.retention_class))
      (text_value (codes "retention_class") r.retention_class)

abbrev optional_values : Ref → List Value
optional_values r = compression_values r ++ (time_values r ++ class_values r)

abbrev later_values : Ref → List Value
later_values r =
    text_value (codes "key") r.key
    ∷ text_value (codes "content_type") r.content_type
    ∷ int_value (codes "size") r.size
    ∷ int_value (codes "stored_size") r.stored_size
    ∷ text_value (codes "sha256") (checksum_text r.sha256)
    ∷ optional_values r

abbrev ref_values : Ref → List Value
ref_values r = text_value (codes "store") r.store ∷ later_values r

-- The fields of a reference, on the wire.
abbrev pub wire_fields : Ref → Text → List WireField
wire_fields r role = map (λ o. encode_field o.field) (ref_fields r role)

map-when :
    (f : EventOption → WireField) (g : Value → WireField) (a b c : Bool) (o p q : EventOption)
    (v w x : Value)
    → f o ≡ g v
    → f p ≡ g w
    → f q ≡ g x
    → map f (when a o ++ (when b p ++ when c q))
      ≡ map g (when_value a v ++ (when_value b w ++ when_value c x))
map-when f g true true true o p q v w x ov pw qx = rw (ov, pw, qx) refl
map-when f g true true false o p q v w x ov pw qx = rw (ov, pw) refl
map-when f g true false true o p q v w x ov pw qx = rw (ov, qx) refl
map-when f g true false false o p q v w x ov pw qx = rw ov refl
map-when f g false true true o p q v w x ov pw qx = rw (pw, qx) refl
map-when f g false true false o p q v w x ov pw qx = rw pw refl
map-when f g false false true o p q v w x ov pw qx = rw qx refl
map-when f g false false false o p q v w x ov pw qx = refl

wire_fields-values :
    (r : Ref) (role : Text) → wire_fields r role ≡ map (payload_field role) (ref_values r)
unfolding ref_fields encode_field string int64 field_type
wire_fields-values r role =
    ap
      (λ fields.
        map (payload_field role) (
          text_value (codes "store") r.store
          ∷ text_value (codes "key") r.key
          ∷ text_value (codes "content_type") r.content_type
          ∷ int_value (codes "size") r.size
          ∷ int_value (codes "stored_size") r.stored_size
          ∷ text_value (codes "sha256") (checksum_text r.sha256)
          ∷ [])
        ++ fields)
      (map-when (λ o. encode_field o.field) (payload_field role) (not (is_empty r.compression))
        (not (is_zero_time r.retain_until)) (not (is_empty r.retention_class)) _ _ _ _ _ _ refl refl
        refl)

-- A reference that the fields can carry: its numbers fit, and its checksum is 32 bytes.
pub record IsCarried (r : Ref) : Type 0 where
  pub size : IsInt64 r.size
  pub stored_size : IsInt64 r.stored_size
  pub retain_until : IsInt64 r.retain_until ⊎ (is_zero_time r.retain_until ≡ true)
  pub checksum_length : length r.sha256 ≡ 32
  pub checksum_bytes : All (λ b. b < 256) r.sha256

copy_checksum_same :
    (decoded : Option Text) (bytes old : Text)
    → decoded ≡ some bytes
    → (length bytes == length old) ≡ true
    → copy_checksum decoded old ≡ bytes
unfolding copy_checksum
copy_checksum_same decoded bytes old h same = ground (arith, h)

copy_checksum-decoded :
    (bytes : Text)
    → All (λ b. b < 256) bytes
    → length bytes ≡ 32
    → copy_checksum (decode_hex (checksum_text bytes)) (replicate 32 0) ≡ bytes
copy_checksum-decoded bytes h same =
    copy_checksum_same _ bytes (replicate 32 0) (decode_hex-checksum_text bytes h)
      (ground (arith, same))

is_zero_time_lem : (t : Time) → is_zero_time t ≡ true → t ≡ zero_time
unfolding is_zero_time
is_zero_time_lem (pos n) h = absurd (ground arith)
is_zero_time_lem (negsuc n) h = ap negsuc ((==_iff _ _).0 h)

set_values-append :
    (role : Text) (vs ws : List Value) (l m n : PayloadLink)
    → set_values role vs l ≡ m
    → set_values role ws m ≡ n
    → set_values role (vs ++ ws) l ≡ n
set_values-append role [] ws l m n first rest = ap (set_values role ws) first ∙ rest
set_values-append role (v ∷ vs) ws l m n first rest =
    set_values-append role vs ws (set_link v.0 (payload_field role v) l) m n first rest

set_compression :
    (role t : Text) (l : PayloadLink)
    → l.ref.compression ≡ []
    → set_values role (when_value (not (is_empty t)) (text_value (codes "compression") t)) l
      ≡ record l { ref = record l.ref { compression = t } }
unfolding set_link text_eq
set_compression role [] l h = ap (λ x. record l { ref = record l.ref { compression = x } }) h
set_compression role (c ∷ t) l h = refl

set_class :
    (role t : Text) (l : PayloadLink)
    → l.ref.retention_class ≡ []
    → set_values role (when_value (not (is_empty t)) (text_value (codes "retention_class") t)) l
      ≡ record l { ref = record l.ref { retention_class = t } }
unfolding set_link text_eq
set_class role [] l h = ap (λ x. record l { ref = record l.ref { retention_class = x } }) h
set_class role (c ∷ t) l h = refl

set_time :
    (role : Text) (t : Time) (l : PayloadLink)
    → l.ref.retain_until ≡ zero_time
    → IsInt64 t ⊎ (is_zero_time t ≡ true)
    → set_values role
        (when_value (not (is_zero_time t)) (int_value (codes "retain_until_unix_nano") t))
        l
      ≡ record l { ref = record l.ref { retain_until = t } }
unfolding set_link text_eq
set_time role t l h fits = elim (Bool-cases (is_zero_time t)) [
  | inl zero ↦ rw zero (
      ap (λ x. record l { ref = record l.ref { retain_until = x } })
        (h ∙ sym (is_zero_time_lem t zero)))
  | inr set ↦ rw set (elim fits [
    | inl small ↦
        ap (λ x. record l { ref = record l.ref { retain_until = x } })
          (from_bits64-to_bits64 t small)
    | inr zero ↦ absurd (ground arith)
  ])
]

set_rest :
    (role : Text) (r : Ref) (l : PayloadLink)
    → IsCarried r
    → l.ref.compression ≡ []
    → l.ref.retain_until ≡ zero_time
    → l.ref.retention_class ≡ []
    → set_values role (optional_values r) l ≡ record l {
      ref = record l.ref {
        compression = r.compression;
        retain_until = r.retain_until;
        retention_class = r.retention_class;
      };
    }
set_rest role r l h c t k =
    set_values-append role (compression_values r) (time_values r ++ class_values r) l _ _
      (set_compression role r.compression l c)
      (set_values-append role (time_values r) (class_values r) _ _ _
        (set_time role r.retain_until _ t h.retain_until) (set_class role r.retention_class _ k))

set_all :
    (role : Text) (r : Ref)
    → IsCarried r
    → set_values role (ref_values r) (new_link role) ≡ record (new_link role) { ref = r }
unfolding set_link text_eq
set_all role r h =
    set_rest role r _ h refl refl refl
    ∙ rw
        (
          from_bits64-to_bits64 r.size h.size,
          from_bits64-to_bits64 r.stored_size h.stored_size,
          copy_checksum-decoded r.sha256 h.checksum_bytes h.checksum_length,
        )
        refl

-- The link of a reference.
abbrev pub link_of : Text → Ref → PayloadLink
link_of role r = record (new_link role) { ref = r }

-- The fields of a payload reference under a role that is not empty and has no dot, where the
-- numbers fit int64 and the checksum has 32 bytes, add one link to a scan that has none for the
-- role, and its reference is the original one.
pub apply_fields-ref_fields :
    (r : Ref) (role : Text) (s : Scan)
    → IsRole role
    → IsCarried r
    → Fresh role s.links
    → (apply_fields (wire_fields r role) s).links ≡ s.links ++ link_of role r ∷ []
apply_fields-ref_fields r role s h carried fresh =
    ap (λ fields. (apply_fields fields s).links) (wire_fields-values r role)
    ∙ (apply_fields-new role _ (later_values r) s h fresh
        ∙ ap (λ l. s.links ++ l ∷ []) (set_all role r carried))
