-- ===== src/Payload.antt =====
-- payload/payload.go: references to stored payloads, and the fields that carry them.
pub mod Hex
pub mod Store
pub mod Files
use trail.Prelude.{
  ℕ, Bool, true, false, not, ◌&&◌, List, [], ◌∷◌, ◌++◌, Text, codes, is_empty, replicate,
  if◌then◌else◌, ◌==◌, ◌*◌, ◌-◌,
}
use trail.Prelude.Int.{ℤ, pos, negsuc}
use trail.Event.Options.{EventOption, string, int64}
use Hex.{checksum_text}

-- `time.Time` as nanoseconds since the Unix epoch. The zero time is 1 January of year 1.
abbrev pub Time : Type 0
Time = ℤ

abbrev pub zero_time : Time
zero_time = negsuc (62_135_596_800 * 1_000_000_000 - 1)

-- `t.IsZero()`
unfoldable pub is_zero_time : Time → Bool
is_zero_time (pos n) = false
is_zero_time (negsuc n) = n == 62_135_596_800 * 1_000_000_000 - 1

pub record Ref : Type 0 where
  pub store : Text
  pub key : Text
  pub content_type : Text
  pub size : ℤ
  pub stored_size : ℤ
  pub sha256 : Text
  pub compression : Text
  pub retain_until : Time
  pub retention_class : Text

abbrev pub no_ref : Ref
no_ref = record {
  store = [];
  key = [];
  content_type = [];
  size = pos 0;
  stored_size = pos 0;
  sha256 = replicate 32 0;
  compression = [];
  retain_until = zero_time;
  retention_class = [];
}

-- `"payload." + role + "."` and a name
abbrev pub payload_key : Text → Text → Text
payload_key role name = codes "payload." ++ (role ++ (codes "." ++ name))

abbrev pub when : Bool → EventOption → List EventOption
when true o = o ∷ []
when false o = []

-- `Ref.Fields`
unfoldable pub ref_fields : Ref → Text → List EventOption
ref_fields r role =
    string (payload_key role (codes "store")) r.store
    ∷ string (payload_key role (codes "key")) r.key
    ∷ string (payload_key role (codes "content_type")) r.content_type
    ∷ int64 (payload_key role (codes "size")) r.size
    ∷ int64 (payload_key role (codes "stored_size")) r.stored_size
    ∷ string (payload_key role (codes "sha256")) (checksum_text r.sha256)
    ∷ (when (not (is_empty r.compression))
          (string (payload_key role (codes "compression")) r.compression)
        ++ (when (not (is_zero_time r.retain_until))
              (int64 (payload_key role (codes "retain_until_unix_nano")) r.retain_until)
            ++ when (not (is_empty r.retention_class))
                (string (payload_key role (codes "retention_class")) r.retention_class)))
