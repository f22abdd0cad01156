-- ===== src/Retention/Policy.antt =====
-- retention/retention.go: `New`, `validate`, `matchEvent`, `eventExpiry` and `payloadExpiry`.
use trail.Prelude.{
  ℕ, ◌+◌, ◌/◌, Bool, true, false, not, ◌&&◌, ◌||◌, Option, none, some, List, [], ◌∷◌, Text, text_eq,
  is_empty, starts_with, ◌==◌, leb, ltb, if◌then◌else◌,
}
use trail.Prelude.Int.{ℤ, pos, negsuc, ◌+ℤ◌}
use trail.Event.{Level}
use trail.Payload.{Time, is_zero_time}
use trail.Retention.{EventMatch, EventPolicy, PayloadMatch, PayloadPolicy, Config, Payload, Event}

abbrev pub is_positive : ℤ → Bool
is_positive (pos n) = ltb 0 n
is_positive (negsuc _) = false

abbrev below_zero : ℤ → Bool
below_zero (pos _) = false
below_zero (negsuc _) = true

-- An empty pattern matches everything.
abbrev pub any_or_equal : Text → Text → Bool
any_or_equal pattern text = is_empty pattern || text_eq pattern text

abbrev level_matches : Option Level → Level → Bool
level_matches none l = true
level_matches (some wanted) l = wanted == l

abbrev success_matches : Option Bool → Bool → Bool
success_matches none b = true
success_matches (some true) b = b
success_matches (some false) b = not b

-- `class == 0 || code/100 == class`, where division rounds towards zero.
unfoldable pub class_matches : ℤ → ℤ → Bool
class_matches (pos c) (pos code) = c == 0 || code / 100 == c
class_matches (pos c) (negsuc code) = c == 0
class_matches (negsuc c) (pos code) = false
class_matches (negsuc c) (negsuc code) = (code + 1) / 100 == c + 1

unfoldable pub match_event : EventMatch → Event → Bool
match_event m v =
    any_or_equal m.kind v.kind
    && (any_or_equal m.service v.service
        && (any_or_equal m.environment v.environment
            && (level_matches m.level v.level
                && (any_or_equal m.flow_status v.flow_status
                    && (any_or_equal m.execution_status v.execution_status
                        && (class_matches m.http_status_class v.http_status_code
                            && success_matches m.http_success v.http_success))))))

-- `ttl, ok := classes[name]`
unfoldable pub find_class : Text → List (Text × ℤ) → Option ℤ
find_class name [] = none
find_class name (entry ∷ classes) =
    let rest = find_class name classes in if text_eq name entry.0 then some entry.1 else rest

-- The loop of `eventExpiry` over the policies.
unfoldable pub first_policy : List EventPolicy → Event → Option ℤ
first_policy [] v = none
first_policy (p ∷ policies) v =
    let rest = first_policy policies v in if match_event p.match_event v then some p.ttl else rest

abbrev pub default_ttl : ℤ → Option ℤ
default_ttl ttl = if is_positive ttl then some ttl else none

abbrev pub or_else : Option ℤ → Option ℤ → Option ℤ
or_else none other = other
or_else (some ttl) other = some ttl

-- `v.Timestamp.Add(ttl)` where there is a time to live.
abbrev pub after : Time → Option ℤ → Option Time
after t none = none
after t (some ttl) = some (t +ℤ ttl)

unfoldable pub event_expiry : Config → Event → Option Time
event_expiry cfg v =
    if not (is_empty v.retention_class)
    then after v.timestamp (find_class v.retention_class cfg.event_classes)
    else after v.timestamp
        (or_else (first_policy cfg.event_policies v) (default_ttl cfg.default_event_ttl))

-- The retention class of the match is not asked for.
unfoldable pub match_payload : PayloadMatch → Event → Payload → Bool
match_payload m v p =
    match_event m.event v
    && ((is_empty m.role || text_eq m.role p.role)
        && (is_empty m.content_type || starts_with m.content_type p.ref.content_type))

unfoldable pub first_payload_policy : List PayloadPolicy → Event → Payload → Option ℤ
first_payload_policy [] v p = none
first_payload_policy (x ∷ policies) v p =
    let rest = first_payload_policy policies v p in
    if match_payload x.match_payload v p then some x.ttl else rest

unfoldable pub payload_expiry : Config → Event → Payload → Option Time
payload_expiry cfg v p =
    if not (is_zero_time p.ref.retain_until)
    then some p.ref.retain_until
    else if not (is_empty p.ref.retention_class)
    then after v.timestamp (find_class p.ref.retention_class cfg.payload_classes)
    else after v.timestamp (
        or_else (first_payload_policy cfg.payload_policies v p)
          (default_ttl cfg.default_payload_ttl))

-- `strings.TrimSpace(name) == ""` of ASCII text.
unfoldable pub is_blank : Text → Bool
is_blank [] = true
is_blank (c ∷ name) = (c == 32 || (leb 9 c && leb c 13)) && is_blank name

abbrev bad_class : ℤ → Bool
bad_class (pos n) = ltb 5 n
bad_class (negsuc _) = true

-- The loops of `validate`, each true where it finds nothing wrong.
unfoldable pub valid_policies : List EventPolicy → Bool
valid_policies [] = true
valid_policies (p ∷ policies) =
    is_positive p.ttl
    && (not (bad_class p.match_event.http_status_class) && valid_policies policies)

unfoldable pub valid_payload_policies : List PayloadPolicy → Bool
valid_payload_policies [] = true
valid_payload_policies (p ∷ policies) =
    is_positive p.ttl
    && (not (bad_class p.match_payload.event.http_status_class) && valid_payload_policies policies)

unfoldable pub valid_classes : List (Text × ℤ) → Bool
valid_classes [] = true
valid_classes (entry ∷ classes) =
    not (is_blank entry.0) && (is_positive entry.1 && valid_classes classes)

unfoldable pub validate : Config → Bool
validate c =
    valid_policies c.event_policies
    && (valid_payload_policies c.payload_policies
        && (valid_classes c.event_classes
            && (valid_classes c.payload_classes
                && not (below_zero c.default_event_ttl || below_zero c.default_payload_ttl))))

abbrev pub positive_or : ℤ → ℕ → ℤ
positive_or v default = if is_positive v then v else pos default

abbrev pub above : ℤ → ℕ → Bool
above (pos n) limit = ltb limit n
above (negsuc _) limit = false

unfoldable pub with_defaults : Config → Config
with_defaults cfg = record cfg {
  event_batch_size = positive_or cfg.event_batch_size 1000;
  payload_batch_size = positive_or cfg.payload_batch_size 100;
  payload_concurrency = positive_or cfg.payload_concurrency 1;
  max_events = positive_or cfg.max_events 100_000;
  max_payloads = positive_or cfg.max_payloads 10_000;
  max_runtime = positive_or cfg.max_runtime 600_000_000_000;
  payload_grace_period = positive_or cfg.payload_grace_period 86_400_000_000_000;
}

unfoldable pub exceeds : Config → Bool
exceeds c =
    above c.event_batch_size 100_000
    || (above c.payload_batch_size 10_000
        || (above c.max_events 10_000_000
            || (above c.max_payloads 1_000_000 || above c.max_runtime 86_400_000_000_000)))

-- `New`: whether it has a store and an archiver, and the configuration.
unfoldable pub new : Bool → Bool → Config → Option Config
new store archiver cfg =
    if not store || not archiver
    then none
    else if above (positive_or cfg.payload_concurrency 1) 32
    then none
    else if exceeds (with_defaults cfg)
    then none
    else if validate (with_defaults cfg)
    then some (with_defaults cfg)
    else none
