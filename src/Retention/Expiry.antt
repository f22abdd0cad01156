-- ===== src/Retention/Expiry.antt =====
-- retention/retention.go: expiry as a specification, and the configurations that `New` accepts.
use trail.Prelude.{ℕ, ◌≤◌, ◌<◌, ◌≡◌, refl, Bool, true, false, some, List, [], ◌∷◌, map, arith}
use mathlib.Core.Path.{subst}
use trail.Prelude.Int.{ℤ, pos, negsuc}
use trail.Retention.{PayloadPolicy, Config, Payload, Event}
use trail.Retention.Policy.{
  match_payload, first_payload_policy, payload_expiry, validate, positive_or, with_defaults,
  exceeds, above, new,
}

-- A payload policy that asks for no retention class.
abbrev pub without_class : PayloadPolicy → PayloadPolicy
without_class p = record p { match_payload = record p.match_payload { retention_class = [] } }

abbrev pub without_classes : Config → Config
without_classes cfg = record cfg { payload_policies = map without_class cfg.payload_policies }

first_payload_policy-without_class :
    (policies : List PayloadPolicy) (v : Event) (p : Payload)
    → first_payload_policy (map without_class policies) v p ≡ first_payload_policy policies v p
unfolding first_payload_policy match_payload
first_payload_policy-without_class [] v p = refl
first_payload_policy-without_class (x ∷ policies) v p =
    rw (first_payload_policy-without_class policies v p) refl

-- The expiry of a payload is the same when the retention classes are taken out of the matches of
-- all payload policies: they have no effect.
pub payload_expiry-without_classes :
    (cfg : Config) (v : Event) (p : Payload)
    → payload_expiry (without_classes cfg) v p ≡ payload_expiry cfg v p
unfolding payload_expiry
payload_expiry-without_classes cfg v p =
    rw (first_payload_policy-without_class cfg.payload_policies v p) refl

-- Within the limits of `New`.
abbrev Within : ℤ → ℕ → Type 0
Within (pos n) most = (0 < n) × (n ≤ most)
Within (negsuc _) most = ⊥

-- The limits on the work of a run, and valid policies.
abbrev pub Bounded : Config → Type 0
Bounded c =
    Within c.event_batch_size 100_000
    × (Within c.payload_batch_size 10_000
        × (Within c.payload_concurrency 32
            × (Within c.max_events 10_000_000
                × (Within c.max_payloads 1_000_000
                    × (Within c.max_runtime 86_400_000_000_000 × (validate c ≡ true))))))

accepted_parts :
    (store archiver : Bool) (cfg c : Config)
    → new store archiver cfg ≡ some c
    → (with_defaults cfg ≡ c)
      × ((above (positive_or cfg.payload_concurrency 1) 32 ≡ false)
          × ((exceeds (with_defaults cfg) ≡ false) × (validate (with_defaults cfg) ≡ true)))
unfolding new
accepted_parts store archiver cfg c h = ground arith

positive_or-Within :
    (v : ℤ) (default most : ℕ)
    → 0 < default
    → above (positive_or v default) most ≡ false
    → Within (positive_or v default) most
positive_or-Within (pos n) default most h small = ground arith
positive_or-Within (negsuc n) default most h small = ground arith

with_defaults-Bounded :
    (cfg : Config)
    → above (positive_or cfg.payload_concurrency 1) 32 ≡ false
    → exceeds (with_defaults cfg) ≡ false
    → validate (with_defaults cfg) ≡ true
    → Bounded (with_defaults cfg)
unfolding with_defaults exceeds
with_defaults-Bounded cfg workers small valid = (
  positive_or-Within cfg.event_batch_size 1000 100_000 (omega arith) (ground (arith, small)),
  (
    positive_or-Within cfg.payload_batch_size 100 10_000 (omega arith) (ground (arith, small)),
    (
      positive_or-Within cfg.payload_concurrency 1 32 (omega arith) workers,
      (
        positive_or-Within cfg.max_events 100_000 10_000_000 (omega arith) (ground (arith, small)),
        (
          positive_or-Within cfg.max_payloads 10_000 1_000_000 (omega arith)
              (ground (arith, small)),
          (
            positive_or-Within cfg.max_runtime 600_000_000_000 86_400_000_000_000 (omega arith)
                (ground (arith, small)),
            valid,
          ),
        ),
      ),
    ),
  ),
)

-- A configuration of the engine that New makes has positive batch sizes, concurrency, limits and
-- running time within the limits of the code, and passes validate.
pub new-Bounded :
    (store archiver : Bool) (cfg c : Config) → new store archiver cfg ≡ some c → Bounded c
new-Bounded store archiver cfg c h =
    let parts = accepted_parts store archiver cfg c h in
    subst Bounded parts.0 (with_defaults-Bounded cfg parts.1.0 parts.1.1.0 parts.1.1.1)
