-- ===== src/Config.antt =====
-- config.go: the configuration of the writer and its normalisation.
mod Tests
use trail.Prelude.{
  ℕ, zero, suc, refl, ◌≤◌, ◌<◌, ◌≡◌, ◌≢◌, ◌↔◌, ◌⊎◌, inl, inr, Bool, true, false, ◌||◌, not, List,
  Text, is_empty, ◌==◌, if◌then◌else◌, arith,
}
use trail.Prelude.Int.{ℤ, pos, negsuc, is_zero}
use trail.Writer.{Params, Policy, drop, block}

-- `Config`. Of the sink the code asks only whether it is nil. `FullPolicy` is a uint8; the sizes are
-- ints and the interval is a count of nanoseconds.
pub record Config : Type 0 where
  pub service : Text
  pub environment : Text
  pub version : Text
  pub has_sink : Bool
  pub buffer_capacity : ℤ
  pub batch_size : ℤ
  pub flush_interval : ℤ
  pub full_policy : ℕ

abbrev pub default_buffer_capacity : ℤ
default_buffer_capacity = pos 4096

abbrev pub default_batch_size : ℤ
default_batch_size = pos 64

abbrev pub default_flush_interval : ℤ
default_flush_interval = pos 100_000_000

pub data ConfigError : Type 0 where
  service_required sink_required negative_size unknown_policy : ConfigError

pub data Normalized : Type 0 where
  ok : Config → Normalized
  err : ConfigError → Normalized

abbrev pub is_negative : ℤ → Bool
is_negative (pos _) = false
is_negative (negsuc _) = true

abbrev pub or_default : ℤ → ℤ → ℤ
or_default value default = if is_zero value then default else value

-- The three assignments of defaults at the end of `normalizeConfig`.
unfoldable pub with_defaults : Config → Config
with_defaults cfg = record cfg {
  buffer_capacity = or_default cfg.buffer_capacity default_buffer_capacity;
  batch_size = or_default cfg.batch_size default_batch_size;
  flush_interval = or_default cfg.flush_interval default_flush_interval;
}

unfoldable pub normalize_config : Config → Normalized
unfolding with_defaults
normalize_config cfg =
    if is_empty cfg.service
    then err service_required
    else if not cfg.has_sink
    then err sink_required
    else if is_negative cfg.buffer_capacity
        || is_negative cfg.batch_size
        || is_negative cfg.flush_interval
    then err negative_size
    else if not (cfg.full_policy == 0 || cfg.full_policy == 1)
    then err unknown_policy
    else ok (with_defaults cfg)

abbrev pub IsPositive : ℤ → Type 0
IsPositive (pos n) = 0 < n
IsPositive (negsuc n) = ⊥

-- A setting is kept, or was zero and has its default.
abbrev pub Defaulted : ℤ → ℤ → ℤ → Type 0
Defaulted before default after =
    ((after ≡ before) × (before ≢ pos 0)) ⊎ ((before ≡ pos 0) × (after ≡ default))

pub record Usable (cfg out : Config) : Type 0 where
  pub service : out.service ≢ List.[]
  pub sink : out.has_sink ≡ true
  pub capacity : IsPositive out.buffer_capacity
  pub batch : IsPositive out.batch_size
  pub interval : IsPositive out.flush_interval
  pub policy : (out.full_policy ≡ 0) ⊎ (out.full_policy ≡ 1)
  pub kept_capacity : Defaulted cfg.buffer_capacity default_buffer_capacity out.buffer_capacity
  pub kept_batch : Defaulted cfg.batch_size default_batch_size out.batch_size
  pub kept_interval : Defaulted cfg.flush_interval default_flush_interval out.flush_interval
  pub kept_names :
      (out.service ≡ cfg.service)
      × (out.environment ≡ cfg.environment)
      × (out.version ≡ cfg.version)
      × (out.full_policy ≡ cfg.full_policy)

pos-ne-zero : (n : ℕ) → pos (suc n) ≢ pos 0
pos-ne-zero n h = ground arith

-- Part of `Usable` for one number.
or_default-IsPositive :
    (v d : ℤ)
    → IsPositive d
    → is_negative v ≡ false
    → IsPositive (or_default v d) × Defaulted v d (or_default v d)
or_default-IsPositive (pos zero) d h nonneg = (h, inr (refl, refl))
or_default-IsPositive (pos (suc n)) d h nonneg = (omega arith, inl (refl, pos-ne-zero n))
or_default-IsPositive (negsuc n) d h nonneg = absurd (ground arith)

-- The tests that an accepted configuration has passed.
accepted_parts :
    (cfg out : Config)
    → normalize_config cfg ≡ ok out
    → (with_defaults cfg ≡ out)
      × (is_empty cfg.service ≡ false)
      × (cfg.has_sink ≡ true)
      × (is_negative cfg.buffer_capacity ≡ false)
      × (is_negative cfg.batch_size ≡ false)
      × (is_negative cfg.flush_interval ≡ false)
      × ((cfg.full_policy ≡ 0) ⊎ (cfg.full_policy ≡ 1))
unfolding normalize_config
accepted_parts cfg out h = ground arith

-- A configuration that normalizeConfig returns without an error has a service and a sink, positive
-- sizes and interval and a known policy; it keeps every setting that was not zero, and has the
-- default in place of a zero.
pub normalize_config-Usable : (cfg out : Config) → normalize_config cfg ≡ ok out → Usable cfg out
unfolding with_defaults
normalize_config-Usable cfg out h =
    let parts = accepted_parts cfg out h in
    let same : with_defaults cfg ≡ out = parts.0 in
    let (capacity, kept_capacity) =
      or_default-IsPositive cfg.buffer_capacity default_buffer_capacity (omega arith) parts.3 in
    let (batch, kept_batch) =
      or_default-IsPositive cfg.batch_size default_batch_size (omega arith) parts.4 in
    let (interval, kept_interval) =
      or_default-IsPositive cfg.flush_interval default_flush_interval (omega arith) parts.5 in
    rw (← same) (record {
      service = λ e. ground (arith, parts.1);
      sink = parts.2;
      capacity = capacity;
      batch = batch;
      interval = interval;
      policy = parts.6;
      kept_capacity = kept_capacity;
      kept_batch = kept_batch;
      kept_interval = kept_interval;
      kept_names = (refl, refl, refl, refl);
    })

-- The parameters of the writer that `Init` makes of a normalised configuration.
abbrev natural : ℤ → ℕ
natural (pos n) = n
natural (negsuc n) = 0

unfoldable pub params : Config → Params
params cfg = record {
  policy = if cfg.full_policy == 1 then block else drop;
  capacity = natural cfg.buffer_capacity;
  batch_size = natural cfg.batch_size;
}

natural_positive : (v : ℤ) → IsPositive v → 0 < natural v
natural_positive (pos n) h = h
natural_positive (negsuc n) h = absurd h

-- The writer that Init starts from an accepted configuration has a queue capacity and a batch size
-- of at least one.
pub params_positive :
    (cfg out : Config)
    → normalize_config cfg ≡ ok out
    → (0 < (params out).capacity) × (0 < (params out).batch_size)
unfolding params
params_positive cfg out h =
    let usable = normalize_config-Usable cfg out h in
    (
      natural_positive out.buffer_capacity usable.capacity,
      natural_positive out.batch_size usable.batch,
    )
