-- ===== src/Ingest/Made.antt =====
-- The settings that `New` of ingestor/ingestor.go makes, and `boundedError`.
use trail.Prelude.{
  ℕ, ◌≤◌, ◌<◌, ◌≡◌, refl, Bool, true, false, Option, none, some, [], ◌∷◌, Text, codes, length, take,
  ltb, length-take, ◌&&◌, is_empty, arith, if◌then◌else◌,
}
use trail.Prelude.Int.{ℤ, pos, negsuc}
use trail.Ingest.{Config, Settings, new, positive_or}
use trail.Ingest.Engine.{bounded_error}

-- The settings that `Run` relies on.
abbrev pub Usable : Settings → Type 0
Usable s =
    (0 < s.max_messages)
    × ((0 < s.max_events)
        × ((0 < s.max_bytes)
            × ((0 < s.fetch_wait)
                × ((0 < s.write_timeout)
                    × ((0 < s.ack_timeout)
                        × ((0 < s.max_deliveries)
                            × ((0 < s.nak_delay) × (is_empty s.dlq_subject ≡ false))))))))

-- What `New` returns, by whether all three parts are there.
abbrev pub Made : Bool → Option Settings → Type 0
Made false r = r ≡ none
Made true none = ⊥
Made true (some s) = Usable s

positive_or_lem : (value : ℤ) (default : ℕ) → 0 < default → 0 < positive_or value default
positive_or_lem (pos n) default h = ground arith
positive_or_lem (negsuc n) default h = h

some_subject :
    (subject : Text)
    → is_empty (if is_empty subject then codes "trail.events.dlq.v1" else subject) ≡ false
some_subject [] = refl
some_subject (c ∷ subject) = refl

-- New of the ingestor returns an engine exactly when the consumer, the store and the dead-letter
-- publisher are there, and the limits, times and number of deliveries of that engine are then
-- positive and its subject is not empty.
pub new-Made :
    (consumer store dlq : Bool) (cfg : Config)
    → Made (consumer && (store && dlq)) (new consumer store dlq cfg)
unfolding new
new-Made false store dlq cfg = refl
new-Made true false dlq cfg = refl
new-Made true true false cfg = refl
new-Made true true true cfg = (
  positive_or_lem cfg.max_messages 64 (omega arith),
  (
    positive_or_lem cfg.max_events 4096 (omega arith),
    (
      positive_or_lem cfg.max_bytes 8_388_608 (omega arith),
      (
        positive_or_lem cfg.fetch_wait 1_000_000_000 (omega arith),
        (
          positive_or_lem cfg.write_timeout 10_000_000_000 (omega arith),
          (
            positive_or_lem cfg.ack_timeout 2_000_000_000 (omega arith),
            (
              ground arith,
              (
                positive_or_lem cfg.nak_delay 1_000_000_000 (omega arith),
                some_subject cfg.dlq_subject,
              ),
            ),
          ),
        ),
      ),
    ),
  ),
)

length_cut : (n : ℕ) (text : Text) → length (if ltb n (length text) then take n text else text) ≤ n
length_cut n text = ground (arith, length-take n text)

-- The text of an error in a dead-letter header has at most 512 bytes.
pub length-bounded_error : (text : Option Text) → length (bounded_error text) ≤ 512
unfolding bounded_error
length-bounded_error none = omega arith
length-bounded_error (some text) = length_cut 512 text
