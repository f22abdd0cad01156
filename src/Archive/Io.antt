-- ===== src/Archive/Io.antt =====
-- archive/archive.go: operations that change the stores and may fail.
use trail.Prelude.{◌≡◌, refl, Bool, true, false, Option, none, some}
use trail.Payload.Store.{Failure, Answer, found, missed, other_failure}

-- The errors of package archive, and `call_failed` for an error that it passes on.
pub data ArchiveError : Type 0 where
  store_required empty_batch source_not_configured payload_unverified : ArchiveError
  manifest_unverified manifest_checksum invalid_manifest invalid_read : ArchiveError
  event_count event_checksum restore_required identity_mismatch : ArchiveError
  destination_not_configured restored_unverified : ArchiveError
  call_failed : Failure → ArchiveError

pub data Outcome (A : Type 0) : Type 0 where
  done : A → Outcome A
  failed : ArchiveError → Outcome A

abbrev pub Io : Type 0 → Type 0 → Type 0
Io S A = S → S × Outcome A

module _ {S A : Type 0} where
  abbrev pub pure : A → Io S A
  pure a s = (s, done a)

  abbrev pub fail : ArchiveError → Io S A
  fail e s = (s, failed e)

  abbrev pub or_fail : ArchiveError → Option A → Io S A
  or_fail e none s = (s, failed e)
  or_fail e (some a) s = (s, done a)

  -- An answer of the outside world.
  abbrev pub answer : S × Answer A → S × Outcome A
  answer (s, missed e) = (s, failed (call_failed e))
  answer (s, found a) = (s, done a)

-- An error that is passed on, and that nobody tells from others.
abbrev pub library_failed : ArchiveError
library_failed = call_failed other_failure

-- `if wrong { return e }`
abbrev pub fail_if : {S : Type 0} → Bool → ArchiveError → Io S (Unit {0})
fail_if true e s = (s, failed e)
fail_if false e s = (s, done tt)

module _ {S A B : Type 0} where
  abbrev pub and_then : S × Outcome A → (A → Io S B) → S × Outcome B
  and_then (s, done a) k = k a s
  and_then (s, failed e) k = (s, failed e)

  infixl 5 ◌>>=◌ ◌>>◌
  abbrev pub ◌>>=◌ : Io S A → (A → Io S B) → Io S B
  ◌>>=◌ m k s = and_then (m s) k

  abbrev pub ◌>>◌ : Io S A → Io S B → Io S B
  m >> n = m >>= λ _. n

  -- A sequence that gives a value gave one at its first step.
  abbrev pub Through : S × Outcome A → (A → Io S B) → S → B → Type 0
  Through first k s b = (s1 : S) × (a : A) × (first ≡ (s1, done a)) × (k a s1 ≡ (s, done b))

  pub through :
      (first : S × Outcome A) (k : A → Io S B) (s : S) (b : B)
      → and_then first k ≡ (s, done b)
      → Through first k s b
  through (s1, done a) k s b h = (s1, a, refl, h)
  through (s1, failed e) k s b h = absurd (cc)

  -- The same for a first step of each kind.
  pub through_option :
      (e : ArchiveError) (o : Option A) (k : A → Io S B) (s s' : S) (b : B)
      → and_then (or_fail e o s) k ≡ (s', done b)
      → (a : A) × (o ≡ some a) × (k a s ≡ (s', done b))
  through_option e none k s s' b h = absurd (cc)
  through_option e (some a) k s s' b h = (a, refl, h)

  pub through_answer :
      (x : S × Answer A) (k : A → Io S B) (s' : S) (b : B)
      → and_then (answer x) k ≡ (s', done b)
      → (s1 : S) × (a : A) × (x ≡ (s1, found a)) × (k a s1 ≡ (s', done b))
  through_answer (s1, missed e) k s' b h = absurd (cc)
  through_answer (s1, found a) k s' b h = (s1, a, refl, h)

  pub through_read :
      (s : S) (o : Answer A) (k : A → Io S B) (s' : S) (b : B)
      → and_then (answer (s, o)) k ≡ (s', done b)
      → (a : A) × (o ≡ found a) × (k a s ≡ (s', done b))
  through_read s (missed e) k s' b h = absurd (cc)
  through_read s (found a) k s' b h = (a, refl, h)

pub through_test :
    {S B : Type 0} (wrong : Bool) (e : ArchiveError) (k : Io S B) (s s' : S) (b : B)
    → and_then (fail_if wrong e s) (λ _. k) ≡ (s', done b)
    → (wrong ≡ false) × (k s ≡ (s', done b))
through_test true e k s s' b h = absurd (cc)
through_test false e k s s' b h = (refl, h)

pub answer-done :
    {S A : Type 0} (x : S × Answer A) (s' : S) (a : A) → answer x ≡ (s', done a) → x ≡ (s', found a)
answer-done (s, missed e) s' a h = absurd (cc)
answer-done (s, found b) s' a h = cc

pub done-injective :
    {S A : Type 0} {s s' : S} {a b : A} → ◌≡◌ {A = S × Outcome A} (s, done a) (s', done b) → a ≡ b
done-injective e = cc
