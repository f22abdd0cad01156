-- ===== src/Id/Generator.antt =====
-- `nextID`: a random prefix of ten bytes and a shared counter of 48 bits.
use trail.Prelude.{
  ℕ, zero, suc, ◌+◌, ◌-◌, ◌*◌, ◌/◌, ◌%◌, ◌^◌, ◌≤◌, ◌<◌, ◌≡◌, ◌≢◌, refl, ap, ◌∙◌, Bool, false, ◌&&◌,
  Option, none, some, List, [], ◌∷◌, ◌++◌, map, Text, All, All-append, length, length-append, leb,
  if◌then◌else◌, arith,
}
use trail.Id.{Identifier, IsId, IsByte, Outcome, ok, panic, is_zero_id}

-- `idPrefix`, once `idOnce` has filled it, and `idCounter`.
pub record Generator : Type 0 where
  pub prefix : Text
  pub counter : ℕ

-- `rand.Read` fills the ten bytes; `none` is its failure, at which `nextID` panics.
unfoldable pub init_generator : Option Text → Outcome Generator
init_generator none = panic
init_generator (some prefix) = ok (record { prefix = prefix; counter = 0 })

-- `id[10] … id[15]`: the counter, big endian. `byte(n)` keeps the low eight bits.
unfoldable pub counter_bytes : ℕ → Text
counter_bytes n =
    (n / 2 ^ 40 % 256)
    ∷ (n / 2 ^ 32 % 256)
    ∷ (n / 2 ^ 24 % 256)
    ∷ (n / 2 ^ 16 % 256)
    ∷ (n / 2 ^ 8 % 256)
    ∷ (n % 256)
    ∷ []

-- `idCounter.Add(1)` is one atomic step; the counter keeps its value when the call panics.
unfoldable pub next_id : Generator → Outcome Identifier × Generator
next_id g =
    let n = (g.counter + 1) % 2 ^ 64 in
    (if leb (2 ^ 48) n then panic else ok (g.prefix ++ counter_bytes n), record g { counter = n })

-- `count` calls in the order of their atomic additions.
unfoldable pub next_ids : ℕ → Generator → List (Outcome Identifier) × Generator
next_ids zero g = ([], g)
next_ids (suc count) g =
    let (id, g') = next_id g in let (ids, g'') = next_ids count g' in (id ∷ ids, g'')

pub record IsValid (g : Generator) : Type 0 where
  pub ten : length g.prefix ≡ 10
  pub bytes : All IsByte g.prefix
  pub counter_lt : g.counter < 2 ^ 48

counter_bytes-IsByte : (n : ℕ) → All IsByte (counter_bytes n)
unfolding counter_bytes
counter_bytes-IsByte n = omega arith

length-counter_bytes : (n : ℕ) → length (counter_bytes n) ≡ 6
unfolding counter_bytes
length-counter_bytes n = refl

-- The bytes spell the counter, as long as it fits.
counter_bytes_total :
    (n : ℕ)
    → n < 2 ^ 48
    → n / 2 ^ 40 % 256 * 2 ^ 40
        + n / 2 ^ 32 % 256 * 2 ^ 32
        + n / 2 ^ 24 % 256 * 2 ^ 24
        + n / 2 ^ 16 % 256 * 2 ^ 16
        + n / 2 ^ 8 % 256 * 2 ^ 8
        + n % 256
      ≡ n
counter_bytes_total n h = omega arith

counter_bytes_injective :
    (n m : ℕ) → n < 2 ^ 48 → m < 2 ^ 48 → counter_bytes n ≡ counter_bytes m → n ≡ m
unfolding counter_bytes
counter_bytes_injective n m hn hm h =
    ground (arith, counter_bytes_total n hn, counter_bytes_total m hm)

append_left_injective : (p a b : Text) → p ++ a ≡ p ++ b → a ≡ b
append_left_injective [] a b h = h
append_left_injective (x ∷ p) a b h = append_left_injective p a b (ground arith)

abbrev pub Distinct {ℓ} : {A : Type ℓ} → List A → Type ℓ
Distinct [] = Unit
Distinct (x ∷ xs) = All (λ y. x ≢ y) xs × Distinct xs

module _ (prefix : Text) where
  -- the identifiers of the `count` calls behind counter `c`
  issued : ℕ → ℕ → List Identifier
  issued zero c = []
  issued (suc count) c = (prefix ++ counter_bytes (c + 1)) ∷ issued count (c + 1)

  issued-new :
      (count c n : ℕ)
      → n ≤ c
      → c + count < 2 ^ 48
      → All (λ id. prefix ++ counter_bytes n ≢ id) (issued count c)
  unfolding issued
  issued-new zero c n h fits = tt
  issued-new (suc count) c n h fits = (
    λ e. absurd (
        omega (
          arith,
          counter_bytes_injective n (c + 1) (omega arith) (omega arith)
              (append_left_injective prefix _ _ e),
        )),
    issued-new count (c + 1) n (omega arith) (omega arith),
  )

  issued-Distinct : (count c : ℕ) → c + count < 2 ^ 48 → Distinct (issued count c)
  unfolding issued
  issued-Distinct zero c fits = tt
  issued-Distinct (suc count) c fits = (
    issued-new count (c + 1) (c + 1) (omega arith) (omega arith),
    issued-Distinct count (c + 1) (omega arith),
  )

  issued-IsId : (count c : ℕ) → length prefix ≡ 10 → All IsByte prefix → All IsId (issued count c)
  unfolding issued
  issued-IsId zero c ten bytes = tt
  issued-IsId (suc count) c ten bytes = (
    (
      omega (arith, length-append prefix (counter_bytes (c + 1)), length-counter_bytes (c + 1)),
      All-append IsByte prefix (counter_bytes (c + 1)) bytes (counter_bytes-IsByte (c + 1)),
    ),
    issued-IsId count (c + 1) ten bytes,
  )

next_id_lem :
    (g : Generator)
    → g.counter + 1 < 2 ^ 48
    → next_id g
      ≡ (ok (g.prefix ++ counter_bytes (g.counter + 1)), record g { counter = g.counter + 1 })
unfolding next_id
next_id_lem g h = ground arith

next_ids-issued :
    (count : ℕ) (g : Generator)
    → g.counter + count < 2 ^ 48
    → (next_ids count g).0 ≡ map ok (issued g.prefix count g.counter)
unfolding next_ids issued
next_ids-issued zero g h = refl
next_ids-issued (suc count) g h = rw (next_id_lem g (omega arith)) (
    ap (λ ids. ok (g.prefix ++ counter_bytes (g.counter + 1)) ∷ ids)
      (next_ids-issued count (record g { counter = g.counter + 1 }) (omega arith)))

-- From a valid generator, while the counter stays below 2 ^ 48, no call of nextID panics, and the
-- identifiers returned are well formed and pairwise different.
pub next_ids-Distinct :
    (count : ℕ) (g : Generator)
    → IsValid g
    → g.counter + count < 2 ^ 48
    → (ids : List Identifier) × ((next_ids count g).0 ≡ map ok ids) × Distinct ids × All IsId ids
next_ids-Distinct count g v h = (
  issued g.prefix count g.counter,
  next_ids-issued count g h,
  issued-Distinct g.prefix count g.counter h,
  issued-IsId g.prefix count g.counter v.ten v.bytes,
)

is_zero_id-append : (a b : Text) → is_zero_id (a ++ b) ≡ (is_zero_id a && is_zero_id b)
unfolding is_zero_id
is_zero_id-append [] b = refl
is_zero_id-append (x ∷ a) b = ground (arith, is_zero_id-append a b)

counter_bytes_nonzero : (n : ℕ) → 0 < n → n < 2 ^ 48 → is_zero_id (counter_bytes n) ≡ false
unfolding counter_bytes is_zero_id
counter_bytes_nonzero n h fits = ground (arith, counter_bytes_total n fits)

&&-false : (a b : Bool) → b ≡ false → (a && b) ≡ false
&&-false a b h = ground arith

-- From a valid generator, an identifier that nextID returns is not the zero value, which stands
-- for no identifier.
pub next_id_nonzero :
    (g : Generator) (id : Identifier) → IsValid g → (next_id g).0 ≡ ok id → is_zero_id id ≡ false
unfolding next_id
next_id_nonzero g id v h =
    let n = g.counter + 1 in
    let fits : n < 2 ^ 48 = ground arith in
    let same : g.prefix ++ counter_bytes n ≡ id =
      ground (arith, ap (λ p. p.0) (next_id_lem g fits)) in
    rw (← same) (
      is_zero_id-append g.prefix (counter_bytes n)
      ∙ &&-false _ _ (counter_bytes_nonzero n (omega arith) fits))

-- At 2 ^ 48 - 1 identifiers the generator panics.
pub next_id_exhausted : (g : Generator) → IsValid g → g.counter ≡ 2 ^ 48 - 1 → (next_id g).0 ≡ panic
unfolding next_id
next_id_exhausted g v h = ground arith
