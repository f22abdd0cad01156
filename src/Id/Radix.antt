-- ===== src/Id/Radix.antt =====
-- Digits to any base: the arithmetic behind `encodeID`, `decodeID` and `SetBytes`.
use native.Mathlib.Nat.{
  div-div-eq-div-mul, mod-add-div, div-eq_of_lt, mod-eq_of_lt, pow-suc, pow-succ', mul_assoc,
  mul-add-div_right, mul-add-mod_self_right, mul-add, mul_comm, pow-zero, div-one, mod-one,
  lt-mul-div-succ, mod-lt, zero-div, zero-mod,
}
use trail.Prelude.{
  ℕ, zero, suc, ◌+◌, ◌*◌, ◌/◌, ◌%◌, ◌^◌, ◌<◌, ◌≡◌, refl, sym, ap, ap₂, ◌∙◌, List, [], ◌∷◌, ◌++◌,
  All, length, replicate, arith,
}

lt_of_div-zero : (a b : ℕ) → 0 < b → a / b ≡ 0 → a < b
lt_of_div-zero a b pos h = grind (arith, lt-mul-div-succ a pos)

join_low : (b p q r a c m x : ℕ) → r + b * q ≡ x → a + p * c ≡ q → m + b * p * c ≡ x → a * b + r ≡ m
join_low b p q r a c m x hx hq hm =
    omega (arith, ap (λ (t : ℕ). b * t) hq, mul-add b a (p * c), mul_assoc b p c, mul_comm a b)

join_high : (n p b a r m : ℕ) → a * b + r ≡ m → (n * p + a) * b + r ≡ n * (b * p) + m
join_high n p b a r m h = grind arith

module _ (base : ℕ) where
  -- the `k` low digits of `x`, most significant first, in front of `ds`
  unfoldable pub digits : ℕ → ℕ → List ℕ → List ℕ
  digits zero x ds = ds
  digits (suc k) x ds = digits k (x / base) ((x % base) ∷ ds)

  unfoldable pub value : ℕ → List ℕ → ℕ
  value n [] = n
  value n (d ∷ ds) = value (n * base + d) ds

  pub digits-suc :
      (k x : ℕ) (ds : List ℕ) → digits (suc k) x ds ≡ (x / base ^ k % base) ∷ digits k x ds
  unfolding digits
  digits-suc zero x ds = rw (pow-zero, div-one)
  digits-suc (suc k) x ds =
      rw (pow-succ', ← div-div-eq-div-mul x base (base ^ k))
        (digits-suc k (x / base) ((x % base) ∷ ds))

  mod-mul_suc : (x p : ℕ) → x / base % p * base + x % base ≡ x % (base * p)
  mod-mul_suc x p =
      join_low base p (x / base) (x % base) (x / base % p) (x / base / p) (x % (base * p)) x
        (mod-add-div x base) (mod-add-div (x / base) p)
        (rw (div-div-eq-div-mul x base p) (mod-add-div x (base * p)))

  -- Reading the digits of `x` behind `n` gives `n` with the low digits of `x` below it.
  pub value-digits :
      (k n x : ℕ) (ds : List ℕ) → value n (digits k x ds) ≡ value (n * base ^ k + x % base ^ k) ds
  unfolding digits value
  value-digits zero n x ds = ap (λ m. value m ds) (rw (pow-zero, mod-one) (omega arith))
  value-digits (suc k) n x ds =
      value-digits k n (x / base) ((x % base) ∷ ds)
      ∙ ap (λ m. value m ds)
          (rw pow-succ' (
            join_high n (base ^ k) base (x / base % base ^ k) (x % base) (x % (base * base ^ k))
              (mod-mul_suc x (base ^ k))))

  module _ (pos : 0 < base) where
    value-div : (n : ℕ) (ds : List ℕ) → All (λ d. d < base) ds → value n ds / base ^ length ds ≡ n
    unfolding value
    value-div n [] h = rw (pow-zero, div-one)
    value-div n (d ∷ ds) h =
        ap (λ p. value (n * base + d) ds / p) (pow-suc base (length ds))
        ∙ sym (div-div-eq-div-mul (value (n * base + d) ds) (base ^ length ds) base)
        ∙ ap (λ q. q / base) (value-div (n * base + d) ds h.1)
        ∙ mul-add-div_right pos n d
        ∙ omega (arith, div-eq_of_lt h.0)

    -- The digits of the number that `ds` spells are `ds`.
    pub digits-value :
        (n : ℕ) (ds es : List ℕ)
        → All (λ d. d < base) ds
        → digits (length ds) (value n ds) es ≡ ds ++ es
    unfolding digits value
    digits-value n [] es h = refl
    digits-value n (d ∷ ds) es h =
        digits-suc (length ds) (value (n * base + d) ds) es
        ∙ ap₂ ◌∷◌
            (ap (λ q. q % base) (value-div (n * base + d) ds h.1)
              ∙ mul-add-mod_self_right n base d
              ∙ mod-eq_of_lt h.0)
            (digits-value (n * base + d) ds es h.1)

    pow_positive : (k : ℕ) → 0 < base ^ k
    pow_positive zero = rw (pow-zero) (omega arith)
    pow_positive (suc k) = rw pow-suc (grind (arith, pow_positive k))

    pub value-lt : (ds : List ℕ) → All (λ d. d < base) ds → value 0 ds < base ^ length ds
    value-lt ds h =
        lt_of_div-zero (value 0 ds) (base ^ length ds) (pow_positive (length ds)) (value-div 0 ds h)

    pub value-lt_suc :
        (n : ℕ) (ds : List ℕ) → All (λ d. d < base) ds → value n ds < base ^ length ds * (n + 1)
    value-lt_suc n ds h = omega (
      arith,
      lt-mul-div-succ (value n ds) (pow_positive (length ds)),
      ap (λ q. base ^ length ds * (q + 1)) (value-div n ds h),
    )

    pub digits-All :
        (k x : ℕ) (ds : List ℕ) → All (λ d. d < base) ds → All (λ d. d < base) (digits k x ds)
    unfolding digits
    digits-All zero x ds h = h
    digits-All (suc k) x ds h = digits-All k (x / base) ((x % base) ∷ ds) (mod-lt x pos, h)

  pub length-digits : (k x : ℕ) (ds : List ℕ) → length (digits k x ds) ≡ k + length ds
  unfolding digits
  length-digits zero x ds = omega arith
  length-digits (suc k) x ds = omega (arith, length-digits k (x / base) ((x % base) ∷ ds))

  pub digits-zero : (k : ℕ) (ds : List ℕ) → digits k 0 ds ≡ replicate k 0 ++ ds
  unfolding digits
  digits-zero zero ds = refl
  digits-zero (suc k) ds = digits-suc k 0 ds ∙ ap₂ ◌∷◌ (rw (zero-div, zero-mod)) (digits-zero k ds)
