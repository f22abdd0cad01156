-- ===== src/Explorer/Parse.antt =====
-- strconv: `Atoi` and `ParseBool`, by which explorerapi/server.go reads its parameters.
use trail.Prelude.{
  ℕ, ◌+◌, ◌-◌, ◌*◌, ◌^◌, Bool, true, false, not, ◌&&◌, ◌||◌, Option, none, some, List, [], ◌∷◌,
  Text, codes, text_eq, leb, ltb, ◌==◌, if◌then◌else◌,
}
use trail.Prelude.Int.{ℤ, pos, negsuc}

-- A number, the nearest int of a number out of range, or a syntax error.
pub data Parsed : Type 0 where
  number : ℤ → Parsed
  out_of_range : ℤ → Parsed
  wrong_syntax : Parsed

pub data Digits : Type 0 where
  digits : ℕ → Digits
  overflow : Digits
  wrong : Digits

-- The loop of `ParseUint`: it stops at the first digit at which the number leaves a uint64.
unfoldable pub read_digits : Text → ℕ → Digits
read_digits [] n = digits n
read_digits (c ∷ text) n =
    let rest = read_digits text (n * 10 + (c - b'0')) in
    if not (leb b'0' c && leb c b'9')
    then wrong
    else if leb (2 ^ 64) (n * 10 + (c - b'0'))
    then overflow
    else rest

unfoldable pub positive : Digits → Parsed
positive (digits n) = if ltb n (2 ^ 63) then number (pos n) else out_of_range (pos (2 ^ 63 - 1))
positive overflow = out_of_range (pos (2 ^ 63 - 1))
positive wrong = wrong_syntax

abbrev pub negated : ℕ → ℤ
negated n = if n == 0 then pos 0 else negsuc (n - 1)

unfoldable pub negative : Digits → Parsed
negative (digits n) =
    if leb n (2 ^ 63) then number (negated n) else out_of_range (negsuc (2 ^ 63 - 1))
negative overflow = out_of_range (negsuc (2 ^ 63 - 1))
negative wrong = wrong_syntax

-- A number of at least one digit.
abbrev pub signed : (Digits → Parsed) → Text → Parsed
signed sign [] = wrong_syntax
signed sign (c ∷ text) = sign (read_digits (c ∷ text) 0)

-- `strconv.Atoi`
unfoldable pub atoi : Text → Parsed
atoi [] = wrong_syntax
atoi (c ∷ text) =
    if c == b'-'
    then signed negative text
    else if c == b'+'
    then signed positive text
    else positive (read_digits (c ∷ text) 0)

-- `n, _ = strconv.Atoi(text)`
unfoldable pub value_of : Parsed → ℤ
value_of (number n) = n
value_of (out_of_range n) = n
value_of wrong_syntax = pos 0

unfoldable pub one_of : Text → List Text → Bool
one_of text [] = false
one_of text (t ∷ texts) = text_eq text t || one_of text texts

-- `strconv.ParseBool`
unfoldable pub parse_bool : Text → Option Bool
parse_bool text =
    if one_of text
      (codes "1" ∷ codes "t" ∷ codes "T" ∷ codes "true" ∷ codes "TRUE" ∷ codes "True" ∷ [])
    then some true
    else if one_of text
        (codes "0" ∷ codes "f" ∷ codes "F" ∷ codes "false" ∷ codes "FALSE" ∷ codes "False" ∷ [])
    then some false
    else none
