-- ===== src/Http/Capture.antt =====
-- trailhttp/trailhttp.go: `capture`, and the reads of a body.
use trail.Prelude.{
  ℕ, zero, suc, ◌+◌, ◌-◌, ◌≤◌, ◌≡◌, refl, sym, ap, ◌∙◌, List, [], ◌∷◌, ◌++◌, append_assoc,
  append-nil, Text, length, length-append, length-take, take, ltb, if◌then◌else◌, arith, Bool-cases,
  inl, inr,
}
use trail.Archive.Scan.{take-nil}

pub record Capture : Type 0 where
  pub limit : ℕ
  pub payload_limit : ℕ
  pub n : ℕ
  pub preview : Text
  pub payload : Text

-- `newCapture`
abbrev pub new_capture : ℕ → ℕ → Capture
new_capture limit payload_limit = record {
  limit = limit;
  payload_limit = payload_limit;
  n = 0;
  preview = [];
  payload = [];
}

-- `chunk[:remaining]` where the chunk is longer
unfoldable pub cut : ℕ → Text → Text
cut remaining chunk = if ltb remaining (length chunk) then take remaining chunk else chunk

-- One of the two buffers of `add`.
unfoldable pub fill : ℕ → Text → Text → Text
fill limit buffer chunk =
    if ltb (length buffer) limit then buffer ++ cut (limit - length buffer) chunk else buffer

unfoldable pub add : Capture → Text → Capture
add c chunk = record c {
  n = c.n + length chunk;
  preview = fill c.limit c.preview chunk;
  payload = fill c.payload_limit c.payload chunk;
}

unfoldable pub add_chunks : Capture → List Text → Capture
add_chunks c [] = c
add_chunks c (chunk ∷ chunks) = add_chunks (add c chunk) chunks

abbrev pub concat : List Text → Text
concat [] = []
concat (chunk ∷ chunks) = chunk ++ concat chunks

take_long : (n : ℕ) (text : Text) → length text ≤ n → take n text ≡ text
take_long n [] h = take-nil {0} n
take_long zero (c ∷ text) h = absurd (omega (arith, h))
take_long (suc n) (c ∷ text) h = ap (λ (t : Text). c ∷ t) (take_long n text (omega (arith, h)))

cut_lem : (n : ℕ) (text : Text) → cut n text ≡ take n text
unfolding cut
cut_lem n text = ground (arith, take_long n text)

pub take-append : (n : ℕ) (s t : Text) → take n (s ++ t) ≡ take n s ++ take (n - length s) t
take-append n [] t = let e : n - 0 ≡ n = omega arith in rw (take-nil {0} {A = ℕ} n, e) refl
take-append zero (c ∷ s) t = let e : 0 - suc (length s) ≡ 0 = omega arith in rw e refl
take-append (suc n) (c ∷ s) t =
    let e : suc n - suc (length s) ≡ n - length s = omega arith in
    rw e (ap (λ (u : Text). c ∷ u) (take-append n s t))

-- A buffer that holds the beginning of what was read holds the beginning of what is read then.
fill-take :
    (limit : ℕ) (old chunk : Text) → fill limit (take limit old) chunk ≡ take limit (old ++ chunk)
unfolding fill
fill-take limit old chunk = elim (Bool-cases (ltb (length (take limit old)) limit)) [
  | inl room ↦
      let e : take limit old ≡ old =
        take_long limit old (ground (arith, room, length-take limit old)) in
      let e' : limit - length (take limit old) ≡ limit - length old =
        ap (λ (t : Text). limit - length t) e in
      rw room (
        ap (λ (t : Text). take limit old ++ t) (cut_lem (limit - length (take limit old)) chunk)
        ∙ ap (λ (k : ℕ). take limit old ++ take k chunk) e'
        ∙ sym (take-append limit old chunk))
  | inr full ↦
      let e : limit - length old ≡ 0 = ground (arith, full, length-take limit old) in
      rw full (sym (append-nil (take limit old)) ∙ sym (rw (take-append limit old chunk, e) refl))
]

-- The captures of what was read.
abbrev pub capture_of : ℕ → ℕ → Text → Capture
capture_of limit payload_limit text = record {
  limit = limit;
  payload_limit = payload_limit;
  n = length text;
  preview = take limit text;
  payload = take payload_limit text;
}

pub add-capture_of :
    (limit payload_limit : ℕ) (text chunk : Text)
    → add (capture_of limit payload_limit text) chunk
      ≡ capture_of limit payload_limit (text ++ chunk)
unfolding add
add-capture_of limit payload_limit text chunk =
    rw (fill-take limit text chunk, fill-take payload_limit text chunk, length-append text chunk)
      refl

add_chunks-capture_of :
    (limit payload_limit : ℕ) (text : Text) (chunks : List Text)
    → add_chunks (capture_of limit payload_limit text) chunks
      ≡ capture_of limit payload_limit (text ++ concat chunks)
unfolding add_chunks
add_chunks-capture_of limit payload_limit text [] =
    ap (capture_of limit payload_limit) (sym (append-nil text))
add_chunks-capture_of limit payload_limit text (chunk ∷ chunks) =
    ap (λ (c : Capture). add_chunks c chunks) (add-capture_of limit payload_limit text chunk)
    ∙ add_chunks-capture_of limit payload_limit (text ++ chunk) chunks
    ∙ ap (capture_of limit payload_limit) (append_assoc text chunk (concat chunks))

pub capture_of-nil :
    (limit payload_limit : ℕ) → capture_of limit payload_limit [] ≡ new_capture limit payload_limit
capture_of-nil limit payload_limit =
    rw (take-nil {0} {A = ℕ} limit, take-nil {0} {A = ℕ} payload_limit) refl

pub add_chunks-concat :
    (limit payload_limit : ℕ) (chunks : List Text)
    → add_chunks (new_capture limit payload_limit) chunks
      ≡ capture_of limit payload_limit (concat chunks)
add_chunks-concat limit payload_limit chunks =
    ap (λ (c : Capture). add_chunks c chunks) (sym (capture_of-nil limit payload_limit))
    ∙ add_chunks-capture_of limit payload_limit [] chunks
