-- ===== src/Archive/Scan.antt =====
-- archive/archive.go: the scan of `ReadEvents` over the lines that `Write` made.
use trail.Prelude.{
  ℕ, suc, ◌+◌, ◌-◌, ◌≤◌, ◌<◌, ◌≡◌, ◌≢◌, refl, ap, ◌∙◌, false, Option, none, some, List, [], ◌∷◌,
  ◌++◌, Text, All, take, drop, length, leb, ltb, append_assoc, append-nil, arith, inl, inr,
  Bool-cases, length-append, zero, if◌then◌else◌, ◌&&◌,
}
use mathlib.Core.Path.{subst}
use trail.Storage.{EventRecord}
use trail.Archive.{Library}
use trail.Archive.Io.{Outcome, done}
use trail.Archive.Write.{encode_events, append_line}
use trail.Archive.Read.{lines_of, drop_cr, max_read, scan_line, scan_lines, scanned}

-- The line of an event: it has no newline and no '\r' at its end, it fits the scanner's buffer, and
-- it decodes to the event.
pub record ReadsBack (lib : Library) (event : EventRecord) (line : Text) : Type 0 where
  pub one_line : All (λ (c : ℕ). c ≢ 10) line
  pub no_return : drop_cr line ≡ line
  pub fits : length line < max_read
  pub decodes : lib.decode_event line ≡ some event

abbrev pub Readable : Library → EventRecord → Type 0
Readable lib event = (line : Text) → lib.encode_event event ≡ some line → ReadsBack lib event line

-- The lines of a text that begins with a line.
lines_of-append :
    (line rest : Text)
    → All (λ (c : ℕ). c ≢ 10) line
    → lines_of (line ++ (10 ∷ rest)) ≡ line ∷ lines_of rest
unfolding lines_of
lines_of-append [] rest h = refl
lines_of-append (c ∷ line) rest (h, hs) = ground (arith, lines_of-append line rest hs)

module _ {ℓ} {A : Type ℓ} where
  pub take-nil : (n : ℕ) → take {A = A} n [] ≡ []
  take-nil zero = refl
  take-nil (suc n) = refl

  drop-nil : (n : ℕ) → drop {A = A} n [] ≡ []
  drop-nil zero = refl
  drop-nil (suc n) = refl

  pub some-injective : (a b : A) → some a ≡ some b → a ≡ b
  some-injective a b e = cc

append_line-some :
    (a b : Option Text) (c : Text)
    → append_line a b ≡ some c
    → (line : Text) × (rest : Text) × (a ≡ some line) × (b ≡ some rest) × (line ++ (10 ∷ rest) ≡ c)
append_line-some none b c e = absurd (cc)
append_line-some (some line) none c e = absurd (cc)
append_line-some (some line) (some rest) c e = (line, rest, refl, refl, some-injective _ c e)

done_pair :
    {m n : ℕ} {xs ys : List EventRecord}
    → m ≡ n
    → xs ≡ ys
    → ◌≡◌ {A = Outcome (ℕ × List EventRecord)} (done (m, xs)) (done (n, ys))
done_pair p q = cc

module _ (lib : Library) (offset limit : ℕ) (running : (i : ℕ) → lib.stopped i ≡ false) where
  -- The events that are kept, from the event with this index on.
  abbrev pub kept : ℕ → List EventRecord → List EventRecord → List EventRecord
  kept index result events = result ++ take (limit - length result) (drop (offset - index) events)

  -- A line before the offset or after the last event is left out, any other is kept.
  scan_line_lem :
      (event : EventRecord) (line : Text) (index : ℕ) (result : List EventRecord)
      → ReadsBack lib event line
      → scan_line lib offset limit line index result
        ≡ done
            (if leb offset index && ltb (length result) limit then result ++ event ∷ [] else result)
  unfolding scan_line
  scan_line_lem event line index result h =
      ground (arith, running index, h.no_return, h.fits, h.decodes)

  before_step :
      (event : EventRecord) (events result : List EventRecord) (index k : ℕ)
      → offset - index ≡ suc k
      → kept (suc index) result events ≡ kept index result (event ∷ events)
  before_step event events result index k e =
      let e' : offset - suc index ≡ k = omega (arith, e) in rw (e, e') refl

  keep_step :
      (event : EventRecord) (events result : List EventRecord) (index k : ℕ)
      → offset ≤ index
      → limit - length result ≡ suc k
      → kept (suc index) (result ++ event ∷ []) events ≡ kept index result (event ∷ events)
  keep_step event events result index k h e =
      let e1 : offset - index ≡ 0 = omega arith in
      let e2 : offset - suc index ≡ 0 = omega arith in
      let e3 : limit - length (result ++ event ∷ []) ≡ k =
        omega (arith, e, length-append result (event ∷ [])) in
      rw (e, e1, e2, e3) (append_assoc result (event ∷ []) (take k events))

  full_step :
      (event : EventRecord) (events result : List EventRecord) (index : ℕ)
      → limit - length result ≡ 0
      → kept (suc index) result events ≡ kept index result (event ∷ events)
  full_step event events result index e = rw e refl

  kept_step :
      (event : EventRecord) (events : List EventRecord) (index : ℕ) (result : List EventRecord)
      → kept
          (suc index)
          (if leb offset index && ltb (length result) limit then result ++ event ∷ [] else result)
          events
        ≡ kept index result (event ∷ events)
  kept_step event events index result = elim (Bool-cases (leb offset index)) [
    | inr early ↦
        rw early
          (before_step event events result index (offset - suc index) (ground (arith, early)))
    | inl at ↦ elim (Bool-cases (ltb (length result) limit)) [
      | inl room ↦
          rw (at, room)
            (keep_step event events result index (limit - suc (length result)) (ground (arith, at))
              (ground (arith, room)))
      | inr full ↦ rw (at, full) (full_step event events result index (ground (arith, full)))
    ]
  ]

  pub scan_encoded :
      (events : List EventRecord) (content : Text) (index : ℕ) (result : List EventRecord)
      → All (Readable lib) events
      → encode_events lib events ≡ some content
      → scan_lines lib offset limit (lines_of content) index result
        ≡ done (index + length events, kept index result events)
  unfolding encode_events scan_lines lines_of
  scan_encoded [] content index result readable e =
      let empty : [] ≡ content = some-injective [] content e in
      subst
        (λ (c : Text).
          scan_lines lib offset limit (lines_of c) index result
          ≡ done (index + 0, kept index result []))
        empty
        (rw
          (
            drop-nil {A = EventRecord} (offset - index),
            take-nil {A = EventRecord} (limit - length result),
            append-nil result,
          )
          (ground arith))
  scan_encoded (event ∷ events) content index result (readable, others) e =
      let (line, rest, e1, e2, e3) =
        append_line-some (lib.encode_event event) (encode_events lib events) content e in
      let back = readable line e1 in
      let kept_now =
        if leb offset index && ltb (length result) limit then result ++ event ∷ [] else result in
      let scanned_line = scan_line_lem event line index result back in
      let ih = scan_encoded events rest (suc index) kept_now others e2 in
      subst
        (λ (c : Text).
          scan_lines lib offset limit (lines_of c) index result
          ≡ done (index + suc (length events), kept index result (event ∷ events)))
        e3
        (rw (lines_of-append line rest back.one_line) (
          ap
            (λ (o : Outcome (List EventRecord)).
              scanned o (scan_lines lib offset limit (lines_of rest) (suc index)))
            scanned_line
          ∙ ih
          ∙ done_pair (omega arith) (kept_step event events index result)))
