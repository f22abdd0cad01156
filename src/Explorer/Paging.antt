-- ===== src/Explorer/Paging.antt =====
-- explorerapi/server.go: the cursor of a page, in the response and in the next request.
use trail.Prelude.{
  ◌≡◌, ◌≢◌, refl, sym, ap, ◌∙◌, Bool, true, false, Option, none, some, [], ◌∷◌, Text, All, codes,
  is_empty, arith, if◌then◌else◌,
}
use mathlib.Core.Path.{subst}
use trail.Prelude.Int.{ℤ, pos, ◌≤ℤ◌}
use trail.Id.{IsByte}
use trail.Storage.Query.{Cursor, PageRequest}
use trail.Explorer.{Request, Web}
use trail.Explorer.Base64.{encode_base64, decode_base64-encode_base64}
use trail.Explorer.Parse.{Parsed, number, out_of_range, wrong_syntax, atoi}
use trail.Explorer.Filters.{
  Asked, ask, wrong, get, decode_cursor, encode_cursor, page_limit, page_at, page_request,
  asked_limit,
}

-- The JSON of a cursor: bytes that decode to the cursor.
pub record CursorJson (web : Web) (c : Cursor) : Type 0 where
  pub bytes : All IsByte (web.encode_cursor_json c)
  pub some_bytes : web.encode_cursor_json c ≢ []
  pub decodes : web.decode_cursor_json (web.encode_cursor_json c) ≡ some c

some_text : (bytes : Text) → bytes ≢ [] → is_empty (encode_base64 bytes) ≡ false
unfolding encode_base64
some_text [] h = absurd (h refl)
some_text (a ∷ []) h = refl
some_text (a ∷ b ∷ []) h = refl
some_text (a ∷ b ∷ c ∷ bytes) h = refl

some-injective : {A : Type 0} {a b : A} → some a ≡ some b → a ≡ b
some-injective e = cc

ask-injective : {A : Type 0} {a b : A} → ask a ≡ ask b → a ≡ b
ask-injective e = cc

module _ (web : Web) where
  pub decode_cursor-encode_cursor :
      (c : Cursor)
      → is_empty c.id ≡ false
      → CursorJson web c
      → decode_cursor web (encode_cursor web c) ≡ ask c
  unfolding decode_cursor encode_cursor
  decode_cursor-encode_cursor c some_id json = ground (
    arith,
    some_id,
    some_text (web.encode_cursor_json c) json.some_bytes,
    decode_base64-encode_base64 (web.encode_cursor_json c) json.bytes,
    json.decodes,
  )

  page_limit-bounds :
      (x : Parsed) (limit : ℤ)
      → page_limit web x ≡ some limit
      → (pos 1 ≤ℤ limit) × (limit ≤ℤ pos 500)
  unfolding page_limit
  page_limit-bounds (number n) limit h = ground (arith, h)
  page_limit-bounds (out_of_range n) limit h = absurd (cc)
  page_limit-bounds wrong_syntax limit h = absurd (cc)

  limit_if-bounds :
      (absent : Bool) (x : Parsed) (limit : ℤ)
      → (if absent then some (pos 100) else page_limit web x) ≡ some limit
      → (pos 1 ≤ℤ limit) × (limit ≤ℤ pos 500)
  limit_if-bounds true x limit h =
      subst (λ (n : ℤ). (pos 1 ≤ℤ n) × (n ≤ℤ pos 500)) (some-injective h) (omega arith, omega arith)
  limit_if-bounds false x limit h = page_limit-bounds x limit h

  page_at-parts :
      (limit : Option ℤ) (c : Asked Cursor) (desc : Bool) (p : PageRequest)
      → page_at web limit c desc ≡ ask p
      → (limit ≡ some p.limit) × (c ≡ ask p.cursor)
  unfolding page_at
  page_at-parts none c desc p h = absurd (cc)
  page_at-parts (some limit) (wrong message) desc p h = absurd (cc)
  page_at-parts (some limit) (ask c) desc p h =
      let e : record { limit = limit; cursor = c; desc = desc } ≡ p = ask-injective h in
      (ap (λ (q : PageRequest). some q.limit) e, ap (λ (q : PageRequest). ask q.cursor) e)

  -- Where the cursor of a request is the text that encodeCursor gave for a cursor with an
  -- identifier, whose JSON is bytes that decode to it, and the page of the request is accepted,
  -- the page has that cursor and a limit from 1 to 500.
  pub page_request-encode_cursor :
      (r : Request) (c : Cursor) (p : PageRequest)
      → is_empty c.id ≡ false
      → CursorJson web c
      → get r (codes "cursor") ≡ encode_cursor web c
      → page_request web r ≡ ask p
      → (p.cursor ≡ c) × (pos 1 ≤ℤ p.limit) × (p.limit ≤ℤ pos 500)
  unfolding page_request
  page_request-encode_cursor r c p some_id json sent h =
      let (e1, e2) =
        page_at-parts (asked_limit web r) (decode_cursor web (get r (codes "cursor"))) _ p h in
      let (low, high) =
        limit_if-bounds (is_empty (get r (codes "limit"))) (atoi (get r (codes "limit"))) p.limit
          e1 in
      (
        ask-injective
            (sym e2 ∙ ap (decode_cursor web) sent ∙ decode_cursor-encode_cursor c some_id json),
        low,
        high,
      )
