-- ===== src/Http/Redacted.antt =====
-- trailhttp/trailhttp.go: what a sensitive header holds does not show in the journal.
use trail.Prelude.{
  ◌≡◌, refl, ap, ◌∙◌, Bool, true, false, Option, none, some, List, [], ◌∷◌, Text, codes, arith,
}
use trail.Prelude.Int.{ℤ}
use trail.Event.Options.{EventOption, string}
use trail.Http.{Correlation, Web, Config, Header, Request, Response, SpoolJob}
use trail.Http.Settings.{HttpOption, has_name, wrap, default_config, wrap-sensitive}
use trail.Http.Capture.{Capture}
use trail.Http.Journal.{
  responded, header_value, header_key, header_fields, add_header, event_options, end_options, log,
}

-- Two headers that differ at most in the values of the names that are sensitive.
abbrev pub AlikeAt : Bool → Option (List Text) → Option (List Text) → Type 0
AlikeAt sensitive none none = Unit
AlikeAt true (some _) (some _) = Unit
AlikeAt false (some values) (some values') = values ≡ values'
AlikeAt sensitive none (some _) = ⊥
AlikeAt sensitive (some _) none = ⊥

abbrev pub Alike : List Text → Header → Header → Type 0
Alike sensitive h h' = (name : Text) → AlikeAt (has_name name sensitive) (h name) (h' name)

module _ (web : Web) (options : List HttpOption) where
  abbrev cfg : Config
  cfg = wrap web options

  header_value-Alike :
      (name : Text) (values values' : List Text) (sensitive : Bool)
      → has_name name default_config.header_sensitive ≡ sensitive
      → AlikeAt sensitive (some values) (some values')
      → header_value cfg name values ≡ header_value cfg name values'
  header_value-Alike name values values' true e h =
      let e' = wrap-sensitive web options name e in ground (arith, e')
  header_value-Alike name values values' false e h =
      ap (λ (v : List Text). header_value cfg name v) h

  add_header-Alike :
      (prefix name : Text) (o o' : Option (List Text)) (fields fields' : List EventOption)
      → AlikeAt (has_name name default_config.header_sensitive) o o'
      → fields ≡ fields'
      → add_header web cfg prefix name o fields ≡ add_header web cfg prefix name o' fields'
  add_header-Alike prefix name none none fields fields' h e = e
  add_header-Alike prefix name none (some values') fields fields' h e = absurd h
  add_header-Alike prefix name (some values) none fields fields' h e = absurd h
  add_header-Alike prefix name (some values) (some values') fields fields' h e =
      let v = header_value-Alike name values values' _ refl h in
      ap (λ (t : Text). string (header_key web prefix name) t ∷ fields) v
      ∙ ap
          (λ (fs : List EventOption).
            string (header_key web prefix name) (header_value cfg name values') ∷ fs)
          e

  header_fields-Alike :
      (prefix : Text) (h h' : Header) (names : List Text)
      → Alike default_config.header_sensitive h h'
      → header_fields web cfg prefix h names ≡ header_fields web cfg prefix h' names
  unfolding header_fields
  header_fields-Alike prefix h h' [] alike = refl
  header_fields-Alike prefix h h' (name ∷ names) alike =
      add_header-Alike prefix name (h name) (h' name) _ _ (alike name)
        (header_fields-Alike prefix h h' names alike)

  -- With any options given to Wrap, two exchanges whose request and response headers differ at
  -- most in the values of the headers that are sensitive by default, and have the same content
  -- types, are journaled alike: the values of these headers do not show.
  pub log-Alike :
      (accepts : SpoolJob → Bool) (request : Request) (response : Response) (h h' g g' : Header)
      (correlation : Correlation) (elapsed : ℤ) (sent : Capture) (received : Option Capture)
      → Alike default_config.header_sensitive h h'
      → h (codes "Content-Type") ≡ h' (codes "Content-Type")
      → Alike default_config.header_sensitive g g'
      → g (codes "Content-Type") ≡ g' (codes "Content-Type")
      → log web cfg accepts
          (record request { header = h })
          (responded (record response { header = g }))
          correlation
          elapsed
          sent
          received
        ≡ log web cfg accepts
            (record request { header = h' })
            (responded (record response { header = g' }))
            correlation
            elapsed
            sent
            received
  unfolding log event_options end_options
  log-Alike accepts request response h h' g g' correlation elapsed sent none alike content alike'
        content' =
      let p = header_fields-Alike (codes "http.request.header.") h h' cfg.header_allow alike in
      let q = header_fields-Alike (codes "http.response.header.") g g' cfg.header_allow alike' in
      rw (p, content, q) refl
  log-Alike accepts request response h h' g g' correlation elapsed sent (some c) alike content
        alike' content' =
      let p = header_fields-Alike (codes "http.request.header.") h h' cfg.header_allow alike in
      let q = header_fields-Alike (codes "http.response.header.") g g' cfg.header_allow alike' in
      rw (p, content, q, content') refl
