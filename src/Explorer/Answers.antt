-- ===== src/Explorer/Answers.antt =====
-- explorerapi/server.go: the status of a response, and what its body may be.
use trail.Prelude.{ℕ, ◌≡◌, ◌⊎◌, inl, inr, none, refl, Bool, true, false, codes, text_eq}
use trail.Payload.Store.{Stores}
use trail.Event.{Scope}
use trail.Storage.Query.{ExplorerStore}
use trail.Explorer.Filters.{scope_filter}
use trail.Archive.{Library}
use trail.Explorer.{Request, Body, Response, Web, Config}
use trail.Explorer.Respond.{write_json, respond_error, send_content}
use trail.Explorer.Routes.{routes, routed, serve, find_route}
use trail.Explorer.Bodies.{Plain, ErrorKind, Silent, status_of, code_of}
use trail.Explorer.Cases.{dispatch_by}

-- An error has the status and the code of its kind, and a response 500 does not say its cause. No
-- body is the answer to OPTIONS. Any other body has the status 200.
abbrev pub Fits : ℕ → Body → Type 0
Fits status (Body.error code message) =
    (k : ErrorKind) × (status ≡ status_of k) × (code ≡ code_of k) × Silent k message
Fits status Body.no_body = status ≡ 204
Fits status _ = status ≡ 200

Plain-Fits :
    (store : ExplorerStore) (requested : Scope) (b : Body) → Plain store requested b → Fits 200 b
Plain-Fits store requested (Body.overview_body _) h = refl
Plain-Fits store requested (Body.activity_body _) h = refl
Plain-Fits store requested (Body.entity_body _) h = refl
Plain-Fits store requested (Body.page _ _ _) h = refl
Plain-Fits store requested (Body.archives_body _ _) h = refl
Plain-Fits store requested (Body.archive_body _) h = refl
Plain-Fits store requested (Body.chunk_body _ _ _) h = refl
Plain-Fits store requested (Body.restore_body _) h = refl
Plain-Fits store requested (Body.flow_body _) h = absurd h
Plain-Fits store requested (Body.execution_body _) h = absurd h
Plain-Fits store requested (Body.retries_body _) h = absurd h
Plain-Fits store requested (Body.event_body _) h = absurd h
Plain-Fits store requested (Body.content _) h = absurd h
Plain-Fits store requested (Body.error _ _) h = absurd h
Plain-Fits store requested Body.no_body h = absurd h

module _ (S : Stores) (lib : Library) (web : Web) (cfg : Config S lib) (r : Request) where
  -- A response that fits, or that of the multiplexer for a request that no route takes.
  abbrev pub Answered : ℕ → Body → Type 0
  Answered status body =
      Fits status body
      ⊎ ((find_route routes r ≡ none)
          × (status ≡ (web.unrouted r).status)
          × (body ≡ (web.unrouted r).body))

  AnsweredResponse : Response → Type 0
  AnsweredResponse response = Answered response.status response.body

  routed-Fits :
      (options : Bool) (s : S.State) → AnsweredResponse ((routed S lib web cfg r options s).1)
  unfolding routed AnsweredResponse write_json respond_error send_content
  routed-Fits true s = inl refl
  routed-Fits false s =
      dispatch_by S lib web cfg r AnsweredResponse (λ k message silent. inl (k, refl, refl, silent))
        (λ b p. inl (Plain-Fits cfg.store (scope_filter web r) b p)) (λ v e. inl refl)
        (λ v e. inl refl) (λ vs e. inl refl) (λ v e. inl refl)
        (λ limit ref headers stream. inl refl) (find_route routes r) s (λ e. inr (e, refl, refl))

  -- In every response, unless no route takes the request and the status and the body are those
  -- that the multiplexer gives: an error has the status and the code of one of six kinds, a
  -- response 500 has the message request failed whatever the cause, a response without a body has
  -- the status 204, and every other response the status 200.
  pub serve-Fits :
      (s : S.State)
      → Answered ((serve S lib web cfg r s).1.status) ((serve S lib web cfg r s).1.body)
  unfolding serve AnsweredResponse
  serve-Fits s = routed-Fits (text_eq r.method (codes "OPTIONS")) s
