-- ===== src/Explorer/Scope.antt =====
-- explorerapi/server.go: the scope that a request asks for, and the resources that are shown.
use trail.Prelude.{
  ◌≡◌, refl, ◌⊎◌, inl, inr, none, Bool, true, false, List, [], ◌∷◌, Text, All, codes, is_empty,
  text_eq, text_eq_iff, arith,
}
use trail.Event.{Scope, is_zero_scope}
use trail.Payload.Store.{Stores}
use trail.Storage.Query.{ExecutionSummary, ExplorerStore}
use trail.Archive.{Library}
use trail.Explorer.{Request, Body, Response, Web, Config}
use trail.Explorer.Filters.{scope_filter, scope_allowed}
use trail.Explorer.Handlers.{scopes_allowed}
use trail.Explorer.Respond.{write_json, respond_error, send_content}
use trail.Explorer.Routes.{routes, routed, serve, find_route}
use trail.Explorer.Bodies.{Plain, Listed}
use trail.Explorer.Cases.{dispatch_by}

-- No scope is asked for, or this one.
abbrev pub Within : Scope → Scope → Type 0
Within requested actual =
    ((requested.type ≡ []) × (requested.id ≡ []))
    ⊎ ((requested.type ≡ actual.type) × (requested.id ≡ actual.id))

empty_iff : (t : Text) → is_empty t ≡ true → t ≡ []
empty_iff [] h = refl
empty_iff (c ∷ t) h = absurd (cc)

pub scope_allowed-Within :
    (requested actual : Scope) → scope_allowed requested actual ≡ true → Within requested actual
unfolding scope_allowed is_zero_scope
scope_allowed-Within requested actual h = ground (
  arith,
  h,
  empty_iff requested.type,
  empty_iff requested.id,
  text_eq_iff requested.type actual.type,
  text_eq_iff requested.id actual.id,
)

scopes_allowed-Within :
    (requested : Scope) (executions : List ExecutionSummary)
    → scopes_allowed requested executions ≡ true
    → All (λ (e : ExecutionSummary). Within requested e.scope) executions
unfolding scopes_allowed
scopes_allowed-Within requested [] h = tt
scopes_allowed-Within requested (e ∷ executions) h = (
  scope_allowed-Within requested e.scope (ground (arith, h)),
  scopes_allowed-Within requested executions (ground (arith, h)),
)

-- The flow, the execution, the retries or the event of a body are of the scope; an entity, an
-- overview and the items of a page are what the store answered for the scope.
abbrev pub InScope : ExplorerStore → Scope → Body → Type 0
InScope store requested (Body.flow_body v) = Within requested v.summary.scope
InScope store requested (Body.execution_body v) = Within requested v.scope
InScope store requested (Body.retries_body vs) =
    All (λ (e : ExecutionSummary). Within requested e.scope) vs
InScope store requested (Body.event_body v) = Within requested v.scope
InScope store requested (Body.overview_body v) = Plain store requested (Body.overview_body v)
InScope store requested (Body.activity_body v) = Plain store requested (Body.activity_body v)
InScope store requested (Body.entity_body v) = Plain store requested (Body.entity_body v)
InScope store requested (Body.page items _ _) = Listed store requested items
InScope store requested (Body.archives_body _ _) = Unit
InScope store requested (Body.archive_body _) = Unit
InScope store requested (Body.chunk_body _ _ _) = Unit
InScope store requested (Body.restore_body _) = Unit
InScope store requested (Body.content _) = Unit
InScope store requested (Body.error _ _) = Unit
InScope store requested Body.no_body = Unit

Plain-InScope :
    (store : ExplorerStore) (requested : Scope) (b : Body)
    → Plain store requested b
    → InScope store requested b
Plain-InScope store requested (Body.overview_body _) h = h
Plain-InScope store requested (Body.activity_body _) h = h
Plain-InScope store requested (Body.entity_body _) h = h
Plain-InScope store requested (Body.page _ _ _) h = h
Plain-InScope store requested (Body.archives_body _ _) h = tt
Plain-InScope store requested (Body.archive_body _) h = tt
Plain-InScope store requested (Body.chunk_body _ _ _) h = tt
Plain-InScope store requested (Body.restore_body _) h = tt
Plain-InScope store requested (Body.flow_body _) h = absurd h
Plain-InScope store requested (Body.execution_body _) h = absurd h
Plain-InScope store requested (Body.retries_body _) h = absurd h
Plain-InScope store requested (Body.event_body _) h = absurd h
Plain-InScope store requested (Body.content _) h = absurd h
Plain-InScope store requested (Body.error _ _) h = absurd h
Plain-InScope store requested Body.no_body h = absurd h

module _ (S : Stores) (lib : Library) (web : Web) (cfg : Config S lib) (r : Request) where
  abbrev requested : Scope
  requested = scope_filter web r

  -- A body of the scope, or that of the multiplexer for a request that no route takes.
  abbrev pub Shown : Body → Type 0
  Shown body =
      InScope cfg.store requested body
      ⊎ ((find_route routes r ≡ none) × (body ≡ (web.unrouted r).body))

  ShownInScope : Response → Type 0
  ShownInScope response = Shown response.body

  routed-InScope :
      (options : Bool) (s : S.State) → ShownInScope ((routed S lib web cfg r options s).1)
  unfolding routed ShownInScope write_json respond_error send_content
  routed-InScope true s = inl tt
  routed-InScope false s =
      dispatch_by S lib web cfg r ShownInScope (λ k message _. inl tt)
        (λ b p. inl (Plain-InScope cfg.store requested b p))
        (λ v e. inl (scope_allowed-Within requested v.summary.scope e))
        (λ v e. inl (scope_allowed-Within requested v.scope e))
        (λ vs e. inl (scopes_allowed-Within requested vs e))
        (λ v e. inl (scope_allowed-Within requested v.scope e)) (λ limit ref headers stream. inl tt)
        (find_route routes r) s (λ e. inr (e, refl))

  -- For every answer of the store, in every response, unless no route takes the request and the
  -- body is what the multiplexer gives: a single flow, execution or event and every execution of a
  -- retry chain lie in the scope that the request asks for, if it asks for one, and a page, an
  -- entity and an overview are what the store answered when it was asked for that scope. Archives,
  -- which have no scope, and the bytes of payloads are left out.
  pub serve-InScope : (s : S.State) → Shown ((serve S lib web cfg r s).1.body)
  unfolding serve ShownInScope
  serve-InScope s = routed-InScope (text_eq r.method (codes "OPTIONS")) s
