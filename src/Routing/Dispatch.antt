-- ===== src/Routing/Dispatch.antt =====
-- `handle` of the route classes and `Router.app`, of starlette/routing.py.
--
-- An outcome is what the call comes to: an ASGI callable outside of the routing that is awaited
-- with a scope, or what the routing answers itself. Nested routers are followed.
pub mod Select
pub mod Laws
pub mod Redirect
use starlette.Prelude.{
  ℕ, suc, ◌-◌, Bool, true, false, not, ◌&&◌, Option, none, some, List, [], ◌∷◌, ◌++◌, length, take,
  contains, ◌==◌, nat_eq, if◌then◌else◌,
}
use starlette.Prelude.Text.{Str, codes, str_eq, before, rstrip, ends_with, join}
use starlette.Prelude.Dict.{Dict, or_else, lookup, insert_all, without}
use starlette.Prelude.Result.{
  Error, Result, ok, raise, key_error, type_error, http_exception, ◌>>=◌,
}
use starlette.Datastructures.Headers
use starlette.Datastructures.Headers.{RawHeaders}
use starlette.Datastructures.Url.{scope_url}
use starlette.Convertors.{Value, text}
use starlette.Routing.Path.{Compiled, match_parts, convert_groups}
use starlette.Routing.Routes.{
  RouteInfo, WebSocketRouteInfo, MountInfo, HostInfo, RouterInfo, BaseRoute, route, websocket_route,
  mount, host, Routes, nil, cons, App, request_response, websocket_session, callable, wrapped,
  router,
}
use starlette.Routing.Scope.{
  Kind, http, websocket, lifespan, Target, endpoint, application, Scope, ChildScope, get_route_path,
  route_path,
}
use starlette.Routing.Matches.{Match, no_match, partial, full, Matched, wrong_method, matches}

pub data Outcome (O : Type 0) : Type 0 where
  -- `await app(scope, receive, send)`
  called : App O → Scope O → Outcome O
  -- a `PlainTextResponse`: its status and the headers that it is given
  responded : ℕ → RawHeaders → Outcome O
  -- a `RedirectResponse` to a URL
  redirected : Str → Outcome O
  -- `WebSocketClose()`
  closed : Outcome O
  -- `Router.lifespan`
  lifespan_run : Scope O → Outcome O
  raised : Error → Outcome O
  -- a plain return, with nothing sent
  returned : Outcome O

module _ {O : Type 0} where
  with_roots : Option (Str × Str) → Scope O → Scope O
  with_roots none scope = scope
  with_roots (some (app_root, root)) scope = record scope {
    app_root_path = some app_root;
    root_path = root;
  }

  -- `scope.update(child_scope)`
  unfoldable pub updated : Scope O → Option (ChildScope O) → Scope O
  unfolding with_roots
  updated scope none = scope
  updated scope (some child) =
      with_roots child.roots
        (record scope { path_params = child.path_params; target = some child.target })

  -- `{"Allow": ", ".join(self.methods)}`; the order of a joined set is not fixed, and the list's is
  -- one of its orders
  pub allow_header : RouteInfo O → RawHeaders
  unfolding join
  allow_header r =
      (codes "Allow", join (codes ", ") (elim r.methods [ none ↦ [] | some ms ↦ ms ])) ∷ []

  -- `Route.handle`
  unfoldable pub route_handle : RouteInfo O → App O → Scope O → Outcome O
  unfolding wrong_method
  route_handle r app scope =
      if wrong_method r.methods scope.method
      then (if scope.in_app
          then raised (http_exception 405 (allow_header r))
          else responded 405 (allow_header r))
      else called app scope

  -- `Router.not_found`
  unfoldable pub not_found : Scope O → Outcome O
  not_found scope = elim scope.kind [
    | websocket ↦ closed
    | other ↦ if scope.in_app then raised (http_exception 404 []) else responded 404 []
  ]

  pub default_outcome : RouterInfo → Scope O → Outcome O
  unfolding not_found
  default_outcome info scope = elim info.default [
    | none ↦ not_found scope
    | some id ↦ called (callable id nil) scope
  ]

  -- the path that the redirect tries
  unfoldable pub toggled_slash : Scope O → Str
  unfolding ends_with rstrip route_path
  toggled_slash scope =
      if ends_with (codes "/") (route_path scope)
      then rstrip b'/' scope.path
      else scope.path ++ codes "/"

  -- whether some route matches, in part or in full
  unfoldable pub any_match : Routes O → Scope O → Result Bool
  unfolding matches
  any_match nil scope = ok false
  any_match (cons r rs) scope = elim (matches r scope) [
    | raise e ↦ raise e
    | ok (no_match, child) ↦ any_match rs scope
    | ok (partial, child) ↦ ok true
    | ok (full, child) ↦ ok true
  ]

  unfoldable pub redirect_scope : Scope O → Scope O
  unfolding toggled_slash
  redirect_scope scope = record scope { url = record (scope.url) { path = toggled_slash scope } }

  -- what `Router.app` does where no route matches
  unfoldable pub unmatched : RouterInfo → Routes O → Scope O → Outcome O
  unmatched info routes scope =
      let redirects : Bool = elim scope.kind [ http ↦ info.redirect_slashes | other ↦ false ] in
      if redirects && not (route_path scope == codes "/")
      then elim (any_match routes (redirect_scope scope)) [
        | raise e ↦ raised e
        | ok false ↦ default_outcome info scope
        | ok true ↦ elim (scope_url (redirect_scope scope).url) [
          | raise e ↦ raised e
          | ok url ↦ redirected url
        ]
      ]
      else default_outcome info scope

  -- `if "router" not in scope: scope["router"] = self`
  unfoldable pub with_router : RouterInfo → Routes O → Scope O → Scope O
  with_router info routes scope = record scope {
    router = or_else scope.router (some (router info routes));
  }

unfoldable mutual
  -- `await app(scope, receive, send)`
  pub run_app : {O : Type 0} → App O → Scope O → Outcome O
  run_app (request_response n) scope = called (request_response n) scope
  run_app (websocket_session n) scope = called (websocket_session n) scope
  run_app (callable n routes) scope = called (callable n routes) scope
  run_app (wrapped cls app) scope = called (wrapped cls app) scope
  run_app (router info routes) scope = elim scope.kind [
    | lifespan ↦ lifespan_run (with_router info routes scope)
    | other ↦ elim (dispatch routes (with_router info routes scope) none) [
      | some outcome ↦ outcome
      | none ↦ unmatched info routes (with_router info routes scope)
    ]
  ]

  -- The loop of `Router.app`. The outcome of the first route that matches in part is kept beside;
  -- it is the outcome if no later route matches in full.
  pub dispatch : {O : Type 0} → Routes O → Scope O → Option (Outcome O) → Option (Outcome O)
  dispatch nil scope kept = kept
  dispatch (cons r rs) scope kept = elim (matches r scope) [
    | raise e ↦ some (raised e)
    | ok (no_match, child) ↦ dispatch rs scope kept
    | ok (partial, child) ↦ dispatch rs scope (or_else kept (some (handle r (updated scope child))))
    | ok (full, child) ↦ some (handle r (updated scope child))
  ]

  -- `route.handle(scope, receive, send)`
  pub handle : {O : Type 0} → BaseRoute O → Scope O → Outcome O
  handle (route r app) scope = route_handle r app scope
  handle (websocket_route r app) scope = run_app app scope
  handle (mount m base app) scope = run_app app scope
  handle (host h app) scope = run_app app scope

-- `BaseRoute.__call__`, of a route that serves by itself
unfoldable pub call_route : {O : Type 0} → BaseRoute O → Scope O → Outcome O
unfolding handle matches updated
call_route r scope = elim (matches r scope) [
  | raise e ↦ raised e
  | ok (no_match, child) ↦ elim scope.kind [
    | http ↦ responded 404 []
    | websocket ↦ closed
    | lifespan ↦ returned
  ]
  | ok (partial, child) ↦ handle r (updated scope child)
  | ok (full, child) ↦ handle r (updated scope child)
]
