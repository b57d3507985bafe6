-- ===== src/Routing/Routes/Build.antt =====
-- `__init__` of `Route`, `WebSocketRoute`, `Mount` and `Host`.
use mathlib.Core.List.{reverse}
use starlette.Prelude.{
  ℕ, Bool, true, false, not, ◌||◌, Option, none, some, List, [], ◌∷◌, ◌++◌, map, contains, ◌==◌,
  if◌then◌else◌,
}
use starlette.Prelude.Text.{Str, codes, str_eq, starts_with, rstrip, upper}
use starlette.Prelude.Dict.{Dict}
use starlette.Prelude.Result.{Result, ok, raise, assertion_error, ensure, ◌>>=◌, ◌>>◌}
use starlette.Convertors.{Convertor}
use starlette.Routing.Path.{compile_path}
use starlette.Routing.Routes.{
  Endpoint, RouterInfo, BaseRoute, route, websocket_route, mount, host, Routes, nil, App,
  request_response, websocket_session, callable, wrapped, router,
}

module _ {O : Type 0} where
  wrap_each : List ℕ → App O → App O
  wrap_each [] app = app
  wrap_each (cls ∷ middleware) app = wrap_each middleware (wrapped cls app)

  -- `for cls, args, kwargs in reversed(middleware): app = cls(app, *args, **kwargs)`
  unfoldable pub wrap_all : List ℕ → App O → App O
  unfolding wrap_each
  wrap_all middleware app = wrap_each (reverse middleware) app

-- `{method.upper() for method in methods}`, with `HEAD` where `GET` is there
unfoldable pub method_set : List Str → List Str
unfolding upper
method_set methods =
    let set = map upper methods in if contains set (codes "GET") then codes "HEAD" ∷ set else set

-- the `methods` argument with the default of a function
methods_or_get : Bool → Option (List Str) → Option (List Str)
methods_or_get true none = some (codes "GET" ∷ [])
methods_or_get false none = none
methods_or_get is_function (some methods) = some methods

module _ {O : Type 0} (types : Dict Str (Convertor O)) where
  unfoldable pub init_route :
      Str → Endpoint → Option (List Str) → Option Str → List ℕ → Result (BaseRoute O)
  unfolding methods_or_get method_set wrap_all compile_path starts_with
  init_route path endpoint methods name middleware = do
    ensure (starts_with (codes "/") path) assertion_error
    let app =
        if endpoint.is_function then request_response endpoint.id else callable endpoint.id nil
    compiled ← compile_path types path
    ok (
        route
          (record {
            path = path;
            endpoint = endpoint;
            name = elim name [ none ↦ endpoint.name | some n ↦ n ];
            methods = elim (methods_or_get endpoint.is_function methods) [
              | none ↦ none
              | some ms ↦ some (method_set ms)
            ];
            compiled = compiled;
          })
          (wrap_all middleware app))

  unfoldable pub init_websocket_route : Str → Endpoint → Option Str → List ℕ → Result (BaseRoute O)
  unfolding wrap_all compile_path starts_with
  init_websocket_route path endpoint name middleware = do
    ensure (starts_with (codes "/") path) assertion_error
    let app =
        if endpoint.is_function then websocket_session endpoint.id else callable endpoint.id nil
    compiled ← compile_path types path
    ok (
        websocket_route
          (record {
            path = path;
            endpoint = endpoint;
            name = elim name [ none ↦ endpoint.name | some n ↦ n ];
            compiled = compiled;
          })
          (wrap_all middleware app))

  -- `Router(routes=routes)`
  default_router : RouterInfo
  default_router = record { redirect_slashes = true; default = none }

  base_app : Option (App O) → Option (Routes O) → Result (App O)
  unfolding default_router
  base_app (some app) routes = ok app
  base_app none (some routes) = ok (router default_router routes)
  base_app none none = raise assertion_error

  unfoldable pub init_mount :
      Str → Option (App O) → Option (Routes O) → Option Str → List ℕ → Result (BaseRoute O)
  unfolding base_app wrap_all compile_path starts_with rstrip
  init_mount path app routes name middleware = do
    ensure (path == [] || starts_with (codes "/") path) assertion_error
    base ← base_app app routes
    let own_path = rstrip b'/' path
    compiled ← compile_path types (own_path ++ codes "/{path:path}")
    ok (
        mount (record { path = own_path; name = name; compiled = compiled }) base
          (wrap_all middleware base))

  unfoldable pub init_host : Str → App O → Option Str → Result (BaseRoute O)
  unfolding compile_path starts_with
  init_host pattern app name = do
    ensure (not (starts_with (codes "/") pattern)) assertion_error
    compiled ← compile_path types pattern
    ok (host (record { host = pattern; name = name; compiled = compiled }) app)
