-- ===== src/Routing/Reverse.antt =====
-- `url_path_for` of the route classes and of `Router`, in starlette/routing.py.
pub mod Laws
use starlette.Prelude.{
  ℕ, ◌+◌, Bool, true, false, not, ◌&&◌, ◌||◌, Option, none, some, List, [], ◌∷◌, ◌++◌, drop, length,
  ◌==◌, nat_eq, if◌then◌else◌,
}
use starlette.Prelude.Text.{Str, codes, str_eq, starts_with, lstrip, rstrip}
use starlette.Prelude.Dict.{Dict, lookup, insert, without, is_some}
use starlette.Prelude.Result.{
  Error, Result, ok, raise, no_match_found, assertion_error, type_error, ensure, ◌>>=◌, ◌>>◌,
}
use starlette.Convertors.{Value, text, Objects, str_of}
use starlette.Routing.Path.{Compiled, replace_params}
use starlette.Routing.Routes.{
  RouteInfo, WebSocketRouteInfo, MountInfo, HostInfo, BaseRoute, route, websocket_route, mount,
  host, Routes, nil, cons, App, request_response, websocket_session, callable, wrapped, router,
}

-- `URLPath`: its text, its protocol and its host
pub record UrlPath : Type 0 where
  pub path : Str
  pub protocol : Str
  pub host : Str

-- every key of the first dictionary is in the second one
unfoldable pub keys_in : {A B : Type 0} → Dict Str A → Dict Str B → Bool
unfolding lookup
keys_in [] e = true
keys_in ((k, v) ∷ d) e = is_some (lookup k e) && keys_in d e

pub is_empty : {A : Type 0} → List A → Bool
is_empty [] = true
is_empty (x ∷ xs) = false

-- what stands behind `<name>:`, none where the name does not begin so
unfoldable pub remaining_name : Option Str → Str → Option Str
unfolding starts_with
remaining_name none name = some name
remaining_name (some own) name =
    if starts_with (own ++ codes ":") name then some (drop (length own + 1) name) else none

-- `self.name is not None and name == self.name`
pub is_named : Option Str → Str → Bool
is_named none name = false
is_named (some own) name = name == own

module _ {O : Type 0} where
  -- `url_path_for` of `Route` and of `WebSocketRoute`
  unfoldable pub endpoint_url : Str → Compiled O → Str → Str → Dict Str (Value O) → Result UrlPath
  unfolding keys_in replace_params is_empty
  endpoint_url own compiled protocol name params =
      if not (name == own)
        || not (keys_in params compiled.convertors && keys_in compiled.convertors params)
      then raise no_match_found
      else (do
        replaced ← replace_params compiled.format compiled.convertors params
        ensure (is_empty replaced.1) assertion_error
        ok (record { path = replaced.0; protocol = protocol; host = [] }))

  -- the result of `replace_params`, if no parameter is left
  pub if_none_left : Str × Dict Str (Value O) → UrlPath → Result UrlPath
  unfolding is_empty
  if_none_left (path, left) url = if is_empty left then ok url else raise no_match_found

  -- the branch of `Mount` for its own name
  pub mount_url : Compiled O → Value O → Dict Str (Value O) → Result UrlPath
  unfolding replace_params insert if_none_left
  mount_url compiled (text path) params = do
    replaced ←
        replace_params compiled.format compiled.convertors
          (insert (codes "path") (text (lstrip b'/' path)) params)
    if_none_left replaced (record { path = replaced.0; protocol = []; host = [] })
  mount_url compiled v params = raise type_error

  -- the branch of `Host` for its own name; `URLPath` makes a text of any path
  pub host_url : Objects O → Compiled O → Value O → Dict Str (Value O) → Result UrlPath
  unfolding replace_params without if_none_left str_of
  host_url lib compiled path params = do
    replaced ← replace_params compiled.format compiled.convertors (without (codes "path") params)
    if_none_left replaced (record { path = str_of lib path; protocol = []; host = replaced.0 })

  -- `remaining_params["path"] = path_kwarg`
  pub with_path : Option (Value O) → Dict Str (Value O) → Dict Str (Value O)
  unfolding insert
  with_path none params = params
  with_path (some v) params = insert (codes "path") v params

  -- the prefix of a mount and the parameters for its routes
  pub mount_prefix : Compiled O → Dict Str (Value O) → Result (Str × Dict Str (Value O))
  unfolding replace_params insert with_path lookup
  mount_prefix compiled params = do
    replaced ←
        replace_params compiled.format compiled.convertors (insert (codes "path") (text []) params)
    ok (rstrip b'/' replaced.0, with_path (lookup (codes "path") params) replaced.1)

-- a mount and a host put what they stand for before the URL of a route
pub under_prefix : Str → UrlPath → UrlPath
under_prefix prefix url = record { path = prefix ++ url.path; protocol = url.protocol; host = [] }

pub under_host : Str → UrlPath → UrlPath
under_host name url = record { path = url.path; protocol = url.protocol; host = name }

pub map_ok : (UrlPath → UrlPath) → Result UrlPath → Result UrlPath
map_ok f (ok url) = ok (f url)
map_ok f (raise e) = raise e

-- `except NoMatchFound`
unfoldable pub or_next : Result UrlPath → Result UrlPath → Result UrlPath
or_next (raise no_match_found) next = next
or_next result next = result

unfoldable mutual
  -- `route.url_path_for(name, **path_params)`
  pub url_path_for :
      {O : Type 0} → Objects O → BaseRoute O → Str → Dict Str (Value O) → Result UrlPath
  url_path_for lib (route r app) name params =
      endpoint_url r.name r.compiled (codes "http") name params
  url_path_for lib (websocket_route r app) name params =
      endpoint_url r.name r.compiled (codes "websocket") name params
  url_path_for lib (mount m base app) name params =
      elim (is_named m.name name && is_some (lookup (codes "path") params)) [
        | true ↦ elim (lookup (codes "path") params) [
          | some v ↦ mount_url m.compiled v params
          | none ↦ raise no_match_found
        ]
        | false ↦ elim (remaining_name m.name name) [
          | none ↦ raise no_match_found
          | some rest ↦ elim (mount_prefix m.compiled params) [
            | raise e ↦ raise e
            | ok (prefix, left) ↦ map_ok (under_prefix prefix) (app_url lib base rest left)
          ]
        ]
      ]
  url_path_for lib (host h app) name params =
      elim (is_named h.name name && is_some (lookup (codes "path") params)) [
        | true ↦ elim (lookup (codes "path") params) [
          | some v ↦ host_url lib h.compiled v params
          | none ↦ raise no_match_found
        ]
        | false ↦ elim (remaining_name h.name name) [
          | none ↦ raise no_match_found
          | some rest ↦ elim (replace_params h.compiled.format h.compiled.convertors params) [
            | raise e ↦ raise e
            | ok (name, left) ↦ map_ok (under_host name) (app_url lib app rest left)
          ]
        ]
      ]

  -- the loop over `self.routes`, which is that of `Router.url_path_for`
  pub routes_url : {O : Type 0} → Objects O → Routes O → Str → Dict Str (Value O) → Result UrlPath
  routes_url lib nil name params = raise no_match_found
  routes_url lib (cons r rs) name params =
      or_next (url_path_for lib r name params) (routes_url lib rs name params)

  -- the routes of a mounted application
  pub app_url : {O : Type 0} → Objects O → App O → Str → Dict Str (Value O) → Result UrlPath
  app_url lib (callable n routes) name params = routes_url lib routes name params
  app_url lib (router info routes) name params = routes_url lib routes name params
  app_url lib (request_response n) name params = raise no_match_found
  app_url lib (websocket_session n) name params = raise no_match_found
  app_url lib (wrapped cls app) name params = raise no_match_found
