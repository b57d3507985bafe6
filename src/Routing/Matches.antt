-- ===== src/Routing/Matches.antt =====
-- `matches` of the route classes of starlette/routing.py.
use starlette.Prelude.{
  ℕ, ◌-◌, Bool, false, not, Option, none, some, List, [], ◌∷◌, ◌++◌, length, take, contains, nat_eq,
  if◌then◌else◌,
}
use starlette.Prelude.Text.{Str, codes, str_eq, before}
use starlette.Prelude.Dict.{Dict, lookup, insert_all, without}
use starlette.Prelude.Result.{Result, ok, raise, key_error, type_error, ◌>>=◌}
use starlette.Datastructures.Headers
use starlette.Datastructures.Headers.{RawHeaders}
use starlette.Convertors.{Value, text}
use starlette.Routing.Path.{Compiled, match_parts, convert_groups}
use starlette.Routing.Routes.{
  RouteInfo, WebSocketRouteInfo, MountInfo, HostInfo, BaseRoute, route, websocket_route, mount,
  host, App,
}
use starlette.Routing.Scope.{
  http, websocket, lifespan, endpoint, application, Scope, ChildScope, route_path,
}

pub data Match : Type 0 where
  no_match partial full : Match

-- what `matches` returns: the child scope is `{}` where nothing matches
abbrev pub Matched : Type 0 → Type 0
Matched O = Match × Option (ChildScope O)

-- `if self.methods and scope["method"] not in self.methods`
unfoldable pub wrong_method : Option (List Str) → Str → Bool
wrong_method none method = false
wrong_method (some []) method = false
wrong_method (some (m ∷ ms)) method = not (contains (m ∷ ms) method)

-- `headers.get("host", "").split(":")[0]`
unfoldable pub host_name : RawHeaders → Str
unfolding before
host_name headers = elim (Headers.find (codes "host") headers) [
  | none ↦ []
  | some value ↦ before b':' value
]

module _ {O : Type 0} where
  -- `dict.get` of the result of `match`, converted; `none` where the expression does not match
  unfoldable pub match_params : Compiled O → Str → Result (Option (Dict Str (Value O)))
  unfolding match_parts convert_groups
  match_params compiled s = elim (match_parts compiled.regex s) [
    | none ↦ ok none
    | some groups ↦ do params ← convert_groups compiled.convertors groups; ok (some params)
  ]

  -- `dict(scope.get("path_params", {}))`, updated
  merged : Scope O → Dict Str (Value O) → Dict Str (Value O)
  unfolding insert_all
  merged scope params = insert_all params scope.path_params

  plain_child : ℕ → Scope O → Dict Str (Value O) → ChildScope O
  unfolding merged
  plain_child id scope params = record {
    target = endpoint id;
    path_params = merged scope params;
    roots = none;
  }

  unfoldable pub route_matches : RouteInfo O → Scope O → Result (Matched O)
  unfolding plain_child wrong_method route_path
  route_matches r scope = elim scope.kind [
    | http ↦ do
      found ← match_params r.compiled (route_path scope)
      ok (elim found [
        | none ↦ (no_match, none)
        | some params ↦ (
          (if wrong_method r.methods scope.method then partial else full),
          some (plain_child r.endpoint.id scope params),
        )
      ])
    | websocket ↦ ok (no_match, none)
    | lifespan ↦ ok (no_match, none)
  ]

  unfoldable pub websocket_route_matches : WebSocketRouteInfo O → Scope O → Result (Matched O)
  unfolding plain_child route_path
  websocket_route_matches r scope = elim scope.kind [
    | websocket ↦ do
      found ← match_params r.compiled (route_path scope)
      ok (elim found [
        | none ↦ (no_match, none)
        | some params ↦ (full, some (plain_child r.endpoint.id scope params))
      ])
    | http ↦ ok (no_match, none)
    | lifespan ↦ ok (no_match, none)
  ]

  -- `"/" + matched_params.pop("path")`
  remaining_path : Dict Str (Value O) → Result Str
  unfolding lookup
  remaining_path params = elim (lookup (codes "path") params) [
    | none ↦ raise key_error
    | some (text s) ↦ ok (codes "/" ++ s)
    | some v ↦ raise type_error
  ]

  unfoldable pub mount_child : App O → Scope O → Str → Dict Str (Value O) → ChildScope O
  unfolding merged without
  mount_child app scope remaining params =
      let matched_path = take (length (route_path scope) - length remaining) (route_path scope) in
      record {
        target = application app;
        path_params = merged scope (without (codes "path") params);
        roots = some (
          elim scope.app_root_path [ none ↦ scope.root_path | some root ↦ root ],
          scope.root_path ++ matched_path,
        );
      }

  mount_found : App O → Scope O → Option (Dict Str (Value O)) → Result (Matched O)
  unfolding remaining_path mount_child
  mount_found app scope none = ok (no_match, none)
  mount_found app scope (some params) = do
    remaining ← remaining_path params
    ok (full, some (mount_child app scope remaining params))

  unfoldable pub mount_matches : MountInfo O → App O → Scope O → Result (Matched O)
  unfolding mount_found route_path
  mount_matches m app scope = elim scope.kind [
    | lifespan ↦ ok (no_match, none)
    | other ↦ do found ← match_params m.compiled (route_path scope); mount_found app scope found
  ]

  unfoldable pub host_matches : HostInfo O → App O → Scope O → Result (Matched O)
  unfolding host_name merged
  host_matches h app scope = elim scope.kind [
    | lifespan ↦ ok (no_match, none)
    | other ↦ do
      found ← match_params h.compiled (host_name scope.headers)
      ok (elim found [
        | none ↦ (no_match, none)
        | some params ↦ (
          full,
          some (record {
            target = application app;
            path_params = merged scope params;
            roots = none;
          }),
        )
      ])
  ]

  -- `route.matches(scope)`
  unfoldable pub matches : BaseRoute O → Scope O → Result (Matched O)
  unfolding route_matches websocket_route_matches mount_matches host_matches
  matches (route r app) scope = route_matches r scope
  matches (websocket_route r app) scope = websocket_route_matches r scope
  matches (mount m base app) scope = mount_matches m app scope
  matches (host h app) scope = host_matches h app scope
