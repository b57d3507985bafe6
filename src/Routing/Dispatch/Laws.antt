-- ===== src/Routing/Dispatch/Laws.antt =====
-- What a route handles: the method check, and the path below a mount.
use starlette.Prelude.{
  ◌-◌, ◌≡◌, sym, ap, ◌∙◌, Option, none, some, ◌∷◌, ◌++◌, append_assoc, arith, length, take,
  length-append, take-length_append, if◌then◌else◌,
}
use starlette.Prelude.Text.{Str, str_eq}
use starlette.Prelude.Dict.{Dict}
use starlette.Prelude.Result.{ok, http_exception}
use starlette.Convertors.{Value}
use starlette.Routing.Routes.{RouteInfo, App}
use starlette.Routing.Scope.{Scope, ChildScope, route_path, get_route_path}
use starlette.Routing.Scope.Laws.{get_route_path-append}
use starlette.Routing.Matches.{Match, no_match, partial, full, route_matches, mount_child}
use starlette.Routing.Dispatch.{called, responded, raised, updated, route_handle, allow_header}

take-append_left : (xs ys : Str) → take (length (xs ++ ys) - length ys) (xs ++ ys) ≡ xs
take-append_left xs ys =
    let e : length (xs ++ ys) - length ys ≡ length xs = omega (arith, length-append xs ys) in
    rw e (take-length_append xs ys)

module _ {O : Type 0} where
  updated_unchanged :
      (scope : Scope O) (child : Option (ChildScope O))
      → ((updated scope child).method ≡ scope.method)
        × ((updated scope child).in_app ≡ scope.in_app)
        × ((updated scope child).path ≡ scope.path)
  unfolding updated
  updated_unchanged scope child = ground arith

  -- what `handle` has to do behind each answer of `matches`
  abbrev pub Agrees : RouteInfo O → App O → Scope O → Match → Option (ChildScope O) → Type 0
  Agrees r app scope no_match child = child ≡ none
  Agrees r app scope partial child = route_handle r app (updated scope child) ≡ (
      if scope.in_app
      then raised (http_exception 405 (allow_header r))
      else responded 405 (allow_header r))
  Agrees r app scope full child =
      route_handle r app (updated scope child) ≡ called app (updated scope child)

  -- Where `Route.matches` says full, `handle` calls the endpoint's application and answers no 405.
  -- Where it says partial, `handle` answers 405 with the allowed methods, as an exception inside of
  -- an application and as a response elsewhere. Where it says none, it hands over no child scope.
  pub route_handle-matches :
      (r : RouteInfo O) (app : App O) (scope : Scope O) (m : Match) (child : Option (ChildScope O))
      → route_matches r scope ≡ ok (m, child)
      → Agrees r app scope m child
  unfolding route_matches route_handle
  route_handle-matches r app scope no_match child e = ground arith
  route_handle-matches r app scope partial child e = ground (arith, updated_unchanged scope child)
  route_handle-matches r app scope full child e = ground (arith, updated_unchanged scope child)

  -- Below a mount that took `matched` of the path, routes see what is left of it, the root grows by
  -- `matched`, and the path is still the root followed by what routes see.
  pub mount_child-route_path :
      (app : App O) (scope : Scope O) (matched rest : Str) (params : Dict Str (Value O))
      → scope.path ≡ scope.root_path ++ (matched ++ b'/' ∷ rest)
      → route_path scope ≡ matched ++ b'/' ∷ rest
      → (route_path (updated scope (some (mount_child app scope (b'/' ∷ rest) params)))
          ≡ b'/' ∷ rest)
        × ((updated scope (some (mount_child app scope (b'/' ∷ rest) params))).root_path
            ≡ scope.root_path ++ matched)
        × (scope.path ≡ (scope.root_path ++ matched) ++ b'/' ∷ rest)
  unfolding updated mount_child route_path
  mount_child-route_path app scope matched rest params whole seen =
      let whole' : scope.path ≡ (scope.root_path ++ matched) ++ b'/' ∷ rest =
        whole ∙ sym (append_assoc scope.root_path matched (b'/' ∷ rest)) in
      let cut : take (length (get_route_path scope.path scope.root_path) - length (b'/' ∷ rest))
            (get_route_path scope.path scope.root_path)
          ≡ matched =
        rw seen (take-append_left matched (b'/' ∷ rest)) in
      (
        rw (cut, whole') (get_route_path-append (scope.root_path ++ matched) rest),
        ap (λ s. scope.root_path ++ s) cut,
        whole',
      )
