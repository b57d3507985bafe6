-- ===== src/Routing/Dispatch/Redirect.antt =====
-- When `Router.app` of starlette/routing.py answers with a redirect.
use starlette.Prelude.{
  ◌≡◌, refl, sym, ap, ◌∙◌, true, false, Option, none, some, ◌∷◌, ◌++◌, arith, ◌==◌, inl, inr, ◌⊎◌,
  ◌↔◌, [], Bool-cases,
}
use starlette.Prelude.Text.{Str, codes, str_eq, ends_with, rstrip}
use starlette.Prelude.Result.{Result, ok, raise}
use starlette.Datastructures.Url.{scope_url}
use starlette.Routing.Routes.{Routes, nil, cons, RouterInfo, router}
use starlette.Routing.Scope.{Kind, http, websocket, lifespan, Scope, route_path}
use starlette.Routing.Matches.{no_match, partial, full, Matched, matches}
use starlette.Routing.Dispatch.{
  Outcome, redirected, updated, any_match, redirect_scope, unmatched, toggled_slash, with_router,
  run_app, dispatch, handle, not_found, default_outcome,
}

module _ {O : Type 0} where
  dispatch-some :
      (rs : Routes O) (scope : Scope O) (o : Outcome O) → dispatch rs scope (some o) ≡ none → ⊥
  unfolding dispatch
  dispatch-some nil scope o e = cc
  dispatch-some (cons r rs) scope o e = ground (arith, dispatch-some rs scope o)

  -- The loop over the routes ends with nothing to handle exactly when no route matches.
  pub dispatch-none :
      (rs : Routes O) (scope : Scope O)
      → dispatch rs scope none ≡ none
      → any_match rs scope ≡ ok false
  unfolding dispatch any_match
  dispatch-none nil scope e = refl
  dispatch-none (cons r rs) scope e = by_match (matches r scope) refl (dispatch-none rs scope)
    where
      by_match :
          (found : Result (Matched O))
          → matches r scope ≡ found
          → (dispatch rs scope none ≡ none → any_match rs scope ≡ ok false)
          → any_match (cons r rs) scope ≡ ok false
      by_match (raise x) h ih = ground arith
      by_match (ok (no_match, child)) h ih = ground arith
      by_match (ok (partial, child)) h ih =
          ground (arith, dispatch-some rs scope (handle r (updated scope child)))
      by_match (ok (full, child)) h ih = ground arith

  dispatch-any_match :
      (rs : Routes O) (scope : Scope O)
      → any_match rs scope ≡ ok false
      → dispatch rs scope none ≡ none
  unfolding dispatch any_match
  dispatch-any_match nil scope e = refl
  dispatch-any_match (cons r rs) scope e =
      by_match (matches r scope) refl (dispatch-any_match rs scope)
    where
      by_match :
          (found : Result (Matched O))
          → matches r scope ≡ found
          → (any_match rs scope ≡ ok false → dispatch rs scope none ≡ none)
          → dispatch (cons r rs) scope none ≡ none
      by_match (raise x) h ih = ground arith
      by_match (ok (no_match, child)) h ih = ground arith
      by_match (ok (partial, child)) h ih = ground arith
      by_match (ok (full, child)) h ih = ground arith

  -- `path` is the path of the scope with a slash behind it, where what routes see of it does not end
  -- with one, and else without the slashes at its end.
  abbrev pub IsToggled : Scope O → Str → Type 0
  IsToggled scope path =
      (ends_with (codes "/") (route_path scope) ≡ false) × (path ≡ scope.path ++ b'/' ∷ [])
      ⊎ (ends_with (codes "/") (route_path scope) ≡ true) × (path ≡ rstrip b'/' scope.path)

  abbrev pub at_path : Scope O → Str → Scope O
  at_path scope path = record scope { url = record (scope.url) { path = path } }

  toggled_slash-IsToggled : (scope : Scope O) → IsToggled scope (toggled_slash scope)
  unfolding toggled_slash
  toggled_slash-IsToggled scope = elim (Bool-cases (ends_with (codes "/") (route_path scope))) [
    | inl slashed ↦ inr (slashed, rw slashed refl)
    | inr plain ↦ inl (plain, rw plain refl)
  ]

  IsToggled-toggled_slash :
      (scope : Scope O) (path : Str) → IsToggled scope path → path ≡ toggled_slash scope
  unfolding toggled_slash
  IsToggled-toggled_slash scope path (inl (plain, e)) = e ∙ rw plain refl
  IsToggled-toggled_slash scope path (inr (slashed, e)) = e ∙ rw slashed refl

  unmatched-redirected :
      (info : RouterInfo) (rs : Routes O) (scope : Scope O) (url : Str)
      → unmatched info rs scope ≡ redirected url
      → (scope.kind ≡ http)
        × (info.redirect_slashes ≡ true)
        × ((route_path scope == codes "/") ≡ false)
        × (any_match rs (redirect_scope scope) ≡ ok true)
        × (scope_url (redirect_scope scope).url ≡ ok url)
  unfolding unmatched default_outcome not_found
  unmatched-redirected info rs scope url e = ground arith

  -- what the second answer of a router needs
  abbrev pub IsRedirected : RouterInfo → Routes O → Scope O → Str → Type 0
  IsRedirected info rs scope url =
      (path : Str) × IsToggled scope path
      × (scope.kind ≡ http)
      × (info.redirect_slashes ≡ true)
      × ((route_path scope == codes "/") ≡ false)
      × (any_match rs (with_router info rs scope) ≡ ok false)
      × (any_match rs (at_path (with_router info rs scope) path) ≡ ok true)
      × (scope_url (record (scope.url) { path = path }) ≡ ok url)

  redirected_after :
      (info : RouterInfo) (rs : Routes O) (scope : Scope O) (url : Str)
      → scope.kind ≡ http
      → dispatch rs (with_router info rs scope) none ≡ none
      → unmatched info rs (with_router info rs scope) ≡ redirected url
      → IsRedirected info rs scope url
  unfolding with_router redirect_scope route_path
  redirected_after info rs scope url h d e =
      let (k, slashes, root, some_match, target) =
        unmatched-redirected info rs (with_router info rs scope) url e in
      (
        toggled_slash (with_router info rs scope),
        toggled_slash-IsToggled (with_router info rs scope),
        h,
        slashes,
        root,
        dispatch-none rs (with_router info rs scope) d,
        some_match,
        target,
      )

  IsRedirected-redirected :
      (info : RouterInfo) (rs : Routes O) (scope : Scope O) (url : Str)
      → IsRedirected info rs scope url
      → run_app (router info rs) scope ≡ redirected url
  unfolding run_app unmatched with_router redirect_scope route_path
  IsRedirected-redirected info rs scope url (path, t, k, slashes, root, no_match_here, m, target) =
      let same : path ≡ toggled_slash (with_router info rs scope) =
        IsToggled-toggled_slash (with_router info rs scope) path t in
      let m' : any_match rs (redirect_scope (with_router info rs scope)) ≡ ok true =
        ap (λ p. any_match rs (at_path (with_router info rs scope) p)) (sym same) ∙ m in
      let target' : scope_url (redirect_scope (with_router info rs scope)).url ≡ ok url =
        ap (λ p. scope_url (record (scope.url) { path = p })) (sym same) ∙ target in
      ground (
        arith,
        k,
        slashes,
        root,
        m',
        target',
        dispatch-any_match rs (with_router info rs scope) no_match_here,
      )

  -- A router answers a request or a web socket with a redirect exactly if a route of it does, or if
  -- the request is an HTTP request, the router has redirects on, what routes see of the path is not
  -- the root, no route matches, and some route matches with another path, to whose URL the redirect
  -- goes: the path with a slash behind it, where what routes see of it ends with none, and else the
  -- path without any slashes at its end.
  pub run_app-redirected :
      (info : RouterInfo) (rs : Routes O) (scope : Scope O) (url : Str)
      → run_app (router info rs) scope ≡ redirected url ↔ (
          ((scope.kind ≡ http) ⊎ (scope.kind ≡ websocket))
            × (dispatch rs (with_router info rs scope) none ≡ some (redirected url))
          ⊎ IsRedirected info rs scope url)
  unfolding run_app with_router route_path
  run_app-redirected info rs scope url = (
    λ e. by_case scope.kind refl (dispatch rs (with_router info rs scope) none) refl e,
    λ a. elim a [
      | inl (k, d) ↦ by_dispatch k d
      | inr r ↦ IsRedirected-redirected info rs scope url r
    ],
  )
    where
      Answer : Type 0
      Answer =
          ((scope.kind ≡ http) ⊎ (scope.kind ≡ websocket))
            × (dispatch rs (with_router info rs scope) none ≡ some (redirected url))
          ⊎ IsRedirected info rs scope url

      by_dispatch :
          (scope.kind ≡ http) ⊎ (scope.kind ≡ websocket)
          → dispatch rs (with_router info rs scope) none ≡ some (redirected url)
          → run_app (router info rs) scope ≡ redirected url
      by_dispatch (inl k) d = ground (arith, k, d)
      by_dispatch (inr k) d = ground (arith, k, d)

      by_case :
          (k : Kind)
          → scope.kind ≡ k
          → (found : Option (Outcome O)) → dispatch rs (with_router info rs scope) none ≡ found
          → run_app (router info rs) scope ≡ redirected url
          → Answer
      by_case lifespan h found g e = absurd (ground arith)
      by_case websocket h (some o) g e = inl (inr h, ground arith)
      by_case websocket h none g e =
          absurd (ground (arith, unmatched-redirected info rs (with_router info rs scope) url))
      by_case http h (some o) g e = inl (inl h, ground arith)
      by_case http h none g e = inr (redirected_after info rs scope url h g (ground arith))
