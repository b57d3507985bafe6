-- ===== src/Middleware/Authentication/Laws.antt =====
-- Who gets through to a guarded function.
use starlette.Prelude.{ℕ, ◌≡◌, true, Option, none, List, [], ◌∷◌, contains, All, arith, ◌↔◌, ◌⊎◌}
use starlette.Prelude.Text.{Str, str_eq}
use starlette.Prelude.Result.{Result, ok, raise, http_exception}
use starlette.Middleware.Authentication.{has_required_scope, called, guard_request, guard_websocket}

has_required_scope_iff :
    (granted scopes : List Str)
    → (has_required_scope granted scopes ≡ true) ↔ All (λ s. contains granted s ≡ true) scopes
unfolding has_required_scope
has_required_scope_iff granted [] = ground arith
has_required_scope_iff granted (s ∷ scopes) = ground (arith, has_required_scope_iff granted scopes)

-- A guarded function of a request is called exactly if every required scope was granted, and so is
-- one of a web socket. Where no name to redirect to is given, a request is let through or gets the
-- exception with the status code.
pub guard_lem :
    (url_for : Str → Result Str) (urlencode : Str → Str) (scopes : List Str) (status_code : ℕ)
    (redirect : Option Str) (granted : List Str) (url : Str)
    → ((guard_request url_for urlencode scopes status_code redirect granted url ≡ ok called)
        ↔ All (λ s. contains granted s ≡ true) scopes)
      × ((guard_websocket scopes granted ≡ called) ↔ All (λ s. contains granted s ≡ true) scopes)
      × ((guard_request url_for urlencode scopes status_code none granted url ≡ ok called)
          ⊎ (guard_request url_for urlencode scopes status_code none granted url
              ≡ raise (http_exception status_code [])))
unfolding guard_request guard_websocket
guard_lem url_for urlencode scopes status_code redirect granted url =
    ground (arith, has_required_scope_iff granted scopes)
