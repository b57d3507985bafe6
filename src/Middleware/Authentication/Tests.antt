-- ===== src/Middleware/Authentication/Tests.antt =====
-- A guarded function of a user with one of two scopes.
use starlette.Prelude.{◌≡◌, ◌↔◌, ◌⊎◌, true, none, some, [], ◌∷◌, All, contains}
use starlette.Prelude.Text.{codes, str_eq}
use starlette.Prelude.Result.{ok, raise, http_exception}
use starlette.Middleware.Authentication.{called, guard_request, guard_websocket}
use starlette.Middleware.Authentication.Laws.{guard_lem}

guard_lem_example :
    ((guard_request ok
          (λ u. u)
          (codes "a" ∷ codes "b" ∷ [])
          403
          (some (codes "login"))
          (codes "a" ∷ [])
          (codes "/")
        ≡ ok called)
      ↔ All (λ s. contains (codes "a" ∷ []) s ≡ true) (codes "a" ∷ codes "b" ∷ []))
    × ((guard_websocket (codes "a" ∷ codes "b" ∷ []) (codes "a" ∷ []) ≡ called)
        ↔ All (λ s. contains (codes "a" ∷ []) s ≡ true) (codes "a" ∷ codes "b" ∷ []))
    × ((guard_request ok (λ u. u) (codes "a" ∷ codes "b" ∷ []) 403 none (codes "a" ∷ []) (codes "/")
          ≡ ok called)
        ⊎ (guard_request ok
              (λ u. u)
              (codes "a" ∷ codes "b" ∷ [])
              403
              none
              (codes "a" ∷ [])
              (codes "/")
            ≡ raise (http_exception 403 [])))
guard_lem_example =
    guard_lem ok (λ u. u) (codes "a" ∷ codes "b" ∷ []) 403 (some (codes "login")) (codes "a" ∷ [])
      (codes "/")
