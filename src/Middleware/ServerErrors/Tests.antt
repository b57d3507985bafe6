-- ===== src/Middleware/ServerErrors/Tests.antt =====
-- Runs of `ServerErrorMiddleware`. A message is whether it starts a response.
use starlette.Prelude.{ℕ, ◌≤◌, refl, Bool, true, false, none, some, [], ◌∷◌, arith}
use starlette.Prelude.Text.{codes, str_eq}
use starlette.Middleware.Exceptions.{Exc, Run, Handled, response, wrapped_app}
use starlette.Middleware.Exceptions.Laws.{starts}
use starlette.Middleware.ServerErrors.{ErrorResponse, type_exc, call}
use starlette.Middleware.ServerErrors.Laws.{Answered, call-raised, call-wrapped_app}

abbrev answered : Run Bool
answered = record { sent = true ∷ false ∷ []; raised = none }

-- the application raises before it sends anything
abbrev failing : Run Bool
failing = record { sent = []; raised = some type_exc }

abbrev respond : ErrorResponse ℕ → Exc → Handled Bool
respond r exc = response answered

call-raised_example :
    Answered
      (λ m. m)
      respond
      []
      type_exc
      answered
      (call (λ m. m) respond true false (some 1) none failing)
call-raised_example =
    call-raised (λ m. m) respond false (some 1) none failing type_exc (λ r. answered) (λ r. refl)
      (λ r. refl) (omega arith) refl

abbrev handle : ℕ → Exc → Handled Bool
handle h exc = response answered

call-wrapped_app_example :
    starts
      (λ m. m)
      (call
        (λ m. m)
        respond
        true
        false
        none
        none
        (wrapped_app (λ m. m) handle ((codes "TypeError", 1) ∷ []) [] failing)).sent
    ≤ 1
call-wrapped_app_example =
    call-wrapped_app (λ m. m) respond handle ((codes "TypeError", 1) ∷ []) [] true false none none
      failing (λ a exc. omega arith) (λ r exc. omega arith) (omega arith)
