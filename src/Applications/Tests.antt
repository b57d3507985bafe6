-- ===== src/Applications/Tests.antt =====
-- An application whose callables are lists of the numbers of their layers.
use starlette.Prelude.{ℕ, ◌≡◌, false, none, List, [], ◌∷◌, if◌then◌else◌}
use starlette.Prelude.Text.{codes}
use starlette.Prelude.Result.{raise, runtime_error}
use starlette.Applications.{
  Key, status, exc_class, is_error_key, Starlette, Classes, wrap, build_middleware_stack, call,
  add_middleware,
}
use starlette.Applications.Laws.{
  find_handler, last_handler, last_error, Event, request, middleware, exception_handler, after_all,
  build_middleware_stack_lem, after_all-call,
}

abbrev classes : Classes (List ℕ) ℕ
classes = record {
  server_error = λ handler debug app. 500 ∷ app;
  exception = λ handlers debug app. 400 ∷ app;
}

abbrev app : Starlette (List ℕ) ℕ
app = record {
  debug = false;
  router = [];
  exception_handlers = (status 404, 1) ∷ (exc_class (codes "Exception"), 2) ∷ (status 500, 3) ∷ [];
  user_middleware = (λ a. 7 ∷ a) ∷ (λ a. 8 ∷ a) ∷ [];
  middleware_stack = none;
}

build_middleware_stack_lem_example :
    (handlers : List (Key × ℕ)) × (build_middleware_stack classes app
      ≡ classes.server_error
          (last_error app.exception_handlers)
          app.debug
          (wrap app.user_middleware (classes.exception handlers app.debug app.router)))
    × ((k : Key)
        → find_handler k handlers
          ≡ (if is_error_key k then none else last_handler k app.exception_handlers))
build_middleware_stack_lem_example = build_middleware_stack_lem classes app

abbrev later : List (Event (List ℕ) ℕ)
later = middleware (λ a. 9 ∷ a) ∷ exception_handler (status 404) 5 ∷ request ∷ []

after_all-call_example :
    ((call classes (after_all classes later (call classes app).1)).0 ≡ (call classes app).0)
    × (add_middleware (λ a. 9 ∷ a) (after_all classes later (call classes app).1)
        ≡ raise runtime_error)
after_all-call_example = after_all-call classes app later (λ a. 9 ∷ a)
