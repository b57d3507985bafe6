-- ===== src/Applications.antt =====
-- `Starlette` of starlette/applications.py: its middleware stack and the calls that configure it.
--
-- `A` is the type of ASGI callables and `H` that of exception handlers. A `Middleware` is what its
-- class makes of a callable. The two classes that are always there, and the router, are parameters.
pub mod Laws
mod Tests
use starlette.Prelude.{
  ℕ, Bool, true, false, not, ◌&&◌, ◌||◌, Option, none, some, List, [], ◌∷◌, ◌++◌, ◌==◌, nat_eq,
  if◌then◌else◌,
}
use starlette.Prelude.Text.{Str, codes, str_eq}
use starlette.Prelude.Dict.{Dict, is_some}
use starlette.Prelude.Result.{Error, Result, ok, raise, assertion_error, runtime_error}

-- a key of `exception_handlers`: a status code, or a class by its name
pub data Key : Type 0 where
  status : ℕ → Key
  exc_class : Str → Key

unfoldable pub same_key : Key → Key → Bool
same_key (status a) (status b) = a == b
same_key (exc_class a) (exc_class b) = a == b
same_key a b = false

-- `key in (500, Exception)`
unfoldable pub is_error_key : Key → Bool
is_error_key (status code) = code == 500
is_error_key (exc_class cls) = cls == codes "Exception"

-- `self.exception_handlers[key] = handler`
unfoldable pub set_handler : {H : Type 0} → Key → H → List (Key × H) → List (Key × H)
unfolding same_key
set_handler key handler [] = (key, handler) ∷ []
set_handler key handler ((k, h) ∷ handlers) =
    let rest = set_handler key handler handlers in
    if same_key k key then (k, handler) ∷ handlers else (k, h) ∷ rest

pub record Starlette (A H : Type 0) : Type 0 where
  pub debug : Bool
  pub router : A
  pub exception_handlers : List (Key × H)
  pub user_middleware : List (A → A)
  pub middleware_stack : Option A

-- the classes `ServerErrorMiddleware`, with its handler, and `ExceptionMiddleware`, with its
pub record Classes (A H : Type 0) : Type 0 where
  pub server_error : Option H → Bool → A → A
  pub exception : List (Key × H) → Bool → A → A

module _ {H : Type 0} where
  -- the loop over the handlers: the one for errors, and those for the inner middleware
  unfoldable pub split_handlers :
      List (Key × H) → Option H → List (Key × H) → Option H × List (Key × H)
  unfolding is_error_key set_handler
  split_handlers [] error_handler exception_handlers = (error_handler, exception_handlers)
  split_handlers ((key, value) ∷ items) error_handler exception_handlers =
      split_handlers items (if is_error_key key then some value else error_handler)
        (if is_error_key key then exception_handlers else set_handler key value exception_handlers)

-- `for cls, args, kwargs in reversed(middleware): app = cls(app, *args, **kwargs)`
unfoldable pub wrap : {A : Type 0} → List (A → A) → A → A
wrap [] app = app
wrap (cls ∷ middleware) app = cls (wrap middleware app)

module _ {A H : Type 0} where
  unfoldable pub build_middleware_stack : Classes A H → Starlette A H → A
  unfolding split_handlers wrap
  build_middleware_stack classes app =
      let (error_handler, exception_handlers) = split_handlers app.exception_handlers none [] in
      wrap
        (classes.server_error error_handler app.debug
          ∷ (app.user_middleware ++ classes.exception exception_handlers app.debug ∷ []))
        app.router

  -- `__call__`: the callable that the request goes to
  unfoldable pub call : Classes A H → Starlette A H → A × Starlette A H
  unfolding build_middleware_stack
  call classes app = elim app.middleware_stack [
    | some stack ↦ (stack, app)
    | none ↦
        let stack = build_middleware_stack classes app in
        (stack, record app { middleware_stack = some stack })
  ]

  unfoldable pub add_middleware : (A → A) → Starlette A H → Result (Starlette A H)
  add_middleware middleware app = elim app.middleware_stack [
    | some stack ↦ raise runtime_error
    | none ↦ ok (record app { user_middleware = middleware ∷ app.user_middleware })
  ]

  unfoldable pub add_exception_handler : Key → H → Starlette A H → Starlette A H
  unfolding set_handler
  add_exception_handler key handler app = record app {
    exception_handlers = set_handler key handler app.exception_handlers;
  }

  -- the decorator `middleware(middleware_type)`, applied to what `BaseHTTPMiddleware` makes of it
  unfoldable pub middleware_decorator : Str → (A → A) → Starlette A H → Result (Starlette A H)
  unfolding add_middleware
  middleware_decorator middleware_type middleware app =
      if middleware_type == codes "http"
      then add_middleware middleware app
      else raise assertion_error

  -- `Starlette(…)`: `lifespan` goes with no handlers of events
  unfoldable pub init :
      Bool
      → A
      → Option (List (A → A))
      → Option (List (Key × H))
      → (has_lifespan has_on_startup has_on_shutdown : Bool) → Result (Starlette A H)
  init debug router middleware exception_handlers has_lifespan has_on_startup has_on_shutdown =
      if not has_lifespan || (not has_on_startup && not has_on_shutdown)
      then ok (record {
        debug = debug;
        router = router;
        exception_handlers = elim exception_handlers [ none ↦ [] | some handlers ↦ handlers ];
        user_middleware = elim middleware [ none ↦ [] | some classes ↦ classes ];
        middleware_stack = none;
      })
      else raise assertion_error
