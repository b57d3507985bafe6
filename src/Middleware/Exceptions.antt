-- ===== src/Middleware/Exceptions.antt =====
-- starlette/_exception_handler.py and `ExceptionMiddleware` of starlette/middleware/exceptions.py.
--
-- A class is known by its name. A run of an ASGI callable is the list of the messages that it sent
-- and the exception that left it, if one did; `M` is the type of messages and `H` that of the
-- handlers of an application.
pub mod Laws
use starlette.Prelude.{
  ℕ, Bool, true, false, not, ◌||◌, Option, none, some, List, [], ◌∷◌, ◌++◌, ◌==◌, nat_eq,
  if◌then◌else◌,
}
use starlette.Prelude.Text.{Str, codes, str_eq}
use starlette.Prelude.Dict.{Dict, or_else, lookup, insert}
use starlette.Prelude.Result.{Result, ok, raise, assertion_error, ensure, ◌>>=◌, ◌>>◌}

pub record Exc : Type 0 where
  -- the names of `type(exc).__mro__`
  pub mro : List Str
  -- the status code of an `HTTPException`
  pub status_code : Option ℕ

pub record Run (M : Type 0) : Type 0 where
  pub sent : List M
  pub raised : Option Exc

-- what a handler comes to: None, a response with the run of calling it, or an exception
pub data Handled (M : Type 0) : Type 0 where
  no_response : Handled M
  response : Run M → Handled M
  handler_raised : Exc → Handled M

pub data Handler (H : Type 0) : Type 0 where
  -- `self.http_exception` and `self.websocket_exception`
  http_exception websocket_exception : Handler H
  custom : H → Handler H

abbrev pub runtime_exc : Exc
runtime_exc = record {
  mro = codes "RuntimeError" ∷ codes "Exception" ∷ codes "BaseException" ∷ codes "object" ∷ [];
  status_code = none;
}

unfoldable pub lookup_exception_handler : {A : Type 0} → Dict Str A → List Str → Option A
unfolding lookup
lookup_exception_handler exc_handlers [] = none
lookup_exception_handler exc_handlers (cls ∷ mro) =
    or_else (lookup cls exc_handlers) (lookup_exception_handler exc_handlers mro)

-- the handler by status code of an `HTTPException`
pub status_handler : {A : Type 0} → Dict ℕ A → Option ℕ → Option A
unfolding lookup
status_handler status_handlers none = none
status_handler status_handlers (some code) = lookup code status_handlers

unfoldable pub choose_handler : {A : Type 0} → Dict Str A → Dict ℕ A → Exc → Option A
unfolding status_handler lookup_exception_handler
choose_handler exception_handlers status_handlers exc =
    or_else (status_handler status_handlers exc.status_code)
      (lookup_exception_handler exception_handlers exc.mro)

module _ {M A : Type 0} (is_start : M → Bool) (run_handler : A → Exc → Handled M) where
  -- `response_started`, behind a list of sent messages
  unfoldable pub response_started : List M → Bool
  response_started [] = false
  response_started (m ∷ ms) = is_start m || response_started ms

  -- the response goes through the same `sender`
  pub after_handler : List M → Handled M → Run M
  after_handler sent no_response = record { sent = sent; raised = none }
  after_handler sent (response run) = record { sent = sent ++ run.sent; raised = run.raised }
  after_handler sent (handler_raised exc) = record { sent = sent; raised = some exc }

  pub with_handler : List M → Exc → Option A → Run M
  unfolding response_started after_handler
  with_handler sent exc none = record { sent = sent; raised = some exc }
  with_handler sent exc (some handler) =
      if response_started sent
      then record { sent = sent; raised = some runtime_exc }
      else after_handler sent (run_handler handler exc)

  pub handle_exception : Dict Str A → Dict ℕ A → List M → Option Exc → Run M
  unfolding with_handler choose_handler
  handle_exception exception_handlers status_handlers sent none = record {
    sent = sent;
    raised = none;
  }
  handle_exception exception_handlers status_handlers sent (some exc) =
      with_handler sent exc (choose_handler exception_handlers status_handlers exc)

  -- `wrapped_app`, by the run of the application that it wraps
  unfoldable pub wrapped_app : Dict Str A → Dict ℕ A → Run M → Run M
  unfolding handle_exception
  wrapped_app exception_handlers status_handlers run =
      handle_exception exception_handlers status_handlers run.sent run.raised

-- a key of the `handlers` of the middleware
pub data Key : Type 0 where
  status : ℕ → Key
  exc_class : Str → Key

pub record ExceptionMiddleware (H : Type 0) : Type 0 where
  pub status_handlers : Dict ℕ (Handler H)
  pub exception_handlers : Dict Str (Handler H)

module _ {H : Type 0} (is_exception_class : Str → Bool) where
  unfoldable pub add_exception_handler :
      Key → H → ExceptionMiddleware H → Result (ExceptionMiddleware H)
  unfolding insert
  add_exception_handler (status code) handler mw =
      ok (record mw { status_handlers = insert code (custom handler) mw.status_handlers })
  add_exception_handler (exc_class cls) handler mw = do
    ensure (is_exception_class cls) assertion_error
    ok (record mw { exception_handlers = insert cls (custom handler) mw.exception_handlers })

  abbrev default_middleware : ExceptionMiddleware H
  default_middleware = record {
    status_handlers = [];
    exception_handlers =
        (codes "HTTPException", http_exception)
        ∷ (codes "WebSocketException", websocket_exception)
        ∷ [];
  }

  pub add_each : List (Key × H) → ExceptionMiddleware H → Result (ExceptionMiddleware H)
  unfolding add_exception_handler
  add_each [] mw = ok mw
  add_each ((key, value) ∷ handlers) mw = do
    mw ← add_exception_handler key value mw
    add_each handlers mw

  -- `ExceptionMiddleware.__init__`, with the items of `handlers`
  unfoldable pub init : List (Key × H) → Result (ExceptionMiddleware H)
  unfolding add_each
  init handlers = add_each handlers default_middleware

-- `http_exception`: whether the response carries the detail of the exception as its text
unfoldable pub has_content : ℕ → Bool
has_content status_code = not (status_code == 204 || status_code == 304)
