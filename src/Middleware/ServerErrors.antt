-- ===== src/Middleware/ServerErrors.antt =====
-- `ServerErrorMiddleware` of starlette/middleware/errors.py, over runs of the application that it
-- wraps; the text of a traceback is left out.
pub mod Laws
mod Tests
use starlette.Prelude.{Bool, true, false, Option, none, some, List, [], ◌∷◌, ◌++◌, if◌then◌else◌}
use starlette.Prelude.Text.{Str, codes, has_part}
use starlette.Prelude.Dict.{or_else}
use starlette.Middleware.Exceptions.{
  Exc, Run, Handled, no_response, response, handler_raised, response_started,
}

-- the response to an exception
pub data ErrorResponse (H : Type 0) : Type 0 where
  -- `HTMLResponse(generate_html(exc))` and `PlainTextResponse(generate_plain_text(exc))`
  html_traceback text_traceback : ErrorResponse H
  -- `PlainTextResponse("Internal Server Error")`
  internal_server_error : ErrorResponse H
  -- what an installed handler returns
  by_handler : H → ErrorResponse H

-- `debug_response`, with the header `accept` of the request
unfoldable pub debug_response : {H : Type 0} → Option Str → ErrorResponse H
unfolding has_part
debug_response accept =
    if has_part (codes "text/html") (elim accept [ none ↦ [] | some value ↦ value ])
    then html_traceback
    else text_traceback

unfoldable pub choose_response : {H : Type 0} → Bool → Option H → Option Str → ErrorResponse H
unfolding debug_response
choose_response debug handler accept =
    if debug
    then debug_response accept
    else elim handler [ none ↦ internal_server_error | some h ↦ by_handler h ]

-- `await None(…)`
abbrev pub type_exc : Exc
type_exc = record {
  mro = codes "TypeError" ∷ codes "Exception" ∷ codes "BaseException" ∷ codes "object" ∷ [];
  status_code = none;
}

module _ {M H : Type 0} (is_start : M → Bool)
    (run_response : ErrorResponse H → Exc → Handled M) where
  -- behind the response, unless one was started before
  unfoldable pub answer : List M → Exc → Handled M → Run M
  unfolding response_started
  answer sent exc (handler_raised exc') = record { sent = sent; raised = some exc' }
  answer sent exc no_response =
      if response_started is_start run_response sent
      then record { sent = sent; raised = some exc }
      else record { sent = sent; raised = some type_exc }
  answer sent exc (response run) =
      if response_started is_start run_response sent
      then record { sent = sent; raised = some exc }
      else record { sent = sent ++ run.sent; raised = or_else run.raised (some exc) }

  -- `__call__`, by the run of the application
  unfoldable pub call : (is_http debug : Bool) → Option H → Option Str → Run M → Run M
  unfolding answer choose_response
  call is_http debug handler accept run =
      if is_http
      then (elim run.raised [
        | none ↦ run
        | some exc ↦ answer run.sent exc (run_response (choose_response debug handler accept) exc)
      ])
      else run
