-- ===== src/Middleware/Tests.antt =====
-- Runs of the middleware on concrete requests.
use starlette.Prelude.{
  ◌≡◌, refl, inl, ◌≤◌, ℕ, Bool, true, false, not, ◌||◌, [], ◌∷◌, some, none, arith, if◌then◌else◌,
  contains, list_beq, ◌+◌, List,
}
use starlette.Prelude.Text.{Str, codes, str_eq, starts_with, lower}
use starlette.Prelude.Dict.{lookup, insert, is_some}
use starlette.Prelude.Result.{ok}
use starlette.Datastructures.Headers.{RawHeaders, find}
use starlette.Middleware.Cors.{Options, Cors, PlainText, preflight_response, is_allowed_origin}
use starlette.Middleware.Cors
use starlette.Datastructures.Headers
use starlette.Middleware.Gzip
use starlette.Middleware.Gzip.{
  Message, start, Compressor, Responder, send_all, is_excluded, new_headers, changed_headers,
}
use starlette.Middleware.Gzip.Laws.{parts, contents_of, compressed, send_all-compressed}
use starlette.Middleware.Cors.Laws.{allows, preflight_response_lem}
use starlette.Middleware.Exceptions
use starlette.Middleware.Exceptions.{
  Exc, Run, Handled, response, Handler, choose_handler, wrapped_app, Key, status,
  ExceptionMiddleware,
}
use starlette.Middleware.Exceptions.Laws.{starts, starts-wrapped_app, init-choose_handler}

abbrev options : Options
options = record {
  allow_origins = codes "https://a.example" ∷ [];
  allow_methods = codes "GET" ∷ [];
  allow_headers = codes "X-Token" ∷ [];
  allow_credentials = false;
  allow_origin_regex = none;
  expose_headers = [];
  max_age = 600;
}

abbrev request : RawHeaders
request =
    (codes "origin", codes "https://b.example")
    ∷ (codes "access-control-request-method", codes "GET")
    ∷ []

preflight_response_lem_example :
    (r : PlainText) × (preflight_response (Cors.init options) request ≡ ok r)
    × (r.status ≡ (
        if allows
          (Cors.init options)
          (codes "https://b.example")
          (codes "GET")
          (find (codes "access-control-request-headers") request)
        then 200
        else 400))
    × (lookup (codes "Access-Control-Allow-Origin") r.headers ≡ (
        if not (contains options.allow_origins (codes "*")) || options.allow_credentials
        then (if is_allowed_origin (Cors.init options) (codes "https://b.example")
            then some (codes "https://b.example")
            else none)
        else some (codes "*")))
unfolding find list_beq
preflight_response_lem_example =
    preflight_response_lem options request (codes "https://b.example") (codes "GET") refl refl

-- a message is whether it starts a response
abbrev is_start : Bool → Bool
is_start m = m

abbrev answer_with : ℕ → Exc → Handled Bool
answer_with handler exc = response (record { sent = true ∷ false ∷ []; raised = none })

abbrev not_found : Exc
not_found = record { mro = codes "HTTPException" ∷ codes "Exception" ∷ []; status_code = some 404 }

starts-wrapped_app_example :
    starts is_start
      (wrapped_app is_start answer_with []
        ((404, 7) ∷ [])
        (record { sent = []; raised = some not_found })).sent
    ≤ 1
starts-wrapped_app_example =
    starts-wrapped_app is_start answer_with [] ((404, 7) ∷ [])
      (record { sent = []; raised = some not_found }) (λ a exc. omega arith) (omega arith)

abbrev registered : ExceptionMiddleware ℕ
registered = record {
  status_handlers = (404, Exceptions.custom 7) ∷ [];
  exception_handlers =
      (codes "HTTPException", Exceptions.http_exception)
      ∷ (codes "WebSocketException", Exceptions.websocket_exception)
      ∷ [];
}

init-choose_handler_example :
    is_some (choose_handler registered.exception_handlers registered.status_handlers not_found)
    ≡ true
unfolding Exceptions.init Exceptions.add_exception_handler insert
init-choose_handler_example =
    init-choose_handler (λ cls. true) ((status 404, 7) ∷ []) not_found {mw = registered} refl
      (inl (inl refl))

-- a compressor that writes one byte for each part, and one at the end
abbrev toy_gzip : Compressor ℕ
toy_gzip = record { write = λ g s. (codes "z", g + 1); close = λ g. (codes ".", g) }

abbrev event_stream : RawHeaders
event_stream = (codes "content-type", codes "text/event-stream") ∷ []

abbrev zipped : RawHeaders
zipped = (codes "vary", codes "Accept-Encoding") ∷ (codes "content-encoding", codes "gzip") ∷ []

send_all-compressed_example :
    (out : List Message) × (r : Responder ℕ) × (send_all toy_gzip
        (Gzip.init toy_gzip 500 (some 0))
        (start 200 [] ∷ parts (codes "a" ∷ []) (codes "b"))
      ≡ ok (start 200 zipped ∷ out, r))
    × (contents_of out ≡ compressed toy_gzip 0 (codes "a" ∷ []) (codes "b"))
unfolding new_headers changed_headers Headers.has_key is_excluded Headers.find starts_with list_beq
    Headers.setitem Headers.delitem Headers.add_vary_header lower Headers.header_key Headers.encode
    Headers.is_latin1
send_all-compressed_example =
    send_all-compressed toy_gzip 500 0 200 [] (codes "a") [] (codes "b") zipped refl refl

abbrev hosts : List Str
hosts = codes "*.a.example" ∷ codes "www.b.example" ∷ []
