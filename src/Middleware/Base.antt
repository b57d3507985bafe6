-- ===== src/Middleware/Base.antt =====
-- `BaseHTTPMiddleware` and `_StreamingResponse` of starlette/middleware/base.py, over an application
-- that ends.
--
-- What the application below sends is a list, since the memory stream keeps its order, with the
-- exception that the application ends with, if any. A `dispatch` calls `call_next` once, and what it
-- makes of the outcome is a parameter. The server takes every message. Messages that the application
-- is told of a disconnect by are those of `_CachedRequest`.
pub mod Laws
mod Tests
use starlette.Prelude.{
  ℕ, Bool, true, false, not, Option, none, some, List, [], ◌∷◌, ◌++◌, if◌then◌else◌,
}
use starlette.Prelude.Text.{Str}
use starlette.Prelude.Result.{
  Error, Result, ok, raise, assertion_error, runtime_error, ensure, ◌>>=◌, ◌>>◌,
}
use starlette.Datastructures.Headers.{RawHeaders}

-- an ASGI message of a response, with the keys that may be missing as options
pub data Message : Type 0 where
  debug : Option Str → Message
  start : ℕ → RawHeaders → Message
  body : Option Str → Option Bool → Message
  pathsend : Str → Message

-- what the body's iterator yields: bytes, or a message to pass on
pub data Chunk : Type 0 where
  bytes : Str → Chunk
  message : Message → Chunk

pub record StreamingResponse : Type 0 where
  pub info : Option Str
  pub status_code : ℕ
  pub raw_headers : RawHeaders
  pub chunks : List Chunk
  -- the exception of the iterator
  pub failure : Option Error

-- `if body: yield body`, in front of what comes next
unfoldable pub yield_body : Option Str → List Chunk × Option Error → List Chunk × Option Error
yield_body none rest = rest
yield_body (some []) rest = rest
yield_body (some (c ∷ s)) rest = (bytes (c ∷ s) ∷ rest.0, rest.1)

unfoldable pub has_more : Option Bool → Bool
has_more none = false
has_more (some more_body) = more_body

-- `body_stream`
unfoldable pub body_stream : List Message → List Chunk × Option Error
unfolding yield_body has_more
body_stream [] = ([], none)
body_stream (pathsend path ∷ ms) = (message (pathsend path) ∷ [], none)
body_stream (body b more_body ∷ ms) =
    let rest = body_stream ms in yield_body b (if has_more more_body then rest else ([], none))
body_stream (debug info ∷ ms) = ([], some assertion_error)
body_stream (start status_code headers ∷ ms) = ([], some assertion_error)

-- the exception where no message is left
unfoldable pub end_of_stream : Option Error → Error
end_of_stream none = runtime_error
end_of_stream (some exc) = exc

-- the response to a first message that is no debug message, or to the one behind it
unfoldable pub started : Option Str → Message → List Message → Result StreamingResponse
unfolding body_stream
started info (start status_code headers) ms =
    let (chunks, failure) = body_stream ms in
    ok (record {
      info = info;
      status_code = status_code;
      raw_headers = headers;
      chunks = chunks;
      failure = failure;
    })
started info m ms = raise assertion_error

unfoldable pub after_debug : Option Str → List Message → Option Error → Result StreamingResponse
unfolding started end_of_stream
after_debug info [] app_exc = raise (end_of_stream app_exc)
after_debug info (m ∷ ms) app_exc = started info m ms

-- `call_next`
unfoldable pub call_next : List Message → Option Error → Result StreamingResponse
unfolding started end_of_stream after_debug
call_next [] app_exc = raise (end_of_stream app_exc)
call_next (debug (some info) ∷ ms) app_exc = after_debug (some info) ms app_exc
call_next (m ∷ ms) app_exc = started none m ms

-- whether `call_next` raises the exception of the application
unfoldable pub already_raised : List Message → Bool
already_raised [] = true
already_raised (debug (some info) ∷ []) = true
already_raised (m ∷ ms) = false

-- `should_close_body`, behind the chunks
unfoldable pub closes_body : List Chunk → Bool
closes_body [] = true
closes_body (bytes b ∷ chunks) = closes_body chunks
closes_body (message m ∷ chunks) = false

unfoldable pub send_chunks : List Chunk → List Message
send_chunks [] = []
send_chunks (bytes b ∷ chunks) = body (some b) (some true) ∷ send_chunks chunks
send_chunks (message m ∷ chunks) = m ∷ send_chunks chunks

unfoldable pub send_debug : Option Str → List Message
send_debug none = []
send_debug (some info) = debug (some info) ∷ []

-- `_StreamingResponse.__call__`: what it sends, and the exception that it raises
unfoldable pub respond : StreamingResponse → List Message × Option Error
unfolding closes_body send_chunks send_debug
respond r =
    let before = send_debug r.info ++ start r.status_code r.raw_headers ∷ send_chunks r.chunks in
    elim r.failure [
      | some exc ↦ (before, some exc)
      | none ↦ (
        (if closes_body r.chunks then before ++ body (some []) (some false) ∷ [] else before),
        none,
      )
    ]

-- `if app_exc is not None and not exception_already_raised: raise app_exc`, behind a response that
-- went well
unfoldable pub raise_again : Option Error → Bool → Option Error
raise_again none raised = none
raise_again (some exc) raised = if raised then none else some exc

-- the rest of `__call__`, with the outcome of `dispatch`
unfoldable pub finish : Result StreamingResponse → Option Error → Bool → List Message × Option Error
unfolding respond raise_again
finish (raise exc) app_exc raised = ([], some exc)
finish (ok response) app_exc raised =
    let (sent, exc) = respond response in
    (sent, elim exc [ some e ↦ some e | none ↦ raise_again app_exc raised ])

-- `__call__` for a request of HTTP
unfoldable pub call :
    (Result StreamingResponse → Result StreamingResponse)
    → List Message
    → Option Error
    → List Message × Option Error
unfolding call_next already_raised finish
call dispatch ms app_exc = finish (dispatch (call_next ms app_exc)) app_exc (already_raised ms)
