-- ===== src/Responses/Sending.antt =====
-- `Response.__call__` and `render`, and `StreamingResponse` on a server that tells of a lost
-- connection, in starlette/responses.py.
--
-- The server takes so many messages, and then `send` raises `OSError`. An older server, where a task
-- waits for a disconnect beside the stream, is not modelled. The codec of a charset is a parameter.
pub mod Laws
use starlette.Prelude.{
  ℕ, zero, suc, Bool, true, false, not, Option, none, some, List, [], ◌∷◌, ◌++◌, contains, ◌==◌,
  if◌then◌else◌,
}
use starlette.Prelude.Text.{Str, codes, str_eq, lower}
use starlette.Prelude.Dict.{Dict}
use starlette.Prelude.Result.{
  Error, Result, ok, raise, os_error, client_disconnect, assertion_error, ◌>>=◌, ensure,
}
use starlette.Datastructures.Headers
use starlette.Datastructures.Headers.{RawHeaders}
use starlette.Responses.Headers.{init_headers}
use starlette.Websockets.{Call, done, raised, blocked}

pub data Sent : Type 0 where
  -- whether the type has the prefix `websocket.`, the status and the headers
  start : Bool → ℕ → RawHeaders → Sent
  -- a body with its `more_body`, which is false where the key is missing
  body : Bool → Str → Bool → Sent

pub record Server : Type 0 where
  pub budget : ℕ
  pub sent : List Sent

unfoldable pub send : Sent → Server → Call (Unit {0}) × Server
send message s = elim s.budget [
  | zero ↦ (raised os_error, s)
  | suc left ↦ (done tt, record { budget = left; sent = s.sent ++ message ∷ [] })
]

-- a text or bytes
pub data Content : Type 0 where
  text bytes : Str → Content

unfoldable pub encoded : (Str → Str) → Content → Str
encoded encode (text s) = encode s
encoded encode (bytes b) = b

-- `render`
unfoldable pub render : (Str → Str) → Option Content → Str
unfolding encoded
render encode none = []
render encode (some content) = encoded encode content

-- what a call goes on to: nothing, the background task, or an exception
pub data After (B : Type 0) : Type 0 where
  finished : After B
  runs : B → After B
  raises : Error → After B
  waits : After B

module _ {B : Type 0} where
  unfoldable pub background : Option B → After B
  background none = finished
  background (some task) = runs task

  -- `Response.__call__`
  unfoldable pub call : Bool → ℕ → RawHeaders → Str → Option B → Server → After B × Server
  unfolding send background
  call is_websocket status_code raw_headers content task s =
      let (r, s') = send (start is_websocket status_code raw_headers) s in
      let (q, s'') = send (body is_websocket content false) s' in
      elim r [
        | raised exc ↦ (raises exc, s')
        | blocked ↦ (waits, s')
        | done u ↦ elim q [
          | raised exc ↦ (raises exc, s'')
          | blocked ↦ (waits, s'')
          | done u ↦ (background task, s'')
        ]
      ]

-- the loop of `stream_response`, with the exception of the iterator behind its chunks
unfoldable pub stream_chunks :
    (Str → Str) → List Content → Option Error → Server → Call (Unit {0}) × Server
unfolding send encoded
stream_chunks encode [] none s = send (body false [] false) s
stream_chunks encode [] (some exc) s = (raised exc, s)
stream_chunks encode (chunk ∷ chunks) end s =
    let (r, s') = send (body false (encoded encode chunk) true) s in
    let rest = stream_chunks encode chunks end s' in
    elim r [ raised exc ↦ (raised exc, s') | blocked ↦ (blocked, s') | done u ↦ rest ]

unfoldable pub stream_response :
    (Str → Str) → ℕ → RawHeaders → List Content → Option Error → Server → Call (Unit {0}) × Server
unfolding send stream_chunks
stream_response encode status_code raw_headers chunks end s =
    let (r, s') = send (start false status_code raw_headers) s in
    elim r [
      | raised exc ↦ (raised exc, s')
      | blocked ↦ (blocked, s')
      | done u ↦ stream_chunks encode chunks end s'
    ]

-- `except OSError`
unfoldable pub disconnected : Error → Error
disconnected os_error = client_disconnect
disconnected exc = exc

-- `StreamingResponse.__call__`
unfoldable pub streaming_call :
    {B : Type 0}
    → (Str → Str)
    → ℕ
    → RawHeaders
    → List Content
    → Option Error
    → Option B
    → Server
    → After B × Server
unfolding stream_response disconnected background
streaming_call encode status_code raw_headers chunks end task s =
    let (r, s') = stream_response encode status_code raw_headers chunks end s in
    elim r [
      | raised exc ↦ (raises (disconnected exc), s')
      | blocked ↦ (waits, s')
      | done u ↦ (background task, s')
    ]
