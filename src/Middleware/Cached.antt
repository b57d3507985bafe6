-- ===== src/Middleware/Cached.antt =====
-- `_CachedRequest` of starlette/middleware/base.py: what the application below a `BaseHTTPMiddleware`
-- receives, over the request stream of the module Requests.Stream.
pub mod Laws
mod Tests
use starlette.Prelude.{Bool, true, false, not, Option, none, some, List, [], ◌∷◌}
use starlette.Prelude.Text.{Str}
use starlette.Prelude.Result.{Error, runtime_error, client_disconnect, foreign_error}
use starlette.Websockets.{Call, done, raised, blocked}
use starlette.Requests.Stream
use starlette.Requests.Stream.{
  Message, http_request, http_disconnect, other_message, Request, fresh, next,
}

pub record CachedRequest : Type 0 where
  pub request : Request
  pub rcv_disconnected : Bool
  pub rcv_consumed : Bool

-- `_CachedRequest(scope, receive)`
pub init : List Message → CachedRequest
unfolding Stream.init
init incoming = record {
  request = Stream.init incoming;
  rcv_disconnected = false;
  rcv_consumed = false;
}

-- a message that was awaited where only a disconnect may come
unfoldable pub only_disconnect : CachedRequest → Call Message × CachedRequest
only_disconnect c = elim c.request.incoming [
  | [] ↦ (blocked, c)
  | http_disconnect ∷ ms ↦ (
    done http_disconnect,
    record c {
      request = record (CachedRequest.request c) { incoming = ms };
      rcv_disconnected = true;
    },
  )
  | message ∷ ms ↦ (
    raised runtime_error,
    record c { request = record (CachedRequest.request c) { incoming = ms } },
  )
]

-- behind the whole body
unfoldable pub when_consumed : CachedRequest → Call Message × CachedRequest
unfolding only_disconnect
when_consumed c = elim c.request.disconnected [
  | true ↦ (done http_disconnect, record c { rcv_disconnected = true })
  | false ↦ only_disconnect c
]

-- one body that is the last
abbrev last_body : Str → CachedRequest → Call Message × CachedRequest
last_body body c = (done (http_request (some body) (some false)), record c { rcv_consumed = true })

-- `except ClientDisconnect`
unfoldable pub on_exception : Error → CachedRequest → Call Message × CachedRequest
on_exception client_disconnect c = (done http_disconnect, record c { rcv_disconnected = true })
on_exception exc c = (raised exc, c)

-- a chunk of a new generator
unfoldable pub from_stream : CachedRequest → Call Message × CachedRequest
unfolding next on_exception
from_stream c =
    let (r, (generator, request)) = next fresh c.request in
    let c' : CachedRequest = record c { request = request } in
    elim r [
      | blocked ↦ (blocked, c')
      | raised exc ↦ on_exception exc c'
      | done chunk ↦ elim chunk [
        | none ↦ (raised foreign_error, c')
        | some body ↦ (
          done (http_request (some body) (some (not request.stream_consumed))),
          record c' { rcv_consumed = Request.stream_consumed request },
        )
      ]
    ]

-- `wrapped_receive`
unfoldable pub wrapped_receive : CachedRequest → Call Message × CachedRequest
unfolding when_consumed from_stream
wrapped_receive c = elim c.rcv_disconnected [
  | true ↦ (done http_disconnect, c)
  | false ↦ elim c.rcv_consumed [
    | true ↦ when_consumed c
    | false ↦ elim c.request.saved_body [
      | some body ↦ last_body body c
      | none ↦ elim c.request.stream_consumed [ true ↦ last_body [] c | false ↦ from_stream c ]
    ]
  ]
]
