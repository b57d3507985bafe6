-- ===== src/Requests/Stream.antt =====
-- `Request` of starlette/requests.py: its stream, its body and what it knows of a disconnect.
--
-- The server is a queue of the messages that it still hands over; a call that awaits one more than
-- there are waits for ever. An asynchronous generator is the place where it stands, and `next` runs
-- it to its next `yield`.
pub mod Laws
use starlette.Prelude.{
  ℕ, zero, suc, ◌+◌, Bool, true, false, not, Option, none, some, List, [], ◌∷◌, ◌++◌, length,
}
use starlette.Prelude.Text.{Str}
use starlette.Prelude.Result.{Error, runtime_error, client_disconnect}
use starlette.Websockets.{Call, done, raised, blocked}

pub data Message : Type 0 where
  -- `http.request`, with the keys `body` and `more_body` as far as it has them
  http_request : Option Str → Option Bool → Message
  http_disconnect : Message
  -- a message of another type
  other_message : Message

pub record Request : Type 0 where
  pub incoming : List Message
  -- the attribute `_body`
  pub saved_body : Option Str
  pub stream_consumed : Bool
  pub disconnected : Bool

-- `Request(scope, receive)`
unfoldable pub init : List Message → Request
init incoming = record {
  incoming = incoming;
  saved_body = none;
  stream_consumed = false;
  disconnected = false;
}

-- Where a generator of `stream` stands: not started, behind `yield self._body`, behind `yield body`
-- in the loop, or at an end.
pub data Generator : Type 0 where
  fresh after_body in_loop finished : Generator

-- `message.get(key, default)`
abbrev pub get : {A : Type 0} → A → Option A → A
get default none = default
get default (some value) = value

-- What `next` gives: a chunk, or `none` at the end of the iteration.
abbrev pub Next : Type 0
Next = Call (Option Str) × (Generator × Request)

-- the loop of `stream`, while the stream is not consumed
unfoldable pub read_on : List Message → Request → Next
read_on [] r = (blocked, (in_loop, record r { incoming = [] }))
read_on (http_request body more_body ∷ ms) r =
    let read : Request = record r { incoming = ms; stream_consumed = not (get false more_body) } in
    elim (get [] body) [
      | [] ↦ elim (get false more_body) [
        | true ↦ read_on ms read
        | false ↦ (done (some []), (finished, read))
      ]
      | x ∷ chunk ↦ (done (some (x ∷ chunk)), (in_loop, read))
    ]
read_on (http_disconnect ∷ ms) r =
    (raised client_disconnect, (finished, record r { incoming = ms; disconnected = true }))
read_on (other_message ∷ ms) r = read_on ms r

-- the `while` of `stream`
unfoldable pub loop : Request → Next
unfolding read_on
loop r = elim r.stream_consumed [
  | true ↦ (done (some []), (finished, r))
  | false ↦ read_on r.incoming r
]

-- `stream().__anext__()`
unfoldable pub next : Generator → Request → Next
unfolding loop
next fresh r = elim r.saved_body [
  | some body ↦ (done (some body), (after_body, r))
  | none ↦ elim r.stream_consumed [ true ↦ (raised runtime_error, (finished, r)) | false ↦ loop r ]
]
next after_body r = (done (some []), (finished, r))
next in_loop r = loop r
next finished r = (done none, (finished, r))

-- What an `async for` over a generator comes to: its chunks and the way in which it ends, or `none`
-- where the fuel runs out.
pub record Stream : Type 0 where
  pub chunks : List Str
  pub end : Call (Unit {0})
  pub request : Request

unfoldable pub add_chunk : Str → Option Stream → Option Stream
add_chunk chunk none = none
add_chunk chunk (some s) = some (record s { chunks = chunk ∷ s.chunks })

unfoldable pub iterate : ℕ → Generator → Request → Option Stream
unfolding next add_chunk
iterate zero g r = none
iterate (suc fuel) g r =
    let (c, (g', r')) = next g r in
    let rest = iterate fuel g' r' in
    elim c [
      | blocked ↦ some (record { chunks = []; end = blocked; request = r' })
      | raised exc ↦ some (record { chunks = []; end = raised exc; request = r' })
      | done chunk ↦ elim chunk [
        | none ↦ some (record { chunks = []; end = done tt; request = r' })
        | some bytes ↦ add_chunk bytes rest
      ]
    ]

-- `async for chunk in self.stream()`, with a turn for each message, and three more
unfoldable pub stream_all : Request → Option Stream
unfolding iterate
stream_all r = iterate (suc (suc (suc (length r.incoming)))) fresh r

-- `b"".join(chunks)`
abbrev pub concat : List Str → Str
concat [] = []
concat (chunk ∷ chunks) = chunk ++ concat chunks

pub save_body : Stream → Call Str × Request
save_body s = elim s.end [
  | done u ↦
      (done (concat s.chunks), record (Stream.request s) { saved_body = some (concat s.chunks) })
  | raised exc ↦ (raised exc, s.request)
  | blocked ↦ (blocked, s.request)
]

-- `body`
unfoldable pub body : Request → Option (Call Str × Request)
unfolding stream_all save_body
body r = elim r.saved_body [
  | some saved ↦ some (done saved, r)
  | none ↦ elim (stream_all r) [ none ↦ none | some s ↦ some (save_body s) ]
]

-- `is_disconnected`, where a message is taken only if it is there at once
unfoldable pub is_disconnected : Bool → Request → Bool × Request
is_disconnected at_once r = elim r.disconnected [
  | true ↦ (true, r)
  | false ↦ elim at_once [
    | false ↦ (false, r)
    | true ↦ elim r.incoming [
      | [] ↦ (false, r)
      | http_disconnect ∷ ms ↦ (true, record r { incoming = ms; disconnected = true })
      | message ∷ ms ↦ (false, record r { incoming = ms })
    ]
  ]
]
