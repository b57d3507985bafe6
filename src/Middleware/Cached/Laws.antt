-- ===== src/Middleware/Cached/Laws.antt =====
-- The application below the middleware receives the body that the server sent.
use starlette.Prelude.{
  ℕ, zero, suc, ◌<◌, ◌≤◌, ◌≡◌, refl, ap, Bool, true, false, not, Option, none, some, List, [], ◌∷◌,
  ◌++◌, length, arith,
}
use starlette.Prelude.Text.{Str}
use starlette.Prelude.Result.{client_disconnect, foreign_error}
use starlette.Websockets.{Call, done, raised, blocked}
use starlette.Requests.Stream
use starlette.Requests.Stream.{
  Message, http_request, http_disconnect, other_message, Request, Generator, fresh, in_loop,
  finished, get, Next, read_on, loop, next,
}
use starlette.Requests.Stream.Laws.{Received, received, prepend}
use starlette.Middleware.Cached.{CachedRequest, init, on_exception, from_stream, wrapped_receive}

-- What an application reads that asks for messages up to the last body: the bodies, and how it ends.
pub record Drained : Type 0 where
  pub text : Str
  pub end : Call (Unit {0})

abbrev add_text : Str → Option Drained → Option Drained
add_text b none = none
add_text b (some d) = some (record d { text = b ++ Drained.text d })

-- what the application does with what it received, and the rest that it reads
abbrev step : Call Message → Option Drained → Option Drained
step r rest = elim r [
  | blocked ↦ some (record { text = []; end = blocked })
  | raised exc ↦ some (record { text = []; end = raised exc })
  | done message ↦ elim message [
    | http_request body more_body ↦ elim (get false more_body) [
      | true ↦ add_text (get [] body) rest
      | false ↦ some (record { text = get [] body; end = done tt })
    ]
    | http_disconnect ↦ some (record { text = []; end = raised client_disconnect })
    | other_message ↦ rest
  ]
]

-- `none` where the fuel runs out
pub drain : ℕ → CachedRequest → Option Drained
unfolding wrapped_receive
drain zero c = none
drain (suc fuel) c = let (r, c') = wrapped_receive c in let rest = drain fuel c' in step r rest

abbrev drained : Received → Option Drained
drained d = some (record { text = Received.text d; end = d.end })

-- a request that nothing was read of
abbrev open_at : Request → List Message → CachedRequest
open_at r ms = record {
  request = record r { incoming = ms; saved_body = none; stream_consumed = false };
  rcv_disconnected = false;
  rcv_consumed = false;
}

-- `from_stream`, by what the new generator gives
abbrev message_of : Next → Call Message × CachedRequest
message_of n =
    let c : CachedRequest = record {
      request = n.1.1;
      rcv_disconnected = false;
      rcv_consumed = false;
    } in
    elim n.0 [
      | blocked ↦ (blocked, c)
      | raised exc ↦ on_exception exc c
      | done chunk ↦ elim chunk [
        | none ↦ (raised foreign_error, c)
        | some body ↦ (
          done (http_request (some body) (some (not n.1.1.stream_consumed))),
          record c { rcv_consumed = Request.stream_consumed n.1.1 },
        )
      ]
    ]

abbrev turn : ℕ → Next → Option Drained
turn fuel n = step (message_of n).0 (drain fuel (message_of n).1)

turn-read_on :
    (fuel : ℕ) (ms queue : List Message) (r : Request)
    → length ms ≤ fuel
    → turn fuel (read_on ms (CachedRequest.request (open_at r queue))) ≡ drained (received ms)
unfolding read_on drain wrapped_receive from_stream on_exception next loop
turn-read_on fuel [] queue r h = refl
turn-read_on fuel (http_disconnect ∷ ms) queue r h = refl
turn-read_on fuel (other_message ∷ ms) queue r h = turn-read_on fuel ms queue r (omega arith)
turn-read_on fuel (http_request b more_body ∷ ms) queue r h =
    by_case fuel (get [] b) (get false more_body) h (λ n l. turn-read_on n ms ms r l)
  where
    consumed : Bool → Request
    consumed c = record r { incoming = ms; saved_body = none; stream_consumed = c }

    by_rest : Bool → Str → Received
    by_rest more chunk = elim more [
      | true ↦ prepend chunk (received ms)
      | false ↦ record { text = chunk; end = done tt; rest = ms }
    ]

    by_case :
        (fuel : ℕ) (chunk : Str) (more : Bool)
        → suc (length ms) ≤ fuel
        → ((n : ℕ)
            → length ms ≤ n
            → turn n (read_on ms (CachedRequest.request (open_at r ms))) ≡ drained (received ms))
        → turn fuel (elim chunk [
          | [] ↦ (elim more as (λ m. Next) [
            | true ↦ read_on ms (consumed (not more))
            | false ↦ (done (some []), (finished, consumed (not more)))
          ])
          | x ∷ xs ↦ (done (some (x ∷ xs)), (in_loop, consumed (not more)))
        ])
          ≡ drained (by_rest more chunk)
    by_case fuel [] true h ih = ih fuel (omega arith)
    by_case fuel [] false h ih = refl
    by_case (suc fuel) (x ∷ xs) true h ih = ap (add_text (x ∷ xs)) (ih fuel (omega arith))
    by_case fuel (x ∷ xs) false h ih = refl
    by_case zero chunk more h ih = absurd (omega arith)

-- Where the middleware does not touch the request, an application that asks for messages up to the
-- last body gets, after at most one for each message of the server and one more, the bodies that
-- the server sent, put together; and it sees a disconnect, and waits for ever, exactly where the
-- server's messages end so.
pub drain-received :
    (fuel : ℕ) (incoming : List Message)
    → length incoming < fuel
    → drain fuel (init incoming)
      ≡ some (record { text = Received.text (received incoming); end = (received incoming).end })
unfolding drain init Stream.init wrapped_receive from_stream next loop
drain-received zero incoming h = absurd (omega arith)
drain-received (suc fuel) incoming h =
    turn-read_on fuel incoming incoming (Stream.init incoming) (omega arith)
