-- ===== src/Requests/Stream/Laws.antt =====
-- What `stream` and `body` make of the messages that the server hands over.
use starlette.Prelude.{
  ℕ, zero, suc, ◌+◌, ◌≤◌, ◌≡◌, refl, ap, ◌∙◌, sym, subst, Bool, true, false, not, Option, none,
  some, List, [], ◌∷◌, ◌++◌, length, arith, append-nil,
}
use starlette.Prelude.Text.{Str}
use starlette.Prelude.Result.{runtime_error, client_disconnect}
use starlette.Websockets.{Call, done, raised, blocked}
use starlette.Requests.Stream.{
  Message, http_request, http_disconnect, other_message, Request, in_loop, finished, get, Next,
  read_on, loop, next, Stream, add_chunk, iterate, stream_all, concat, save_body, body,
}

-- The bodies that the messages have up to the end, how they end, and the messages behind that.
pub record Received : Type 0 where
  pub text : Str
  pub end : Call (Unit {0})
  pub rest : List Message

abbrev pub prepend : Str → Received → Received
prepend b d = record d { text = b ++ Received.text d }

-- A body without `more_body` is the last; a disconnect before it raises.
abbrev pub received : List Message → Received
received [] = record { text = []; end = blocked; rest = [] }
received (http_request b more_body ∷ ms) = elim (get false more_body) [
  | true ↦ prepend (get [] b) (received ms)
  | false ↦ record { text = get [] b; end = done tt; rest = ms }
]
received (http_disconnect ∷ ms) = record { text = []; end = raised client_disconnect; rest = ms }
received (other_message ∷ ms) = received ms

-- the request when its stream has been read
abbrev pub after : Request → Received → Request
after r d = elim d.end [
  | done u ↦ record r { incoming = d.rest; stream_consumed = true }
  | raised exc ↦ record r { incoming = d.rest; stream_consumed = false; disconnected = true }
  | blocked ↦ record r { incoming = []; stream_consumed = false }
]

-- The loop gave what the messages hold.
abbrev Gave : Request → Option Stream → Received → Type 0
Gave r none d = ⊥
Gave r (some s) d = (concat s.chunks ≡ d.text) × (s.end ≡ d.end) × (Stream.request s ≡ after r d)

-- an `async for` from what the generator gives first
abbrev turn : ℕ → Next → Option Stream
turn fuel n = elim n.0 [
  | blocked ↦ some (record { chunks = []; end = blocked; request = n.1.1 })
  | raised exc ↦ some (record { chunks = []; end = raised exc; request = n.1.1 })
  | done chunk ↦ elim chunk [
    | none ↦ some (record { chunks = []; end = done tt; request = n.1.1 })
    | some bytes ↦ add_chunk bytes (iterate fuel n.1.0 n.1.1)
  ]
]

add_chunk-Gave :
    (r : Request) (chunk : Str) (s : Option Stream) (d : Received)
    → Gave r s d
    → Gave r (add_chunk chunk s) (prepend chunk d)
unfolding add_chunk
add_chunk-Gave r chunk none d h = h
add_chunk-Gave r chunk (some s) d (t, e, q) = (ap (λ t. chunk ++ t) t, e, q)

abbrev open_at : Request → List Message → Request
open_at r ms = record r { incoming = ms; stream_consumed = false }

turn-read_on :
    (fuel : ℕ) (ms queue : List Message) (r : Request)
    → length ms + 2 ≤ fuel
    → Gave r (turn fuel (read_on ms (open_at r queue))) (received ms)
unfolding read_on iterate next loop add_chunk
turn-read_on fuel [] queue r h = (refl, refl, refl)
turn-read_on fuel (http_disconnect ∷ ms) queue r h = (refl, refl, refl)
turn-read_on fuel (other_message ∷ ms) queue r h = turn-read_on fuel ms queue r (omega arith)
turn-read_on fuel (http_request b more_body ∷ ms) queue r h =
    by_case fuel (get [] b) (get false more_body) h (λ n l. turn-read_on n ms ms r l)
  where
    consumed : Bool → Request
    consumed c = record r { incoming = ms; stream_consumed = c }

    by_rest : Bool → Str → Received
    by_rest more chunk = elim more [
      | true ↦ prepend chunk (received ms)
      | false ↦ record { text = chunk; end = done tt; rest = ms }
    ]

    by_case :
        (fuel : ℕ) (chunk : Str) (more : Bool)
        → suc (length ms) + 2 ≤ fuel
        → ((n : ℕ) → length ms + 2 ≤ n → Gave r (turn n (read_on ms (open_at r ms))) (received ms))
        → Gave r
            (turn fuel (elim chunk [
              | [] ↦ (elim more as (λ m. Next) [
                | true ↦ read_on ms (consumed (not more))
                | false ↦ (done (some []), (finished, consumed (not more)))
              ])
              | x ∷ xs ↦ (done (some (x ∷ xs)), (in_loop, consumed (not more)))
            ]))
            (by_rest more chunk)
    by_case fuel [] true h ih = ih fuel (omega arith)
    by_case (suc fuel) [] false h ih = (refl, refl, refl)
    by_case (suc fuel) (x ∷ xs) true h ih =
        add_chunk-Gave r (x ∷ xs) (turn fuel (read_on ms (open_at r ms))) (received ms)
          (ih fuel (omega arith))
    by_case (suc (suc fuel)) (x ∷ xs) false h ih = (append-nil (x ∷ xs), refl, refl)
    by_case (suc zero) (x ∷ xs) false h ih = absurd (omega arith)
    by_case zero chunk more h ih = absurd (omega arith)

-- what `body` gives, once the stream has been read
abbrev pub answer : Request → Received → Call Str × Request
answer r d = elim d.end [
  | done u ↦ (done d.text, record (after r d) { saved_body = some (Received.text d) })
  | raised exc ↦ (raised exc, after r d)
  | blocked ↦ (blocked, after r d)
]

save_body-Gave :
    (r : Request) (s : Option Stream) (d : Received)
    → Gave r s d
    → (elim s [ none ↦ none | some s ↦ some (save_body s) ]) ≡ some (answer r d)
unfolding save_body
save_body-Gave r none d h = absurd h
save_body-Gave r (some s) d (t, e, q) = λ i. some (saved (e i) (t i) (q i))
  where
    saved : Call (Unit {0}) → Str → Request → Call Str × Request
    saved end text r = elim end [
      | done u ↦ (done text, record r { saved_body = some text })
      | raised exc ↦ (raised exc, r)
      | blocked ↦ (blocked, r)
    ]

-- The stream of a request of which nothing was read gives what the messages hold.
stream_all-Gave :
    (r : Request)
    → r.saved_body ≡ none
    → r.stream_consumed ≡ false
    → Gave r (stream_all r) (received r.incoming)
unfolding stream_all iterate next loop
stream_all-Gave r b c =
    subst (λ q. Gave q (stream_all q) (received r.incoming))
      (λ i. record r { saved_body = sym b i; stream_consumed = sym c i })
      (turn-read_on (suc (suc (length r.incoming))) r.incoming r.incoming new (omega arith))
  where
    new : Request
    new = record r { saved_body = none; stream_consumed = false }

-- Where no body was read before, `body` gives the bodies that the messages have up to the first one
-- without `more_body`, put together, and keeps them, and the rest of the messages stays with the
-- server; a disconnect before that one raises `ClientDisconnect`; and without such a message the
-- call waits for ever.
pub body_lem :
    (r : Request)
    → r.saved_body ≡ none
    → r.stream_consumed ≡ false
    → body r ≡ some (answer r (received r.incoming))
unfolding body stream_all iterate next loop
body_lem r b c =
    subst (λ q. body q ≡ some (answer q (received r.incoming)))
      (λ i. record r { saved_body = sym b i; stream_consumed = sym c i })
      (save_body-Gave new (turn fuel (read_on r.incoming new)) (received r.incoming)
        (turn-read_on fuel r.incoming r.incoming new (omega arith)))
  where
    new : Request
    new = record r { saved_body = none; stream_consumed = false }

    fuel : ℕ
    fuel = suc (suc (length r.incoming))

-- What `body` returned once it returns again, and an iteration over the stream gives it as one chunk
-- with an empty one behind it; neither asks the server for a message.
pub body-body :
    (r r' : Request) (text : Str)
    → body r ≡ some (done text, r')
    → (body r' ≡ some (done text, r'))
      × (stream_all r' ≡ some (record { chunks = text ∷ [] ∷ []; end = done tt; request = r' }))
unfolding body stream_all iterate next add_chunk save_body
body-body r r' text h = ground (arith, kept)
  where
    from_stream : (s : Stream) → save_body s ≡ (done text, r') → r'.saved_body ≡ some text
    from_stream s e = ground arith

    by_saved :
        (saved : Option Str) (s : Option Stream)
        → (elim saved [
          | some b ↦ some (done b, r)
          | none ↦ elim s [ none ↦ none | some s ↦ some (save_body s) ]
        ])
          ≡ some (done text, r')
        → saved ≡ r.saved_body
        → r'.saved_body ≡ some text
    by_saved none none h e = cc
    by_saved none (some s) h e = from_stream s cc
    by_saved (some b) s h e = ground arith

    kept : r'.saved_body ≡ some text
    kept = by_saved r.saved_body (stream_all r) h refl

-- where the flag is set
raises_again :
    (r : Request)
    → r.saved_body ≡ none
    → r.stream_consumed ≡ true
    → (body r ≡ some (raised runtime_error, r))
      × (stream_all r ≡ some (record { chunks = []; end = raised runtime_error; request = r }))
unfolding body stream_all iterate next save_body
raises_again r b c = ground (arith, b, c)

after_done :
    (r : Request) (d : Received)
    → d.end ≡ done tt
    → ((after r d).saved_body ≡ r.saved_body) × ((after r d).stream_consumed ≡ true)
after_done r d e = ground (arith, e)

-- what reading a whole stream sets
done-Gave :
    (r : Request) (s : Stream) (d : Received)
    → Gave r (some s) d
    → r.saved_body ≡ none
    → s.end ≡ done tt
    → ((Stream.request s).saved_body ≡ none) × ((Stream.request s).stream_consumed ≡ true)
done-Gave r s d (t, e, q) b k =
    let (kept, flag) = after_done r d (sym e ∙ k) in
    (
      ap (λ (n : Request). n.saved_body) q ∙ kept ∙ b,
      ap (λ (n : Request). n.stream_consumed) q ∙ flag,
    )

-- Where nothing was read before, and an iteration over the stream ends without an exception: then the
-- chunks are the bodies of the messages up to the first one without `more_body`, and every further
-- iteration and every call of `body` raises `RuntimeError` and changes nothing.
pub stream-consumed :
    (r : Request) (s : Stream)
    → r.saved_body ≡ none
    → r.stream_consumed ≡ false
    → stream_all r ≡ some s
    → s.end ≡ done tt
    → (concat s.chunks ≡ Received.text (received r.incoming))
      × (body (Stream.request s) ≡ some (raised runtime_error, Stream.request s))
      × (stream_all (Stream.request s)
          ≡ some (record { chunks = []; end = raised runtime_error; request = Stream.request s }))
stream-consumed r s b c e k =
    let gave : Gave r (some s) (received r.incoming) =
      subst (λ o. Gave r o (received r.incoming)) e (stream_all-Gave r b c) in
    let (kept, flag) = done-Gave r s (received r.incoming) gave b k in
    let (again, more) = raises_again (Stream.request s) kept flag in (gave.0, again, more)
