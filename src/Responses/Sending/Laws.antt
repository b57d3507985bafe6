-- ===== src/Responses/Sending/Laws.antt =====
-- What a server gets of a `StreamingResponse`, in starlette/responses.py.
use starlette.Prelude.{
  ℕ, zero, suc, ◌≡◌, refl, ap, Bool, true, false, Option, none, some, List, [], ◌∷◌, ◌++◌, map,
  length, append_assoc, append-nil, ◌∙◌, sym, take, leb, arith, if◌then◌else◌,
}
use starlette.Prelude.Text.{Str}
use starlette.Prelude.Result.{Error, os_error, client_disconnect}
use starlette.Datastructures.Headers.{RawHeaders}
use starlette.Websockets.{Call, done, raised, blocked}
use starlette.Responses.Sending.{
  Sent, start, body, Server, send, Content, encoded, After, raises, waits, background,
  stream_chunks, stream_response, disconnected, streaming_call,
}

-- the message behind the last chunk
abbrev last : Option Error → List Sent
last none = body false [] false ∷ []
last (some exc) = []

-- the bodies that a stream is to send
unfoldable pub chunk_messages : (Str → Str) → List Content → Option Error → List Sent
unfolding encoded
chunk_messages encode chunks end =
    map (λ chunk. body false (encoded encode chunk) true) chunks ++ last end

-- how the loop ends that could send everything
abbrev ended : Option Error → Call (Unit {0})
ended none = done tt
ended (some exc) = raised exc

take_nil : (n : ℕ) → take {A = Sent} n [] ≡ []
take_nil zero = refl
take_nil (suc n) = refl

abbrev pub at : ℕ → List Sent → Server
at n before = record { budget = n; sent = before }

-- what a run of `sends` comes to on a server that takes `n` messages more
record Gives (r : Call (Unit {0}) × Server) (n : ℕ) (before ms : List Sent) (q : Call (Unit {0}))
    : Type 0 where
  ends : r.0 ≡ (if leb (length ms) n then q else raised os_error)
  gets : r.1.sent ≡ before ++ take n ms

module _ (encode : Str → Str) where
  stream_chunks_lem :
      (chunks : List Content) (end : Option Error) (n : ℕ) (before : List Sent)
      → Gives
          (stream_chunks encode chunks end (at n before))
          n
          before
          (chunk_messages encode chunks end)
          (ended end)
  unfolding stream_chunks chunk_messages send
  stream_chunks_lem [] none zero before = record { ends = refl; gets = sym (append-nil before) }
  stream_chunks_lem [] none (suc n) before = record {
    ends = ground arith;
    gets = ap (λ r. before ++ body false [] false ∷ r) (sym (take_nil n));
  }
  stream_chunks_lem [] (some exc) zero before = record {
    ends = refl;
    gets = sym (append-nil before);
  }
  stream_chunks_lem [] (some exc) (suc n) before = record {
    ends = ground arith;
    gets = sym (append-nil before);
  }
  stream_chunks_lem (chunk ∷ chunks) end zero before = record {
    ends = ground arith;
    gets = sym (append-nil before);
  }
  stream_chunks_lem (chunk ∷ chunks) end (suc n) before =
      let message : Sent = body false (encoded encode chunk) true in
      let rest = stream_chunks_lem chunks end n (before ++ message ∷ []) in
      record {
        ends = rest.ends ∙ ground arith;
        gets =
            rest.gets
            ∙ append_assoc before (message ∷ []) (take n (chunk_messages encode chunks end));
      }

module _ {B : Type 0} (task : Option B) where
  -- the end of `__call__`
  answered : Call (Unit {0}) → After B
  answered (raised exc) = raises (disconnected exc)
  answered blocked = waits
  answered (done u) = background task

  abbrev answer : Call (Unit {0}) × Server → After B × Server
  answer p = elim p.0 [
    | raised exc ↦ (raises (disconnected exc), p.1)
    | blocked ↦ (waits, p.1)
    | done u ↦ (background task, p.1)
  ]

  answer_lem : (p : Call (Unit {0}) × Server) → answer p ≡ (answered p.0, p.1)
  unfolding answered
  answer_lem (raised exc, s) = refl
  answer_lem (blocked, s) = refl
  answer_lem (done u, s) = refl

  answered-ended :
      (end : Option Error) (b : Bool)
      → answered (if b then ended end else raised os_error) ≡ (
          if b
          then (elim end [ none ↦ background task | some exc ↦ raises (disconnected exc) ])
          else raises client_disconnect)
  unfolding answered disconnected
  answered-ended end false = refl
  answered-ended none true = refl
  answered-ended (some exc) true = refl

-- the messages of a whole `StreamingResponse`
abbrev pub messages : (Str → Str) → ℕ → RawHeaders → List Content → Option Error → List Sent
messages encode status_code raw_headers chunks end =
    start false status_code raw_headers ∷ chunk_messages encode chunks end

-- A `StreamingResponse` sends its start, each chunk encoded and in order with `more_body` set, and
-- a last empty message, as many of these as the server takes. If the server takes them all, then the
-- background task runs, or the exception of the body's iterator is raised, behind which no last
-- message comes, as a `ClientDisconnect` if it is an `OSError`. Else it raises `ClientDisconnect`,
-- and the task does not run.
pub streaming_call_lem :
    {B : Type 0} (encode : Str → Str) (status_code : ℕ) (raw_headers : RawHeaders)
    (chunks : List Content) (end : Option Error) (task : Option B) (n : ℕ) (before : List Sent)
    → (streaming_call encode status_code raw_headers chunks end task (at n before)).1.sent
        ≡ before ++ take n (messages encode status_code raw_headers chunks end)
      × ((streaming_call encode status_code raw_headers chunks end task (at n before)).0 ≡ (
          if leb (length (messages encode status_code raw_headers chunks end)) n
          then (elim end [ none ↦ background task | some exc ↦ raises (disconnected exc) ])
          else raises client_disconnect))
unfolding streaming_call stream_response send disconnected
streaming_call_lem encode status_code raw_headers chunks end task zero before =
    (sym (append-nil before), ground arith)
streaming_call_lem encode status_code raw_headers chunks end task (suc n) before =
    let message = start false status_code raw_headers in
    let rest = stream_chunks_lem encode chunks end n (before ++ message ∷ []) in
    (
      ap (λ q. q.1.sent)
            (answer_lem task (stream_chunks encode chunks end (at n (before ++ message ∷ []))))
          ∙ rest.gets
          ∙ append_assoc before (message ∷ []) (take n (chunk_messages encode chunks end)),
      ap (λ q. q.0)
            (answer_lem task (stream_chunks encode chunks end (at n (before ++ message ∷ []))))
          ∙ ap (answered task) rest.ends
          ∙ answered-ended task end (leb (length (chunk_messages encode chunks end)) n)
          ∙ ground arith,
    )
