-- ===== src/Middleware/Base/Laws.antt =====
-- A response that goes through a `BaseHTTPMiddleware`, in starlette/middleware/base.py.
use starlette.Prelude.{
  ℕ, ◌≡◌, refl, ap, ◌∙◌, Bool, true, false, Option, none, some, List, [], ◌∷◌, ◌++◌, map,
  append-nil, All, if◌then◌else◌,
}
use starlette.Prelude.Text.{Str}
use starlette.Prelude.Result.{Error, ok}
use starlette.Datastructures.Headers.{RawHeaders}
use starlette.Middleware.Base.{
  Message, start, body, Chunk, bytes, StreamingResponse, yield_body, has_more, body_stream, started,
  after_debug, call_next, already_raised, closes_body, send_chunks, send_debug, respond,
  raise_again, finish, call,
}

-- a body with its `more_body`
abbrev pub Body : Type 0
Body = Option Str × Option Bool

abbrev pub to_message : Body → Message
to_message b = body b.0 b.1

abbrev text_or_empty : Option Str → Str
text_or_empty none = []
text_or_empty (some s) = s

-- the bytes that an application means to send: those up to the first body that is the last one
pub body_text : List Body → Str
body_text [] = []
body_text ((b, some true) ∷ bs) = text_or_empty b ++ body_text bs
body_text ((b, more_body) ∷ bs) = text_or_empty b

abbrev pub concat : List Str → Str
concat [] = []
concat (s ∷ ss) = s ++ concat ss

-- what `if body: yield body` yields
abbrev yielded : Option Str → List Str → List Str
yielded none ss = ss
yielded (some []) ss = ss
yielded (some (c ∷ s)) ss = (c ∷ s) ∷ ss

chunks_of : List Body → List Str
unfolding has_more
chunks_of [] = []
chunks_of ((b, more_body) ∷ bs) = yielded b (if has_more more_body then chunks_of bs else [])

abbrev as_chunks : List Str → List Chunk × Option Error
as_chunks ss = (map bytes ss, none)

yield_body-as_chunks :
    (b : Option Str) (ss : List Str) → yield_body b (as_chunks ss) ≡ as_chunks (yielded b ss)
unfolding yield_body
yield_body-as_chunks none ss = refl
yield_body-as_chunks (some []) ss = refl
yield_body-as_chunks (some (c ∷ s)) ss = refl

body_stream_lem : (bs : List Body) → body_stream (map to_message bs) ≡ as_chunks (chunks_of bs)
unfolding body_stream chunks_of has_more
body_stream_lem [] = refl
body_stream_lem ((b, none) ∷ bs) = yield_body-as_chunks b []
body_stream_lem ((b, some false) ∷ bs) = yield_body-as_chunks b []
body_stream_lem ((b, some true) ∷ bs) =
    ap (yield_body b) (body_stream_lem bs) ∙ yield_body-as_chunks b (chunks_of bs)

concat-yielded :
    (b : Option Str) (ss : List Str) → concat (yielded b ss) ≡ text_or_empty b ++ concat ss
concat-yielded none ss = refl
concat-yielded (some []) ss = refl
concat-yielded (some (c ∷ s)) ss = refl

concat-chunks_of : (bs : List Body) → concat (chunks_of bs) ≡ body_text bs
unfolding chunks_of body_text has_more
concat-chunks_of [] = refl
concat-chunks_of ((b, none) ∷ bs) = concat-yielded b [] ∙ append-nil (text_or_empty b)
concat-chunks_of ((b, some false) ∷ bs) = concat-yielded b [] ∙ append-nil (text_or_empty b)
concat-chunks_of ((b, some true) ∷ bs) =
    concat-yielded b (chunks_of bs) ∙ ap (λ r. text_or_empty b ++ r) (concat-chunks_of bs)

pub NonEmpty : Str → Type 0
NonEmpty s = ¬ (s ≡ [])

yielded-NonEmpty : (b : Option Str) (ss : List Str) → All NonEmpty ss → All NonEmpty (yielded b ss)
unfolding NonEmpty
yielded-NonEmpty none ss a = a
yielded-NonEmpty (some []) ss a = a
yielded-NonEmpty (some (c ∷ s)) ss a = (λ e. cc, a)

chunks_of-NonEmpty : (bs : List Body) → All NonEmpty (chunks_of bs)
unfolding chunks_of has_more
chunks_of-NonEmpty [] = tt
chunks_of-NonEmpty ((b, none) ∷ bs) = yielded-NonEmpty b [] tt
chunks_of-NonEmpty ((b, some false) ∷ bs) = yielded-NonEmpty b [] tt
chunks_of-NonEmpty ((b, some true) ∷ bs) = yielded-NonEmpty b (chunks_of bs) (chunks_of-NonEmpty bs)

send_chunks-map :
    (ss : List Str) → send_chunks (map bytes ss) ≡ map (λ s. body (some s) (some true)) ss
unfolding send_chunks
send_chunks-map [] = refl
send_chunks-map (s ∷ ss) = ap (λ r. body (some s) (some true) ∷ r) (send_chunks-map ss)

closes_body-map : (ss : List Str) → closes_body (map bytes ss) ≡ true
unfolding closes_body
closes_body-map [] = refl
closes_body-map (s ∷ ss) = closes_body-map ss

raise_again-false : (exc : Option Error) → raise_again exc false ≡ exc
unfolding raise_again
raise_again-false none = refl
raise_again-false (some e) = refl

abbrev pub response_to : Option Str → ℕ → RawHeaders → List Body → List Message
response_to info status_code headers bs =
    send_debug info ++ start status_code headers ∷ map to_message bs

abbrev pub forwarded : Option Str → ℕ → RawHeaders → List Str → List Message
forwarded info status_code headers chunks =
    send_debug info
    ++ start status_code headers ∷ map (λ s. body (some s) (some true)) chunks
    ++ body (some []) (some false) ∷ []

module _ (status_code : ℕ) (headers : RawHeaders) (bs : List Body) (app_exc : Option Error) where
  abbrev response : Option Str → StreamingResponse
  response info = record {
    info = info;
    status_code = status_code;
    raw_headers = headers;
    chunks = map bytes (chunks_of bs);
    failure = none;
  }

  started-response :
      (info : Option Str)
      → started info (start status_code headers) (map to_message bs) ≡ ok (response info)
  unfolding started
  started-response info =
      ap
        (λ (p : List Chunk × Option Error). ok (record {
          info = info;
          status_code = status_code;
          raw_headers = headers;
          chunks = p.0;
          failure = p.1;
        }))
        (body_stream_lem bs)

  call_next-response_to :
      (info : Option Str)
      → call_next (response_to info status_code headers bs) app_exc ≡ ok (response info)
  unfolding call_next after_debug send_debug
  call_next-response_to none = started-response none
  call_next-response_to (some i) = started-response (some i)

  already_raised-response_to :
      (info : Option Str) → already_raised (response_to info status_code headers bs) ≡ false
  unfolding already_raised send_debug
  already_raised-response_to none = refl
  already_raised-response_to (some i) = refl

  respond-response :
      (info : Option Str)
      → respond (response info) ≡ (forwarded info status_code headers (chunks_of bs), none)
  unfolding respond send_debug
  respond-response none =
      rw (closes_body-map (chunks_of bs)) (rw (send_chunks-map (chunks_of bs)) refl)
  respond-response (some i) =
      rw (closes_body-map (chunks_of bs)) (rw (send_chunks-map (chunks_of bs)) refl)

  finish-response :
      (info : Option Str)
      → finish (ok (response info)) app_exc false
        ≡ (forwarded info status_code headers (chunks_of bs), app_exc)
  unfolding finish
  finish-response info =
      ap
        (λ (p : List Message × Option Error). (
          p.0,
          elim p.1 as (λ e. Option Error) [ some e ↦ some e | none ↦ raise_again app_exc false ],
        ))
        (respond-response info)
      ∙ ap (λ e. (forwarded info status_code headers (chunks_of bs), e)) (raise_again-false app_exc)

  -- A request goes through a `BaseHTTPMiddleware` whose `dispatch` is `call_next`. Whatever bodies the
  -- application sends after its start, with a debug message before it or not, and whether it ends
  -- with an exception or not: the server gets the same debug message and the same start; then bodies
  -- that are not empty, each with `more_body` set, with the bytes of the application's bodies up to
  -- the first without `more_body`; then one empty body that says that no other follows, even where
  -- the application was to send more. The exception of the application is raised behind that.
  pub call-response_to :
      (info : Option Str)
      → (chunks : List Str) × (call
            (λ response. response)
            (response_to info status_code headers bs)
            app_exc
          ≡ (forwarded info status_code headers chunks, app_exc))
        × (concat chunks ≡ body_text bs)
        × All NonEmpty chunks
  unfolding call
  call-response_to info = (
    chunks_of bs,
    ap (λ r. finish r app_exc (already_raised (response_to info status_code headers bs)))
          (call_next-response_to info)
        ∙ ap (finish (ok (response info)) app_exc) (already_raised-response_to info)
        ∙ finish-response info,
    concat-chunks_of bs,
    chunks_of-NonEmpty bs,
  )
