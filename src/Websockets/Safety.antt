-- ===== src/Websockets/Safety.antt =====
-- `WebSocket` keeps to the protocol whatever the application calls.
use starlette.Prelude.{
  ℕ, zero, suc, ◌≡◌, refl, inl, inr, ◌⊎◌, true, false, Option, List, [], ◌∷◌, ◌++◌, arith,
}
use starlette.Prelude.Text.{Str}
use starlette.Websockets.{
  WebSocketState, connecting, connected, disconnected, response, Received, Sent, accept_message,
  send_text_message, send_bytes_message, close_message, response_start, response_body, WebSocket,
  init, Call, done, raised, blocked, server_send, receive, send, accept, receive_text,
  receive_bytes, send_text, send_bytes, close, continue, try_send, send_connecting, send_connected,
  send_response,
}
use starlette.Websockets.Protocol.{
  Conforms, Tracks, IsValid, IsOpen-snoc, IsOpen-Conforms, IsOpen-close, IsStarted-snoc,
  IsStarted-Conforms,
}

-- a message that fits what was sent before, and the state that is set beforehand
module _ (m : Sent) (ws : WebSocket) (before : WebSocketState) (c : Conforms ws.outgoing) where
  abbrev Step : Type 0
  Step =
      Tracks before ws.outgoing
      → Conforms (ws.outgoing ++ m ∷ []) × Tracks ws.application_state (ws.outgoing ++ m ∷ [])

  abbrev Lost : ℕ → Type 0
  Lost n = (n ≡ 0) ⊎ Tracks before ws.outgoing

  server_send_at : (n : ℕ) → Lost n → Step → IsValid (server_send m (record ws { budget = n })).1
  unfolding server_send
  server_send_at zero t step = record { conforms = c; tracks = inl refl }
  server_send_at (suc n) (inl z) step = absurd (omega arith)
  server_send_at (suc n) (inr t) step = record { conforms = (step t).0; tracks = inr (step t).1 }

  server_send-IsValid : Lost ws.budget → Step → IsValid (server_send m ws).1
  server_send-IsValid = server_send_at ws.budget

  try_send_at : (n : ℕ) → Lost n → Step → IsValid (try_send m (record ws { budget = n })).1
  unfolding server_send try_send
  try_send_at zero t step = record { conforms = c; tracks = inl refl }
  try_send_at (suc n) (inl z) step = absurd (omega arith)
  try_send_at (suc n) (inr t) step = record { conforms = (step t).0; tracks = inr (step t).1 }

  try_send-IsValid : Lost ws.budget → Step → IsValid (try_send m ws).1
  try_send-IsValid = try_send_at ws.budget

-- the web socket in a given state
abbrev at : WebSocketState → WebSocket → WebSocket
at state ws = record ws { application_state = state }

send_connecting-IsValid :
    (m : Sent) (ws : WebSocket)
    → IsValid (at connecting ws)
    → IsValid (send_connecting m (at connecting ws)).1
unfolding send_connecting
send_connecting-IsValid (accept_message s) ws v =
    server_send-IsValid (accept_message s) (at connected ws) connecting v.conforms v.tracks
      (λ e. rw e (tt, tt))
send_connecting-IsValid (close_message code reason) ws v =
    server_send-IsValid (close_message code reason) (at disconnected ws) connecting v.conforms
      v.tracks (λ e. rw e (refl, tt))
send_connecting-IsValid (response_start s) ws v =
    server_send-IsValid (response_start s) (at response ws) connecting v.conforms v.tracks
      (λ e. rw e (tt, tt))
send_connecting-IsValid _ ws v = v

send_connected-IsValid :
    (m : Sent) (ws : WebSocket)
    → IsValid (at connected ws)
    → IsValid (send_connected m (at connected ws)).1
unfolding send_connected
send_connected-IsValid (send_text_message text) ws v =
    try_send-IsValid (send_text_message text) (at connected ws) connected v.conforms v.tracks (λ o.
      let o' = IsOpen-snoc ws.outgoing (send_text_message text) o tt in
      (IsOpen-Conforms (ws.outgoing ++ send_text_message text ∷ []) o', o'))
send_connected-IsValid (send_bytes_message bytes) ws v =
    try_send-IsValid (send_bytes_message bytes) (at connected ws) connected v.conforms v.tracks
      (λ o.
        let o' = IsOpen-snoc ws.outgoing (send_bytes_message bytes) o tt in
        (IsOpen-Conforms (ws.outgoing ++ send_bytes_message bytes ∷ []) o', o'))
send_connected-IsValid (close_message code reason) ws v =
    try_send-IsValid (close_message code reason) (at disconnected ws) connected v.conforms v.tracks
      (λ o. (IsOpen-close ws.outgoing code reason o, tt))
send_connected-IsValid _ ws v = v

send_response-IsValid :
    (m : Sent) (ws : WebSocket)
    → IsValid (at response ws)
    → IsValid (send_response m (at response ws)).1
unfolding send_response
send_response-IsValid (response_body body false) ws v =
    server_send-IsValid (response_body body false) (at disconnected ws) response v.conforms v.tracks
      (λ h. (IsStarted-Conforms ws.outgoing body false h, tt))
send_response-IsValid (response_body body true) ws v =
    server_send-IsValid (response_body body true) (at response ws) response v.conforms v.tracks
      (λ h. (IsStarted-Conforms ws.outgoing body true h, IsStarted-snoc ws.outgoing body h))
send_response-IsValid _ ws v = v

pub send-IsValid : (m : Sent) (ws : WebSocket) → IsValid ws → IsValid (send m ws).1
unfolding send
send-IsValid m ws = by_state ws.application_state
  where
    by_state : (state : WebSocketState) → IsValid (at state ws) → IsValid (send m (at state ws)).1
    by_state connecting v = send_connecting-IsValid m ws v
    by_state connected v = send_connected-IsValid m ws v
    by_state response v = send_response-IsValid m ws v
    by_state disconnected v = v

-- Reading touches only the queue of the server and `client_state`.
receive_unchanged :
    (ws : WebSocket)
    → ((receive ws).1.outgoing ≡ ws.outgoing)
      × ((receive ws).1.budget ≡ ws.budget)
      × ((receive ws).1.application_state ≡ ws.application_state)
unfolding receive
receive_unchanged ws = ground arith

receive_text_unchanged :
    (ws : WebSocket)
    → ((receive_text ws).1.outgoing ≡ ws.outgoing)
      × ((receive_text ws).1.budget ≡ ws.budget)
      × ((receive_text ws).1.application_state ≡ ws.application_state)
unfolding receive_text
receive_text_unchanged ws = ground (arith, receive_unchanged ws)

receive_bytes_unchanged :
    (ws : WebSocket)
    → ((receive_bytes ws).1.outgoing ≡ ws.outgoing)
      × ((receive_bytes ws).1.budget ≡ ws.budget)
      × ((receive_bytes ws).1.application_state ≡ ws.application_state)
unfolding receive_bytes
receive_bytes_unchanged ws = ground (arith, receive_unchanged ws)

IsValid-of_unchanged :
    (a b : WebSocket)
    → (b.outgoing ≡ a.outgoing)
      × (b.budget ≡ a.budget)
      × (b.application_state ≡ a.application_state)
    → IsValid a
    → IsValid b
IsValid-of_unchanged a b (o, n, s) v = record {
  conforms = rw o v.conforms;
  tracks = rw (n, s, o) v.tracks;
}

pub receive-IsValid : (ws : WebSocket) → IsValid ws → IsValid (receive ws).1
receive-IsValid ws = IsValid-of_unchanged ws _ (receive_unchanged ws)

accept-IsValid : (s : Option Str) (ws : WebSocket) → IsValid ws → IsValid (accept s ws).1
unfolding accept
accept-IsValid s ws = by_state ws.client_state
  where
    client : WebSocketState → WebSocket
    client state = record ws { client_state = state }

    then_send :
        (r : Call Received) (ws' : WebSocket)
        → IsValid ws'
        → IsValid (continue r (λ _. send (accept_message s)) ws').1
    then_send (done m) ws' v = send-IsValid (accept_message s) ws' v
    then_send (raised e) ws' v = v
    then_send blocked ws' v = v

    by_state :
        (state : WebSocketState) → IsValid (client state) → IsValid (accept s (client state)).1
    by_state connecting v =
        then_send (receive (client connecting)).0 _ (receive-IsValid (client connecting) v)
    by_state connected v = send-IsValid (accept_message s) (client connected) v
    by_state response v = send-IsValid (accept_message s) (client response) v
    by_state disconnected v = send-IsValid (accept_message s) (client disconnected) v

-- the calls that an application makes on a WebSocket
pub data Method : Type 0 where
  call_receive call_receive_text call_receive_bytes : Method
  call_send : Sent → Method
  call_accept : Option Str → Method
  call_send_text call_send_bytes : Str → Method
  call_close : ℕ → Option Str → Method

pub after : Method → WebSocket → WebSocket
after call_receive ws = (receive ws).1
after call_receive_text ws = (receive_text ws).1
after call_receive_bytes ws = (receive_bytes ws).1
after (call_send m) ws = (send m ws).1
after (call_accept s) ws = (accept s ws).1
after (call_send_text text) ws = (send_text text ws).1
after (call_send_bytes bytes) ws = (send_bytes bytes ws).1
after (call_close code reason) ws = (close code reason ws).1

after-IsValid : (c : Method) (ws : WebSocket) → IsValid ws → IsValid (after c ws)
unfolding after
after-IsValid call_receive ws v = receive-IsValid ws v
after-IsValid call_receive_text ws v = IsValid-of_unchanged ws _ (receive_text_unchanged ws) v
after-IsValid call_receive_bytes ws v = IsValid-of_unchanged ws _ (receive_bytes_unchanged ws) v
after-IsValid (call_send m) ws v = send-IsValid m ws v
after-IsValid (call_accept s) ws v = accept-IsValid s ws v
after-IsValid (call_send_text text) ws v =
    unfold send_text in send-IsValid (send_text_message text) ws v
after-IsValid (call_send_bytes bytes) ws v =
    unfold send_bytes in send-IsValid (send_bytes_message bytes) ws v
after-IsValid (call_close code reason) ws v =
    unfold close in send-IsValid (close_message code _) ws v

pub after_all : List Method → WebSocket → WebSocket
unfolding after
after_all [] ws = ws
after_all (c ∷ cs) ws = after_all cs (after c ws)

after_all-IsValid : (cs : List Method) (ws : WebSocket) → IsValid ws → IsValid (after_all cs ws)
unfolding after_all
after_all-IsValid [] ws v = v
after_all-IsValid (c ∷ cs) ws v = after_all-IsValid cs (after c ws) (after-IsValid c ws v)

-- Whatever an application calls on a new WebSocket, in any order, whatever the server sends and
-- whenever the connection is lost, the messages that the server took conform to the protocol: a
-- refusal; or an acceptance, data messages and at most one close message at the end; or the start of
-- a denial response and its body, whose last part is last.
pub after_all-Conforms :
    (cs : List Method) (incoming : List Received) (budget : ℕ)
    → Conforms (after_all cs (init incoming budget)).outgoing
unfolding init
after_all-Conforms cs incoming budget =
    let start : IsValid (init incoming budget) = record { conforms = tt; tracks = inr refl } in
    let v = after_all-IsValid cs (init incoming budget) start in v.conforms
