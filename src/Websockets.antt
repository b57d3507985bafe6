-- ===== src/Websockets.antt =====
-- `WebSocket` of starlette/websockets.py.
--
-- The server is a queue of the messages that it hands over and the list of those that it took. The
-- connection can be lost: after `budget` messages every further one raises `OSError`.
pub mod Protocol
pub mod Safety
pub mod Laws
mod Tests
use starlette.Prelude.{
  ℕ, zero, suc, Bool, true, false, not, ◌||◌, Option, none, some, List, [], ◌∷◌, ◌++◌,
  if◌then◌else◌,
}
use starlette.Prelude.Text.{Str}
use starlette.Prelude.Result.{
  Error, Result, ok, raise, key_error, runtime_error, os_error, websocket_disconnect,
}

pub data WebSocketState : Type 0 where
  connecting connected disconnected response : WebSocketState

-- messages from the server
pub data Received : Type 0 where
  connect : Received
  -- `websocket.receive`, with the keys `text` and `bytes` that it has
  receive_data : Option Str → Option Str → Received
  -- `websocket.disconnect`, with its code
  disconnect : ℕ → Received
  -- a message of another type
  unknown : Received

-- messages to the server
pub data Sent : Type 0 where
  -- the subprotocol
  accept_message : Option Str → Sent
  send_text_message send_bytes_message : Str → Sent
  -- the code and the reason
  close_message : ℕ → Str → Sent
  -- `websocket.http.response.start` with its status, and `.body` with `more_body`
  response_start : ℕ → Sent
  response_body : Str → Bool → Sent
  -- a message of another type
  other_message : Sent

pub record WebSocket : Type 0 where
  pub client_state : WebSocketState
  pub application_state : WebSocketState
  -- the server
  pub incoming : List Received
  pub outgoing : List Sent
  pub budget : ℕ

-- `WebSocket(scope, receive, send)`, on a server
pub init : List Received → ℕ → WebSocket
init incoming budget = record {
  client_state = connecting;
  application_state = connecting;
  incoming = incoming;
  outgoing = [];
  budget = budget;
}

-- What an awaited call comes to: a value, an exception, or a wait for a message that does not come.
pub data Call {ℓ} (A : Type ℓ) : Type ℓ where
  done : A → Call A
  raised : Error → Call A
  blocked : Call A

abbrev pub Async : Type 0 → Type 0
Async A = WebSocket → Call A × WebSocket

module _ {A B : Type 0} where
  abbrev pub continue : Call A → (A → Async B) → Async B
  continue (done a) f ws = f a ws
  continue (raised e) f ws = (raised e, ws)
  continue blocked f ws = (blocked, ws)

  infixl 5 ◌>>=◌ ◌>>◌
  abbrev pub ◌>>=◌ : Async A → (A → Async B) → Async B
  ◌>>=◌ m f ws = let (r, ws') = m ws in continue r f ws'

  abbrev pub ◌>>◌ : Async A → Async B → Async B
  m >> k = m >>= λ _. k

abbrev pub pure : {A : Type 0} → A → Async A
pure a ws = (done a, ws)

abbrev pub fail : {A : Type 0} → Error → Async A
fail e ws = (raised e, ws)

-- `await self._receive()`
unfoldable pub server_receive : Async Received
server_receive ws = elim ws.incoming [
  | [] ↦ (blocked, ws)
  | message ∷ rest ↦ (done message, record ws { incoming = rest })
]

-- `await self._send(message)`
unfoldable pub server_send : Sent → Async (Unit {0})
server_send message ws = elim ws.budget [
  | zero ↦ (raised os_error, ws)
  | suc left ↦ (done tt, record ws { outgoing = ws.outgoing ++ message ∷ []; budget = left })
]

abbrev pub set_client : WebSocketState → Async (Unit {0})
set_client state ws = (done tt, record ws { client_state = state })

abbrev pub set_application : WebSocketState → Async (Unit {0})
set_application state ws = (done tt, record ws { application_state = state })

pub receive_connect : Received → Async Received
receive_connect connect = set_client connected >> pure connect
receive_connect message = fail runtime_error

pub receive_connected : Received → Async Received
receive_connected (receive_data text bytes) = pure (receive_data text bytes)
receive_connected (disconnect code) = set_client disconnected >> pure (disconnect code)
receive_connected message = fail runtime_error

unfoldable pub receive : Async Received
unfolding receive_connect receive_connected server_receive
receive ws = elim ws.client_state [
  | connecting ↦ (server_receive >>= receive_connect) ws
  | connected ↦ (server_receive >>= receive_connected) ws
  | disconnected ↦ (raised runtime_error, ws)
  | response ↦ (raised runtime_error, ws)
]

pub send_connecting : Sent → Async (Unit {0})
send_connecting (accept_message subprotocol) =
    set_application connected >> server_send (accept_message subprotocol)
send_connecting (close_message code reason) =
    set_application disconnected >> server_send (close_message code reason)
send_connecting (response_start status) =
    set_application response >> server_send (response_start status)
send_connecting message = fail runtime_error

-- `except OSError`
pub on_os_error : Call (Unit {0}) → Async (Unit {0})
on_os_error (raised os_error) = set_application disconnected >> fail (websocket_disconnect 1006)
on_os_error r = λ ws. (r, ws)

pub try_send : Sent → Async (Unit {0})
unfolding on_os_error
try_send message ws = let (r, ws') = server_send message ws in on_os_error r ws'

pub send_connected : Sent → Async (Unit {0})
unfolding try_send
send_connected (send_text_message text) = try_send (send_text_message text)
send_connected (send_bytes_message bytes) = try_send (send_bytes_message bytes)
send_connected (close_message code reason) =
    set_application disconnected >> try_send (close_message code reason)
send_connected message = fail runtime_error

pub send_response : Sent → Async (Unit {0})
send_response (response_body body false) =
    set_application disconnected >> server_send (response_body body false)
send_response (response_body body true) = server_send (response_body body true)
send_response message = fail runtime_error

unfoldable pub send : Sent → Async (Unit {0})
unfolding send_connecting send_connected send_response server_send
send message ws = elim ws.application_state [
  | connecting ↦ send_connecting message ws
  | connected ↦ send_connected message ws
  | response ↦ send_response message ws
  | disconnected ↦ (raised runtime_error, ws)
]

unfoldable pub accept : Option Str → Async (Unit {0})
unfolding send receive
accept subprotocol ws = elim ws.client_state [
  | connecting ↦ (receive >>= λ _. send (accept_message subprotocol)) ws
  | other ↦ send (accept_message subprotocol) ws
]

pub raise_on_disconnect : Received → Async (Unit {0})
raise_on_disconnect (disconnect code) = fail (websocket_disconnect code)
raise_on_disconnect message = pure tt

pub text_of : Received → Async Str
text_of (receive_data (some text) bytes) = pure text
text_of message = fail key_error

pub bytes_of : Received → Async Str
bytes_of (receive_data text (some bytes)) = pure bytes
bytes_of message = fail key_error

-- `receive_text` and `receive_bytes` differ in the key that they read
pub receive_with : (Received → Async Str) → Async Str
unfolding receive raise_on_disconnect
receive_with read ws = elim ws.application_state [
  | connected ↦ (receive >>= λ message. (raise_on_disconnect message >> read message)) ws
  | other ↦ (raised runtime_error, ws)
]

unfoldable pub receive_text : Async Str
unfolding receive_with text_of
receive_text = receive_with text_of

unfoldable pub receive_bytes : Async Str
unfolding receive_with bytes_of
receive_bytes = receive_with bytes_of

unfoldable pub send_text : Str → Async (Unit {0})
unfolding send
send_text text = send (send_text_message text)

unfoldable pub send_bytes : Str → Async (Unit {0})
unfolding send
send_bytes bytes = send (send_bytes_message bytes)

unfoldable pub close : ℕ → Option Str → Async (Unit {0})
unfolding send
close code reason = send (close_message code (elim reason [ none ↦ [] | some r ↦ r ]))
