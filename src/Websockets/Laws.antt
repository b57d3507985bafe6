-- ===== src/Websockets/Laws.antt =====
-- The states of a `WebSocket`: what each call answers after the end of a conversation, and how a
-- message is read.
use starlette.Prelude.{◌≡◌, refl, subst, sym, none, some, List, [], ◌∷◌, arith}
use starlette.Prelude.Text.{Str}
use starlette.Prelude.Result.{runtime_error, key_error, websocket_disconnect}
use starlette.Websockets.{
  connected, disconnected, Received, receive_data, connect, disconnect, unknown, Sent, WebSocket,
  Call, done, raised, blocked, receive, send, receive_text,
}

-- No message is taken from the server once a disconnect message has been received, and none is
-- handed to it once a close message has been sent: the call raises and nothing changes.
pub ended :
    (ws : WebSocket) (m : Sent)
    → (ws.client_state ≡ disconnected → receive ws ≡ (raised runtime_error, ws))
      × (ws.application_state ≡ disconnected → send m ws ≡ (raised runtime_error, ws))
unfolding receive send
ended ws m = (λ h. ground arith, λ h. ground arith)

-- the texts of the messages that come before the first message without a text
abbrev pub Reads : List Received → Call Str → List Received → Type 0
Reads [] r rest = (r ≡ blocked) × (rest ≡ [])
Reads (receive_data (some text) bytes ∷ ms) r rest = (r ≡ done text) × (rest ≡ ms)
Reads (receive_data none bytes ∷ ms) r rest = (r ≡ raised key_error) × (rest ≡ ms)
Reads (disconnect code ∷ ms) r rest = (r ≡ raised (websocket_disconnect code)) × (rest ≡ ms)
Reads (connect ∷ ms) r rest = (r ≡ raised runtime_error) × (rest ≡ ms)
Reads (unknown ∷ ms) r rest = (r ≡ raised runtime_error) × (rest ≡ ms)

-- On an open connection `receive_text` takes one message, in the order of the server: it returns
-- the text of a data message and raises `KeyError` where that has none, `WebSocketDisconnect` with
-- the code of a disconnect message, and `RuntimeError` at any other message.
pub receive_text_lem :
    (ws : WebSocket)
    → ws.client_state ≡ connected
    → ws.application_state ≡ connected
    → Reads ws.incoming (receive_text ws).0 (receive_text ws).1.incoming
unfolding receive_text receive
receive_text_lem ws c a =
    subst (λ w. Reads ws.incoming (receive_text w).0 (receive_text w).1.incoming) same
      (by_queue ws.incoming)
  where
    open_with : List Received → WebSocket
    open_with queue = record ws {
      client_state = connected;
      application_state = connected;
      incoming = queue;
    }

    same : open_with ws.incoming ≡ ws
    same = λ i. record ws { client_state = sym c i; application_state = sym a i }

    by_queue :
        (queue : List Received)
        → Reads queue (receive_text (open_with queue)).0 (receive_text (open_with queue)).1.incoming
    by_queue [] = (refl, refl)
    by_queue (receive_data (some text) bytes ∷ ms) = (refl, refl)
    by_queue (receive_data none bytes ∷ ms) = (refl, refl)
    by_queue (disconnect code ∷ ms) = (refl, refl)
    by_queue (connect ∷ ms) = (refl, refl)
    by_queue (unknown ∷ ms) = (refl, refl)
