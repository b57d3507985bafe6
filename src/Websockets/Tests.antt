-- ===== src/Websockets/Tests.antt =====
-- Conversations over a `WebSocket` of starlette/websockets.py.
use starlette.Prelude.{List, [], ◌∷◌, some, none}
use starlette.Prelude.Text.{codes}
use starlette.Websockets.{connected, connect, receive_data, disconnect, WebSocket, init}
use starlette.Websockets.Protocol.{Conforms}
use starlette.Websockets.Safety.{
  Method, call_accept, call_receive_text, call_send_text, call_close, after_all, after_all-Conforms,
}

abbrev echo : List Method
echo =
    call_accept none
    ∷ call_receive_text
    ∷ call_send_text (codes "hello")
    ∷ call_close 1000 none
    ∷ call_send_text (codes "late")
    ∷ []

-- The connection is lost behind the second message.
after_all-Conforms_example :
    Conforms
      (after_all echo (init (connect ∷ receive_data (some (codes "hi")) none ∷ []) 2)).outgoing
after_all-Conforms_example =
    after_all-Conforms echo (connect ∷ receive_data (some (codes "hi")) none ∷ []) 2

abbrev opened : WebSocket
opened = record {
  client_state = connected;
  application_state = connected;
  incoming = receive_data (some (codes "hi")) none ∷ disconnect 1001 ∷ [];
  outgoing = [];
  budget = 4;
}
