-- ===== src/Endpoints/Tests.antt =====
-- Endpoints on concrete requests.
use starlette.Prelude.{
  ℕ, ◌≡◌, refl, Option, none, some, [], ◌∷◌, ◌++◌, map, ◌==◌, if◌then◌else◌, arith,
}
use starlette.Prelude.Text.{Str, codes, str_eq}
use starlette.Websockets.{connected, disconnected, send_text_message, send_text, Async, pure, done}
use starlette.Endpoints.{dispatch}
use starlette.Endpoints.Sessions
use starlette.Endpoints.Sessions.{text_encoding, Data, text_data, Packages, WebSocketEndpoint}
use starlette.Endpoints.Sessions.Laws.{conversation, opened, dispatch-conversation}

abbrev getattr : Str → Option ℕ
getattr name = if name == codes "get" then some 1 else none

abbrev packages : Packages ℕ
packages = record { loads = λ s. none; decode_utf8 = λ s. some s }

abbrev echo_data : Data ℕ → Async (Unit {0})
echo_data (text_data text) = send_text text
echo_data d = pure tt

abbrev echo : WebSocketEndpoint ℕ
echo = record {
  encoding = text_encoding;
  on_connect = pure tt;
  on_receive = echo_data;
  on_disconnect = λ code. pure tt;
}

dispatch-conversation_example :
    (left : ℕ) × (Sessions.dispatch packages echo 3
        (opened (conversation (codes "a" ∷ codes "b" ∷ []) 0 []) [] 2)
      ≡ some (
        done tt,
        record {
          client_state = disconnected;
          application_state = connected;
          incoming = [];
          outgoing = [] ++ map (λ t. send_text_message t) (codes "a" ∷ codes "b" ∷ []);
          budget = left;
        },
      ))
dispatch-conversation_example =
    dispatch-conversation packages echo (λ t. t) (codes "a" ∷ codes "b" ∷ []) 0 [] [] 3 2
      (opened (conversation (codes "a" ∷ codes "b" ∷ []) 0 []) [] 2) refl (λ t ws. refl) refl
      (omega arith) (omega arith)
