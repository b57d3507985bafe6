-- ===== src/Middleware/Cached/Tests.antt =====
-- A body that goes through the middleware.
use starlette.Prelude.{◌≡◌, none, some, true, List, [], ◌∷◌, arith}
use starlette.Prelude.Text.{codes}
use starlette.Requests.Stream.{Message, http_request, http_disconnect}
use starlette.Requests.Stream.Laws.{Received, received}
use starlette.Middleware.Cached.{init}
use starlette.Middleware.Cached.Laws.{drain, drain-received}

abbrev messages : List Message
messages =
    http_request (some (codes "ab")) (some true)
    ∷ http_request (some (codes "c")) none
    ∷ http_disconnect
    ∷ []

drain-received_example :
    drain 4 (init messages)
    ≡ some (record { text = Received.text (received messages); end = (received messages).end })
drain-received_example = drain-received 4 messages (omega arith)
