-- ===== src/Websockets/Protocol.antt =====
-- The order of messages that the ASGI specification asks of a WebSocket application, and what one
-- more message makes of a conforming sequence.
use starlette.Prelude.{ℕ, ◌≡◌, refl, ◌⊎◌, Bool, true, false, List, [], ◌∷◌, ◌++◌}
use starlette.Prelude.Text.{Str}
use starlette.Websockets.{
  WebSocketState, connecting, connected, disconnected, response, Sent, accept_message,
  send_text_message, send_bytes_message, close_message, response_start, response_body, WebSocket,
}

-- data messages, then at most one close message, which is the last
abbrev pub Sends : List Sent → Type 0
Sends [] = Unit
Sends (send_text_message text ∷ ms) = Sends ms
Sends (send_bytes_message bytes ∷ ms) = Sends ms
Sends (close_message code reason ∷ ms) = ms ≡ []
Sends (m ∷ ms) = ⊥

-- body messages, of which one without `more_body` is the last
abbrev pub Bodies : List Sent → Type 0
Bodies [] = Unit
Bodies (response_body body true ∷ ms) = Bodies ms
Bodies (response_body body false ∷ ms) = ms ≡ []
Bodies (m ∷ ms) = ⊥

-- a refused connection, an accepted one, or a denial response, as far as it has come
abbrev pub Conforms : List Sent → Type 0
Conforms [] = Unit
Conforms (accept_message subprotocol ∷ ms) = Sends ms
Conforms (close_message code reason ∷ ms) = ms ≡ []
Conforms (response_start status ∷ ms) = Bodies ms
Conforms (m ∷ ms) = ⊥

abbrev pub AllData : List Sent → Type 0
AllData [] = Unit
AllData (send_text_message text ∷ ms) = AllData ms
AllData (send_bytes_message bytes ∷ ms) = AllData ms
AllData (m ∷ ms) = ⊥

abbrev pub AllMore : List Sent → Type 0
AllMore [] = Unit
AllMore (response_body body true ∷ ms) = AllMore ms
AllMore (m ∷ ms) = ⊥

-- accepted and not closed
abbrev pub IsOpen : List Sent → Type 0
IsOpen [] = ⊥
IsOpen (accept_message subprotocol ∷ ms) = AllData ms
IsOpen (m ∷ ms) = ⊥

-- a denial response that is not complete
abbrev pub IsStarted : List Sent → Type 0
IsStarted [] = ⊥
IsStarted (response_start status ∷ ms) = AllMore ms
IsStarted (m ∷ ms) = ⊥

-- what `application_state` says of the messages that the server took
abbrev pub Tracks : WebSocketState → List Sent → Type 0
Tracks connecting out = out ≡ []
Tracks connected out = IsOpen out
Tracks response out = IsStarted out
Tracks disconnected out = Unit

-- The server took a conforming sequence; the state tells how far it has come, unless the connection
-- is lost, when nothing is taken any more.
pub record IsValid (ws : WebSocket) : Type 0 where
  pub conforms : Conforms ws.outgoing
  pub tracks : (ws.budget ≡ 0) ⊎ Tracks ws.application_state ws.outgoing

abbrev pub IsData : Sent → Type 0
IsData (send_text_message text) = Unit
IsData (send_bytes_message bytes) = Unit
IsData m = ⊥

AllData-snoc : (ms : List Sent) (m : Sent) → AllData ms → IsData m → AllData (ms ++ m ∷ [])
AllData-snoc [] (send_text_message text) h d = tt
AllData-snoc [] (send_bytes_message bytes) h d = tt
AllData-snoc [] m h d = elim d [ ]
AllData-snoc (send_text_message text ∷ ms) m h d = AllData-snoc ms m h d
AllData-snoc (send_bytes_message bytes ∷ ms) m h d = AllData-snoc ms m h d
AllData-snoc (n ∷ ms) m h d = elim h [ ]

AllData-Sends : (ms : List Sent) → AllData ms → Sends ms
AllData-Sends [] h = tt
AllData-Sends (send_text_message text ∷ ms) h = AllData-Sends ms h
AllData-Sends (send_bytes_message bytes ∷ ms) h = AllData-Sends ms h
AllData-Sends (n ∷ ms) h = elim h [ ]

Sends-close :
    (ms : List Sent) (code : ℕ) (reason : Str)
    → AllData ms
    → Sends (ms ++ close_message code reason ∷ [])
Sends-close [] code reason h = refl
Sends-close (send_text_message text ∷ ms) code reason h = Sends-close ms code reason h
Sends-close (send_bytes_message bytes ∷ ms) code reason h = Sends-close ms code reason h
Sends-close (n ∷ ms) code reason h = elim h [ ]

pub IsOpen-snoc : (out : List Sent) (m : Sent) → IsOpen out → IsData m → IsOpen (out ++ m ∷ [])
IsOpen-snoc [] m h d = elim h [ ]
IsOpen-snoc (accept_message s ∷ ms) m h d = AllData-snoc ms m h d
IsOpen-snoc (n ∷ ms) m h d = elim h [ ]

pub IsOpen-Conforms : (out : List Sent) → IsOpen out → Conforms out
IsOpen-Conforms [] h = elim h [ ]
IsOpen-Conforms (accept_message s ∷ ms) h = AllData-Sends ms h
IsOpen-Conforms (n ∷ ms) h = elim h [ ]

pub IsOpen-close :
    (out : List Sent) (code : ℕ) (reason : Str)
    → IsOpen out
    → Conforms (out ++ close_message code reason ∷ [])
IsOpen-close [] code reason h = elim h [ ]
IsOpen-close (accept_message s ∷ ms) code reason h = Sends-close ms code reason h
IsOpen-close (n ∷ ms) code reason h = elim h [ ]

AllMore-snoc :
    (ms : List Sent) (body : Str) → AllMore ms → AllMore (ms ++ response_body body true ∷ [])
AllMore-snoc [] body h = tt
AllMore-snoc (response_body b true ∷ ms) body h = AllMore-snoc ms body h
AllMore-snoc (n ∷ ms) body h = elim h [ ]

AllMore-Bodies :
    (ms : List Sent) (body : Str) (more : Bool)
    → AllMore ms
    → Bodies (ms ++ response_body body more ∷ [])
AllMore-Bodies [] body true h = tt
AllMore-Bodies [] body false h = refl
AllMore-Bodies (response_body b true ∷ ms) body more h = AllMore-Bodies ms body more h
AllMore-Bodies (n ∷ ms) body more h = elim h [ ]

pub IsStarted-snoc :
    (out : List Sent) (body : Str) → IsStarted out → IsStarted (out ++ response_body body true ∷ [])
IsStarted-snoc [] body h = elim h [ ]
IsStarted-snoc (response_start s ∷ ms) body h = AllMore-snoc ms body h
IsStarted-snoc (n ∷ ms) body h = elim h [ ]

pub IsStarted-Conforms :
    (out : List Sent) (body : Str) (more : Bool)
    → IsStarted out
    → Conforms (out ++ response_body body more ∷ [])
IsStarted-Conforms [] body more h = elim h [ ]
IsStarted-Conforms (response_start s ∷ ms) body more h = AllMore-Bodies ms body more h
IsStarted-Conforms (n ∷ ms) body more h = elim h [ ]
