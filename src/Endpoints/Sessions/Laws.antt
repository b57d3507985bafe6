-- ===== src/Endpoints/Sessions/Laws.antt =====
-- A conversation that a `WebSocketEndpoint` answers.
use starlette.Prelude.{
  ℕ, zero, suc, ◌+◌, ◌≤◌, ◌≡◌, refl, sym, ap, ◌∙◌, Option, none, some, List, [], ◌∷◌, ◌++◌, map,
  length, arith, append_assoc, append-nil,
}
use starlette.Prelude.Text.{Str}
use starlette.Websockets.{
  connected, disconnected, Received, receive_data, disconnect, Sent, send_text_message, WebSocket,
  receive, send, send_text, Call, done, raised, blocked,
}
use starlette.Endpoints.Sessions.{
  text_encoding, text_data, Packages, decode, WebSocketEndpoint, End, closed, close_code,
  on_message, loop, leave, dispatch,
}

-- texts, one in each message, and a disconnect behind them
abbrev pub conversation : List Str → ℕ → List Received → List Received
conversation [] code rest = disconnect code ∷ rest
conversation (t ∷ texts) code rest = receive_data (some t) none ∷ conversation texts code rest

abbrev pub opened : List Received → List Sent → ℕ → WebSocket
opened incoming outgoing budget = record {
  client_state = connected;
  application_state = connected;
  incoming = incoming;
  outgoing = outgoing;
  budget = budget;
}

close_code_lem : (code : ℕ) → close_code code ≡ (elim code [ zero ↦ 1000 | suc n ↦ suc n ])
unfolding close_code
close_code_lem zero = refl
close_code_lem (suc n) = ground arith

module _ {J : Type 0} (packages : Packages J) (endpoint : WebSocketEndpoint J)
    (reply : Str → Str) where
  on_text :
      (t : Str) (incoming : List Received) (outgoing : List Sent) (budget : ℕ)
      → endpoint.encoding ≡ text_encoding
      → ((t : Str) (ws : WebSocket) → endpoint.on_receive (text_data t) ws ≡ send_text (reply t) ws)
      → on_message packages endpoint
          (receive_data (some t) none)
          (opened incoming outgoing (suc budget))
        ≡ (none, opened incoming (outgoing ++ send_text_message (reply t) ∷ []) budget)
  unfolding on_message decode send_text send
  on_text t incoming outgoing budget e h =
      ground (arith, e, h t (opened incoming outgoing (suc budget)))

  -- The loop ends after one turn for each message, with the code of the disconnect.
  loop-conversation :
      (texts : List Str) (code : ℕ) (rest : List Received) (outgoing : List Sent) (fuel budget : ℕ)
      → endpoint.encoding ≡ text_encoding
      → ((t : Str) (ws : WebSocket) → endpoint.on_receive (text_data t) ws ≡ send_text (reply t) ws)
      → length texts + 1 ≤ fuel
      → length texts ≤ budget
      → (left : ℕ) × (loop packages endpoint fuel
            (opened (conversation texts code rest) outgoing budget)
          ≡ some (
            closed (close_code code),
            record {
              client_state = disconnected;
              application_state = connected;
              incoming = rest;
              outgoing = outgoing ++ map (λ t. send_text_message (reply t)) texts;
              budget = left;
            },
          ))
  unfolding loop on_message receive decode send_text send
  loop-conversation [] code rest outgoing (suc fuel) budget e h f b = (
    budget,
    λ i. some (
      closed (close_code code),
      record (opened rest outgoing budget) {
        client_state = disconnected;
        outgoing = sym (append-nil outgoing) i;
      },
    ),
  )
  loop-conversation (t ∷ texts) code rest outgoing (suc fuel) (suc budget) e h f b =
      let sent = outgoing ++ send_text_message (reply t) ∷ [] in
      let next = opened (conversation texts code rest) sent budget in
      let (left, l) =
        loop-conversation texts code rest sent fuel budget e h (omega arith) (omega arith) in
      (
        left,
        ap turn (on_text t (conversation texts code rest) outgoing budget e h) ∙ l ∙ λ i. some (
          closed (close_code code),
          record (opened rest outgoing left) {
            client_state = disconnected;
            outgoing =
                append_assoc outgoing (send_text_message (reply t) ∷ [])
                  (map (λ t. send_text_message (reply t)) texts) i;
          },
        ),
      )
    where
      turn : Option End × WebSocket → Option (End × WebSocket)
      turn (end, ws) = elim end [ none ↦ loop packages endpoint fuel ws | some e ↦ some (e, ws) ]
  loop-conversation texts code rest outgoing zero budget e h f b = absurd (omega arith)
  loop-conversation (t ∷ texts) code rest outgoing fuel zero e h f b = absurd (omega arith)

  -- An endpoint for texts, whose `on_connect` leaves the connection open and which replies to each
  -- text: over any texts and a disconnect behind them, with one turn of the loop for each message,
  -- `dispatch` comes to what `on_disconnect` does with the code of the disconnect, or with 1000 for
  -- a zero, when the server took the replies in the order of the texts.
  pub dispatch-conversation :
      (texts : List Str) (code : ℕ) (rest : List Received) (outgoing : List Sent) (fuel budget : ℕ)
      (ws : WebSocket)
      → endpoint.encoding ≡ text_encoding
      → ((t : Str) (ws : WebSocket) → endpoint.on_receive (text_data t) ws ≡ send_text (reply t) ws)
      → endpoint.on_connect ws ≡ (done tt, opened (conversation texts code rest) outgoing budget)
      → length texts + 1 ≤ fuel
      → length texts ≤ budget
      → (left : ℕ) × (dispatch packages endpoint fuel ws
          ≡ some (
              endpoint.on_disconnect
                (elim code [ zero ↦ 1000 | suc n ↦ suc n ])
                (record {
                  client_state = disconnected;
                  application_state = connected;
                  incoming = rest;
                  outgoing = outgoing ++ map (λ t. send_text_message (reply t)) texts;
                  budget = left;
                })))
  unfolding dispatch leave
  dispatch-conversation texts code rest outgoing fuel budget ws e h o f b =
      let (left, ends) = loop-conversation texts code rest outgoing fuel budget e h f b in
      (
        left,
        ap connected_then o
            ∙ ap ended ends
            ∙ ap (λ c. some (endpoint.on_disconnect c (closed_at left))) (close_code_lem code),
      )
    where
      ended : Option (End × WebSocket) → Option (Call (Unit {0}) × WebSocket)
      ended found = elim found [ none ↦ none | some f ↦ some (leave packages endpoint f.0 f.1) ]

      connected_then : Call (Unit {0}) × WebSocket → Option (Call (Unit {0}) × WebSocket)
      connected_then (r, ws') = elim r [
        | raised exc ↦ some (raised exc, ws')
        | blocked ↦ some (blocked, ws')
        | done u ↦ ended (loop packages endpoint fuel ws')
      ]

      closed_at : ℕ → WebSocket
      closed_at left = record {
        client_state = disconnected;
        application_state = connected;
        incoming = rest;
        outgoing = outgoing ++ map (λ t. send_text_message (reply t)) texts;
        budget = left;
      }
