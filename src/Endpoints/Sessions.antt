-- ===== src/Endpoints/Sessions.antt =====
-- `WebSocketEndpoint` of starlette/endpoints.py, over the `WebSocket` of the module Websockets.
--
-- The methods that a program overrides are parameters. The exceptions are those that `except
-- Exception` catches; a cancelled task is not modelled.
pub mod Laws
use starlette.Prelude.{
  ℕ, zero, suc, Bool, true, false, Option, none, some, List, [], ◌∷◌, ◌==◌, nat_eq, if◌then◌else◌,
}
use starlette.Prelude.Text.{Str, codes}
use starlette.Prelude.Dict.{or_else}
use starlette.Prelude.Result.{Error, runtime_error, key_error, unicode_error, assertion_error}
use starlette.Websockets.{
  Received, connect, receive_data, disconnect, unknown, WebSocket, Call, done, raised, blocked,
  Async, ◌>>=◌, ◌>>◌, pure, fail, receive, accept, close,
}

pub data Encoding : Type 0 where
  no_encoding text_encoding bytes_encoding json_encoding other_encoding : Encoding

-- what `decode` returns
pub data Data (J : Type 0) : Type 0 where
  text_data bytes_data : Str → Data J
  json_data : J → Data J

-- `json.loads`, and the decoding of UTF-8, where they raise nothing
pub record Packages (J : Type 0) : Type 0 where
  pub loads : Str → Option J
  pub decode_utf8 : Str → Option Str

module _ {J : Type 0} (packages : Packages J) where
  -- `close` with 1003, and `RuntimeError` behind it
  unfoldable pub unsupported : Async (Data J)
  unfolding close
  unsupported = close 1003 none >>= λ u. fail runtime_error

  unfoldable pub load_json : Str → Async (Data J)
  unfolding unsupported
  load_json source = elim (packages.loads source) [
    | none ↦ unsupported
    | some value ↦ pure (json_data value)
  ]

  unfoldable pub decode_json : Option Str → Option Str → Async (Data J)
  unfolding load_json
  decode_json (some text) bytes = load_json text
  decode_json none none = fail key_error
  decode_json none (some bytes) = elim (packages.decode_utf8 bytes) [
    | none ↦ fail unicode_error
    | some text ↦ load_json text
  ]

  -- the text if it has one that is not empty, and else the bytes
  unfoldable pub decode_any : Option Str → Option Str → Async (Data J)
  decode_any (some (c ∷ text)) bytes = pure (text_data (c ∷ text))
  decode_any text (some bytes) = pure (bytes_data bytes)
  decode_any text none = fail key_error

  -- `decode`, of a message with these keys
  unfoldable pub decode : Encoding → Option Str → Option Str → Async (Data J)
  unfolding decode_json decode_any unsupported
  decode text_encoding (some text) bytes = pure (text_data text)
  decode text_encoding none bytes = unsupported
  decode bytes_encoding text (some bytes) = pure (bytes_data bytes)
  decode bytes_encoding text none = unsupported
  decode json_encoding text bytes = decode_json text bytes
  decode other_encoding text bytes = fail assertion_error
  decode no_encoding text bytes = decode_any text bytes

-- a subclass
pub record WebSocketEndpoint (J : Type 0) : Type 0 where
  pub encoding : Encoding
  pub on_connect : Async (Unit {0})
  pub on_receive : Data J → Async (Unit {0})
  pub on_disconnect : ℕ → Async (Unit {0})

-- `on_connect`, where it is not overridden
unfoldable pub on_connect : Async (Unit {0})
unfolding accept
on_connect = accept none

-- how the loop ends: with a close code, or with an exception
pub data End : Type 0 where
  closed : ℕ → End
  failed : Error → End
  waits : End

-- `int(message.get("code") or 1000)`
unfoldable pub close_code : ℕ → ℕ
close_code code = if code == 0 then 1000 else code

module _ {J : Type 0} (packages : Packages J) (endpoint : WebSocketEndpoint J) where
  -- what a message of the loop leads to: `none` to go on
  unfoldable pub on_message : Received → WebSocket → Option End × WebSocket
  unfolding decode close_code
  on_message (receive_data text bytes) ws =
      let (r, ws') = (decode packages endpoint.encoding text bytes >>= endpoint.on_receive) ws in
      elim r [
        | done u ↦ (none, ws')
        | raised exc ↦ (some (failed exc), ws')
        | blocked ↦ (some waits, ws')
      ]
  on_message (disconnect code) ws = (some (closed (close_code code)), ws)
  on_message message ws = (none, ws)

  -- `while True`, with fuel for so many messages
  unfoldable pub loop : ℕ → WebSocket → Option (End × WebSocket)
  unfolding on_message receive
  loop zero ws = none
  loop (suc fuel) ws =
      let (r, ws') = receive ws in
      elim r [
        | raised exc ↦ some (failed exc, ws')
        | blocked ↦ some (waits, ws')
        | done message ↦
            let (end, ws'') = on_message message ws' in
            let rest = loop fuel ws'' in elim end [ none ↦ rest | some e ↦ some (e, ws'') ]
      ]

  -- the `except` and the `finally` clause
  unfoldable pub leave : End → Async (Unit {0})
  leave (closed code) = endpoint.on_disconnect code
  leave (failed exc) = endpoint.on_disconnect 1011 >>= λ u. fail exc
  leave waits = λ ws. (blocked, ws)

  -- `dispatch`
  unfoldable pub dispatch : ℕ → WebSocket → Option (Call (Unit {0}) × WebSocket)
  unfolding loop leave
  dispatch fuel ws =
      let (r, ws') = endpoint.on_connect ws in
      elim r [
        | raised exc ↦ some (raised exc, ws')
        | blocked ↦ some (blocked, ws')
        | done u ↦ elim (loop fuel ws') [ none ↦ none | some ended ↦ some (leave ended.0 ended.1) ]
      ]
