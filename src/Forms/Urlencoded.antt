-- ===== src/Forms/Urlencoded.antt =====
-- `FormParser` of starlette/formparsers.py. `unquote_plus` is that of urllib.parse.
pub mod Laws
use starlette.Prelude.{
  ℕ, ◌≡◌, refl, ap, Option, none, some, List, [], ◌∷◌, ◌++◌, map, append_assoc, append-nil, arith,
  length,
}
use starlette.Prelude.Text.{Str}
use starlette.Prelude.Result.{Error, Result, ok, raise}
use starlette.Forms.{slice, Tokenizer, Stream}

-- the callbacks that the tokenizer makes, with the data and the bounds that it gives
pub data Callback : Type 0 where
  on_field_start on_field_end on_end : Callback
  on_field_name on_field_data : Str → ℕ → ℕ → Callback

-- `FormMessage`, with the bytes
pub data FormMessage : Type 0 where
  field_start field_end end_message : FormMessage
  field_name field_data : Str → FormMessage

-- the message that a callback appends
pub message_of : Callback → FormMessage
message_of on_field_start = field_start
message_of (on_field_name bytes start end) = field_name (slice bytes start end)
message_of (on_field_data bytes start end) = field_data (slice bytes start end)
message_of on_field_end = field_end
message_of on_end = end_message

-- the variables of `parse`
pub record Form : Type 0 where
  pub field_name : Str
  pub field_value : Str
  pub items : List (Str × Str)

module _ (unquote_plus : Str → Str) where
  pub on_message : FormMessage → Form → Form
  on_message field_start f = record f { field_name = []; field_value = [] }
  on_message (field_name bytes) f = record f { field_name = Form.field_name f ++ bytes }
  on_message (field_data bytes) f = record f { field_value = f.field_value ++ bytes }
  on_message field_end f = record f {
    items = f.items ++ (unquote_plus (Form.field_name f), unquote_plus f.field_value) ∷ [];
  }
  on_message end_message f = f

  pub on_messages : List FormMessage → Form → Form
  unfolding on_message
  on_messages [] f = f
  on_messages (m ∷ ms) f = on_messages ms (on_message m f)

  module _ {P : Type 0} (tokenizer : Tokenizer P Callback) where
    -- `write` for a chunk, and `finalize` for an empty one
    unfoldable pub tokens : P → Str → List Callback × (Option Error × P)
    tokens parser [] = tokenizer.finalize parser
    tokens parser (x ∷ chunk) = tokenizer.write parser (x ∷ chunk)

    -- the `async for` of `parse`
    pub read_chunks : List Str → Option Error → P → Form → Result Form
    unfolding tokens on_messages message_of
    read_chunks [] none parser f = ok f
    read_chunks [] (some exc) parser f = raise exc
    read_chunks (chunk ∷ chunks) end parser f =
        let (calls, (failure, parser')) = tokens parser chunk in
        let rest = read_chunks chunks end parser' (on_messages (map message_of calls) f) in
        elim failure [ none ↦ rest | some exc ↦ raise exc ]

    -- the items of the `FormData` that `parse` returns
    unfoldable pub parse : P → Stream → Result (List (Str × Str))
    unfolding read_chunks
    parse parser stream =
        let start : Form = record { field_name = []; field_value = []; items = [] } in
        elim (read_chunks stream.chunks stream.end parser start) [
          | raise exc ↦ raise exc
          | ok f ↦ ok f.items
        ]

    -- The tokenizer, over all chunks, calls back in this order, and raises nothing.
    unfoldable pub CallsBack : P → List Str → List Callback → Type 0
    CallsBack parser [] calls = [] ≡ calls
    CallsBack parser (chunk ∷ chunks) calls =
        let (now, (failure, parser')) = tokens parser chunk in
        (later : List Callback) × (now ++ later ≡ calls)
        × (failure ≡ none)
        × CallsBack parser' chunks later
