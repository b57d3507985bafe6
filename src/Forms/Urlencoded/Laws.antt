-- ===== src/Forms/Urlencoded/Laws.antt =====
-- `FormParser` reads the fields of a form, however the chunks cut them.
use starlette.Prelude.{
  ℕ, ◌≡◌, refl, ap, sym, ◌∙◌, none, some, List, [], ◌∷◌, ◌++◌, map, append_assoc, append-nil,
}
use starlette.Prelude.Text.{Str}
use starlette.Prelude.Result.{Result, ok, raise}
use starlette.Forms.{slice, Tokenizer, Stream}
use starlette.Forms.Urlencoded.{
  Callback, on_field_start, on_field_end, on_end, on_field_name, on_field_data, message_of, Form,
  on_message, on_messages, tokens, read_chunks, parse, CallsBack,
}

-- a piece of a chunk, as a callback names it
abbrev pub Piece : Type 0
Piece = Str × ℕ × ℕ

abbrev pub joined : List Piece → Str
joined [] = []
joined ((bytes, start, end) ∷ ps) = slice bytes start end ++ joined ps

abbrev pub name_calls : List Piece → List Callback
name_calls = map (λ (p : Piece). on_field_name p.0 p.1 p.2)

abbrev pub value_calls : List Piece → List Callback
value_calls = map (λ (p : Piece). on_field_data p.0 p.1 p.2)

-- the callbacks for the fields of a form, where the name and the value of each come in pieces
abbrev pub calls_of : List (List Piece × List Piece) → List Callback
calls_of [] = on_end ∷ []
calls_of ((name, value) ∷ fields) =
    on_field_start ∷ (name_calls name ++ (value_calls value ++ on_field_end ∷ calls_of fields))

module _ (unquote_plus : Str → Str) where
  abbrev run : List Callback → Form → Form
  run calls f = on_messages unquote_plus (map message_of calls) f

  run-append : (now later : List Callback) (f : Form) → run (now ++ later) f ≡ run later (run now f)
  unfolding on_messages
  run-append [] later f = refl
  run-append (c ∷ cs) later f = run-append cs later (on_message unquote_plus (message_of c) f)

  run-names :
      (ps : List Piece) (f : Form)
      → run (name_calls ps) f ≡ record f { field_name = Form.field_name f ++ joined ps }
  unfolding on_messages on_message message_of
  run-names [] f = λ i. record f { field_name = sym (append-nil (Form.field_name f)) i }
  run-names ((bytes, start, end) ∷ ps) f =
      run-names ps (record f { field_name = Form.field_name f ++ slice bytes start end }) ∙ λ i.
      record f {
        field_name = append_assoc (Form.field_name f) (slice bytes start end) (joined ps) i;
      }

  run-values :
      (ps : List Piece) (f : Form)
      → run (value_calls ps) f ≡ record f { field_value = f.field_value ++ joined ps }
  unfolding on_messages on_message message_of
  run-values [] f = λ i. record f { field_value = sym (append-nil f.field_value) i }
  run-values ((bytes, start, end) ∷ ps) f =
      run-values ps (record f { field_value = f.field_value ++ slice bytes start end }) ∙ λ i.
      record f { field_value = append_assoc f.field_value (slice bytes start end) (joined ps) i }

  abbrev pub items_of : List (List Piece × List Piece) → List (Str × Str)
  items_of [] = []
  items_of ((name, value) ∷ fields) =
      (unquote_plus (joined name), unquote_plus (joined value)) ∷ items_of fields

  run-calls_of :
      (fields : List (List Piece × List Piece)) (f : Form)
      → (run (calls_of fields) f).items ≡ f.items ++ items_of fields
  unfolding on_messages on_message message_of
  run-calls_of [] f = sym (append-nil f.items)
  run-calls_of ((name, value) ∷ fields) f =
      ap Form.items
        (run-append (name_calls name) (value_calls value ++ on_field_end ∷ calls_of fields) started)
      ∙ ap (λ g. (run (value_calls value ++ on_field_end ∷ calls_of fields) g).items)
          (run-names name started)
      ∙ ap Form.items (run-append (value_calls value) (on_field_end ∷ calls_of fields) named)
      ∙ ap (λ g. (run (on_field_end ∷ calls_of fields) g).items) (run-values value named)
      ∙ run-calls_of fields ended
      ∙ append_assoc f.items _ (items_of fields)
    where
      started : Form
      started = record f { field_name = []; field_value = [] }

      named : Form
      named = record f { field_name = joined name; field_value = [] }

      ended : Form
      ended = record f {
        field_name = joined name;
        field_value = joined value;
        items = f.items ++ (unquote_plus (joined name), unquote_plus (joined value)) ∷ [];
      }

  module _ {P : Type 0} (tokenizer : Tokenizer P Callback) where
    read_chunks-run :
        (parser : P) (chunks : List Str) (calls : List Callback) (f : Form)
        → CallsBack unquote_plus tokenizer parser chunks calls
        → read_chunks unquote_plus tokenizer chunks none parser f ≡ ok (run calls f)
    unfolding read_chunks CallsBack on_messages
    read_chunks-run parser [] calls f h = ap (λ cs. ok (run cs f)) h
    read_chunks-run parser (chunk ∷ chunks) calls f (later, c, n, rest) =
        let (now, (failure, parser')) = tokens unquote_plus tokenizer parser chunk in
        let go = read_chunks unquote_plus tokenizer chunks none parser' (run now f) in
        ap (λ o. elim o as (λ x. Result Form) [ none ↦ go | some exc ↦ raise exc ]) n
        ∙ read_chunks-run parser' chunks later (run now f) rest
        ∙ ap ok (sym (run-append now later f))
        ∙ ap (λ cs. ok (run cs f)) c

    -- Where the tokenizer, over the chunks of a stream that ends, calls back for the fields of a form
    -- and raises nothing, `parse` returns these fields in their order, with each name and value put
    -- together from its pieces and unquoted, wherever the chunks cut them.
    pub parse-items_of :
        (parser : P) (stream : Stream) (fields : List (List Piece × List Piece))
        → stream.end ≡ none
        → CallsBack unquote_plus tokenizer parser stream.chunks (calls_of fields)
        → parse unquote_plus tokenizer parser stream ≡ ok (items_of fields)
    unfolding parse
    parse-items_of parser stream fields e h =
        ap items (
          ap (λ end. read_chunks unquote_plus tokenizer stream.chunks end parser start) e
          ∙ read_chunks-run parser stream.chunks (calls_of fields) start h)
        ∙ ap ok (run-calls_of fields start)
      where
        start : Form
        start = record { field_name = []; field_value = []; items = [] }

        items : Result Form → Result (List (Str × Str))
        items r = elim r [ raise exc ↦ raise exc | ok f ↦ ok f.items ]
