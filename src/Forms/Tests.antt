-- ===== src/Forms/Tests.antt =====
-- Runs of the parsers of forms, with small tokenizers.
use starlette.Prelude.{◌≡◌, refl, none, some, List, [], ◌∷◌, length}
use starlette.Prelude.Text.{codes, str_eq}
use starlette.Prelude.Result.{ok}
use starlette.Datastructures.Headers.{RawHeaders}
use starlette.Forms.{Tokenizer, Stream}
use starlette.Forms.Urlencoded
use starlette.Forms.Urlencoded.{CallsBack, tokens}
use starlette.Forms.Urlencoded.Laws.{Piece, items_of, parse-items_of}
use starlette.Forms.Multipart
use starlette.Forms.Multipart.{
  Packages, Limits, on_part_begin, on_headers_finished, on_part_data, on_part_end,
}
use starlette.Forms.Multipart.Laws.{Limited, Closed, parse-Limited, parse-Closed}

-- a field `x=y` for every chunk that is not empty
abbrev one_field : Tokenizer (Unit {0}) Urlencoded.Callback
one_field = record {
  write = λ parser chunk. (
    Urlencoded.on_field_start
        ∷ Urlencoded.on_field_name chunk 0 1
        ∷ Urlencoded.on_field_data chunk 2 3
        ∷ Urlencoded.on_field_end
        ∷ [],
    (none, parser),
  );
  finalize = λ parser. (Urlencoded.on_end ∷ [], (none, parser));
}

abbrev fields : List (List Piece × List Piece)
fields = (((codes "a=1", 0, 1) ∷ []), ((codes "a=1", 2, 3) ∷ [])) ∷ []

parse-items_of_example :
    Urlencoded.parse (λ s. s) one_field tt (record { chunks = codes "a=1" ∷ [] ∷ []; end = none })
    ≡ ok (items_of (λ s. s) fields)
unfolding CallsBack tokens
parse-items_of_example =
    parse-items_of (λ s. s) one_field tt (record { chunks = codes "a=1" ∷ [] ∷ []; end = none })
      fields refl (Urlencoded.on_end ∷ [], refl, refl, ([], refl, refl, refl))

-- a file in every chunk
abbrev one_file : Tokenizer (Unit {0}) Multipart.Callback
one_file = record {
  write = λ parser chunk. (
    on_part_begin ∷ on_headers_finished ∷ on_part_data chunk 0 (length chunk) ∷ on_part_end ∷ [],
    (none, parser),
  );
  finalize = λ parser. ([], (none, parser));
}

abbrev packages : Packages
packages = record {
  decode = λ codec s. some s;
  parse_options_header = λ value. (
    [],
    (codes "boundary", codes "b") ∷ (codes "name", codes "n") ∷ (codes "filename", codes "f") ∷ [],
  );
}

abbrev limits : Limits
limits = record { max_files = 1; max_fields = 1; max_part_size = 2 }

abbrev headers : RawHeaders
headers = (codes "content-type", codes "multipart/form-data; boundary=b") ∷ []

-- The second file is one too many.
abbrev two_chunks : Stream
two_chunks = record { chunks = codes "one" ∷ codes "two" ∷ []; end = none }

parse-Limited_example :
    Limited limits (Multipart.parse packages limits one_file (λ b. tt) headers two_chunks)
parse-Limited_example = parse-Limited packages limits one_file (λ b. tt) headers two_chunks

parse-Closed_example :
    Closed (Multipart.parse packages limits one_file (λ b. tt) headers two_chunks)
parse-Closed_example =
    parse-Closed packages limits one_file (λ b. tt) headers two_chunks
      (λ parser. (refl, λ m e. absurd cc))
