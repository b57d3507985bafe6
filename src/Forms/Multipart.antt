-- ===== src/Forms/Multipart.antt =====
-- `MultiPartParser` of starlette/formparsers.py.
--
-- The temporary files that the parser opens, in their order, are the list `_files_to_close_on_error`
-- and stand for the `UploadFile` objects, which a number names; their threads are not modelled.
-- `_user_safe_decode` asks a parameter for the codec, and `parse_options_header` is that of
-- python_multipart, which calls `on_headers_finished` once for a part. The limits are numbers.
pub mod Callbacks
pub mod Laws
use starlette.Prelude.{
  ℕ, zero, suc, ◌+◌, ◌/◌, Bool, true, false, Option, none, some, List, [], ◌∷◌, ◌++◌, map, length,
  take, drop, ltb, ◌==◌, if◌then◌else◌, get_elem?, set,
}
use starlette.Prelude.Text.{Str, codes, str_eq, lower}
use starlette.Prelude.Decimal.{show_nat}
use starlette.Prelude.Dict.{Dict, lookup}
use starlette.Prelude.Result.{Error, Result, ok, raise, multipart_exception, key_error}
use starlette.Datastructures.Headers
use starlette.Datastructures.Headers.{RawHeaders}
use starlette.Forms.{slice, Tokenizer, Stream}

-- an `UploadFile` with its temporary file
pub record Upload : Type 0 where
  pub filename : Str
  pub headers : RawHeaders
  pub size : ℕ
  pub content : Str
  pub position : ℕ
  pub closed : Bool

-- `UploadFile.write`, on a file that is open
unfoldable pub write : Str → Upload → Upload
write bytes u = record u {
  size = u.size + length bytes;
  content = take u.position u.content ++ bytes ++ drop (u.position + length bytes) u.content;
  position = u.position + length bytes;
}

-- `UploadFile.seek`
unfoldable pub seek : ℕ → Upload → Upload
seek offset u = record u { position = offset }

unfoldable pub close : Upload → Upload
close u = record u { closed = true }

pub data Value : Type 0 where
  text : Str → Value
  upload : ℕ → Value

-- `MultipartPart`
pub record Part : Type 0 where
  pub content_disposition : Option Str
  pub field_name : Str
  pub bytes : Str
  pub file : Option ℕ
  pub item_headers : RawHeaders

pub empty_part : Part
empty_part = record {
  content_disposition = none;
  field_name = [];
  bytes = [];
  file = none;
  item_headers = [];
}

pub record Limits : Type 0 where
  pub max_files : ℕ
  pub max_fields : ℕ
  pub max_part_size : ℕ

-- the attributes of the parser
pub record State : Type 0 where
  pub items : List (Str × Value)
  pub current_files : ℕ
  pub current_fields : ℕ
  pub header_name : Str
  pub header_value : Str
  pub part : Part
  pub charset : Str
  pub parts_to_write : List (ℕ × Str)
  pub parts_to_finish : List ℕ
  pub files : List Upload

-- `MultiPartParser(headers, stream)`, with the charset that `parse` sets
pub init : Str → State
unfolding empty_part
init charset = record {
  items = [];
  current_files = 0;
  current_fields = 0;
  header_name = [];
  header_value = [];
  part = empty_part;
  charset = charset;
  parts_to_write = [];
  parts_to_finish = [];
  files = [];
}

pub data Callback : Type 0 where
  on_part_begin on_part_end on_header_end on_headers_finished on_end : Callback
  on_part_data on_header_field on_header_value : Str → ℕ → ℕ → Callback

-- what a callback comes to: the parser goes on, or an exception leaves it as it is then
pub data Step : Type 0 where
  next : State → Step
  stop : Error → State → Step

unfoldable pub part_data : Limits → Str → State → Step
unfolding show_nat
part_data limits message_bytes s = elim s.part.file [
  | none ↦
      if ltb limits.max_part_size (length s.part.bytes + length message_bytes)
      then stop
          (multipart_exception (
            codes "Part exceeded maximum size of "
            ++ show_nat (limits.max_part_size / 1024)
            ++ codes "KB."))
          s
      else next
          (record s { part = record (State.part s) { bytes = s.part.bytes ++ message_bytes } })
  | some file ↦ next (record s { parts_to_write = s.parts_to_write ++ (file, message_bytes) ∷ [] })
]

unfoldable pub header_end : State → State
unfolding lower
header_end s =
    let field = lower s.header_name in
    let part : Part =
      if field == codes "content-disposition"
      then record (State.part s) { content_disposition = some s.header_value }
      else s.part in
    record s {
      part = record part { item_headers = part.item_headers ++ (field, s.header_value) ∷ [] };
      header_name = [];
      header_value = [];
    }

-- what the model does not define
pub record Packages : Type 0 where
  -- `bytes.decode(codec)`, with `none` where it raises
  pub decode : Str → Str → Option Str
  -- the options of a header value
  pub parse_options_header : Option Str → Str × Dict Str Str

module _ (packages : Packages) where
  pub user_safe_decode : Str → Str → Str
  user_safe_decode src codec = elim (packages.decode codec src) [ none ↦ src | some s ↦ s ]

  unfoldable pub part_end : State → State
  unfolding user_safe_decode
  part_end s = elim s.part.file [
    | none ↦ record s {
      items = s.items ++ (s.part.field_name, text (user_safe_decode s.part.bytes s.charset)) ∷ [];
    }
    | some file ↦ record s {
      parts_to_finish = s.parts_to_finish ++ file ∷ [];
      items = s.items ++ (s.part.field_name, upload file) ∷ [];
    }
  ]

  -- `SpooledTemporaryFile` and `UploadFile`
  unfoldable pub open_file : Str → State → State
  unfolding user_safe_decode
  open_file filename s = record s {
    files =
        s.files
        ++ (record {
          filename = user_safe_decode filename s.charset;
          headers = s.part.item_headers;
          size = 0;
          content = [];
          position = 0;
          closed = false;
        })
          ∷ [];
    part = record (State.part s) { file = some (length s.files) };
  }

  module _ (limits : Limits) where
    -- a part that has a file name, and one that has none
    unfoldable pub file_part : Str → State → Step
    unfolding open_file show_nat
    file_part filename s =
        let counted : State = record s { current_files = s.current_files + 1 } in
        if ltb limits.max_files (s.current_files + 1)
        then stop
            (multipart_exception (
              codes "Too many files. Maximum number of files is "
              ++ show_nat limits.max_files
              ++ codes "."))
            counted
        else next (open_file filename counted)

    unfoldable pub field_part : State → Step
    unfolding show_nat
    field_part s =
        let counted : State = record s { current_fields = s.current_fields + 1 } in
        if ltb limits.max_fields (s.current_fields + 1)
        then stop
            (multipart_exception (
              codes "Too many fields. Maximum number of fields is "
              ++ show_nat limits.max_fields
              ++ codes "."))
            counted
        else next (record counted { part = record (State.part s) { file = none } })

    unfoldable pub headers_finished : State → Step
    unfolding lookup user_safe_decode file_part field_part
    headers_finished s =
        let (disposition, options) = packages.parse_options_header s.part.content_disposition in
        elim (lookup (codes "name") options) [
          | none ↦
              stop
                (multipart_exception
                  (codes "The Content-Disposition header field \"name\" must be provided."))
                s
          | some name ↦
              let named : State = record s {
                part = record (State.part s) { field_name = user_safe_decode name s.charset };
              } in
              elim (lookup (codes "filename") options) [
                | none ↦ field_part named
                | some filename ↦ file_part filename named
              ]
        ]

    unfoldable pub call : Callback → State → Step
    unfolding empty_part part_data part_end header_end headers_finished
    call on_part_begin s = next (record s { part = empty_part })
    call (on_part_data bytes start end) s = part_data limits (slice bytes start end) s
    call on_part_end s = next (part_end s)
    call (on_header_field bytes start end) s =
        next (record s { header_name = s.header_name ++ slice bytes start end })
    call (on_header_value bytes start end) s =
        next (record s { header_value = s.header_value ++ slice bytes start end })
    call on_header_end s = next (header_end s)
    call on_headers_finished s = headers_finished s
    call on_end s = next s

    -- the callbacks of one `write`; an exception of one ends it
    unfoldable pub calls : List Callback → State → Step
    unfolding call
    calls [] s = next s
    calls (c ∷ cs) s = elim (call c s) [ next s' ↦ calls cs s' | stop exc s' ↦ stop exc s' ]

-- the file of a number after a function on it
abbrev pub update : ℕ → (Upload → Upload) → List Upload → List Upload
update i f [] = []
update zero f (u ∷ us) = f u ∷ us
update (suc i) f (u ∷ us) = u ∷ update i f us

unfoldable pub write_parts : List (ℕ × Str) → List Upload → List Upload
unfolding write
write_parts [] files = files
write_parts ((i, bytes) ∷ ws) files = write_parts ws (update i (write bytes) files)

unfoldable pub finish_parts : List ℕ → List Upload → List Upload
unfolding seek
finish_parts [] files = files
finish_parts (i ∷ is) files = finish_parts is (update i (seek 0) files)

-- what `parse` does behind each `write`
unfoldable pub write_files : State → State
unfolding write_parts finish_parts
write_files s = record s {
  files = finish_parts s.parts_to_finish (write_parts s.parts_to_write s.files);
  parts_to_write = [];
  parts_to_finish = [];
}

module _ (packages : Packages) (limits : Limits) {P : Type 0}
    (tokenizer : Tokenizer P Callback) where
  -- the callbacks of a call of the tokenizer, and its own exception behind them
  unfoldable pub tokenize : List Callback × (Option Error × P) → State → Step
  unfolding calls
  tokenize (cs, (failure, parser)) s = elim (calls packages limits cs s) [
    | stop exc s' ↦ stop exc s'
    | next s' ↦ elim failure [ none ↦ next s' | some exc ↦ stop exc s' ]
  ]

  -- the body of the `try`
  unfoldable pub read_chunks : List Str → Option Error → P → State → Step × P
  unfolding tokenize write_files
  read_chunks [] none parser s = (next s, parser)
  read_chunks [] (some exc) parser s = (stop exc s, parser)
  read_chunks (chunk ∷ chunks) end parser s =
      let written = tokenizer.write parser chunk in
      elim (tokenize written s) [
        | stop exc s' ↦ (stop exc s', written.1.1)
        | next s' ↦ read_chunks chunks end written.1.1 (write_files s')
      ]

  -- the `except` clause
  unfoldable pub close_files : Error → State → State
  unfolding close
  close_files (multipart_exception message) s = record s { files = map close s.files }
  close_files exc s = s

  -- `parse` from the `try` on
  unfoldable pub parse_stream : Stream → P → State → Step
  unfolding read_chunks close_files tokenize
  parse_stream stream parser s =
      let (read, parser') = read_chunks stream.chunks stream.end parser s in
      elim read [
        | stop exc s' ↦ stop exc (close_files exc s')
        | next s' ↦ tokenize (tokenizer.finalize parser') s'
      ]

-- `parse`, with a tokenizer for each boundary
unfoldable pub parse :
    (packages : Packages) (limits : Limits) {P : Type 0} (tokenizer : Tokenizer P Callback)
    → (Str → P)
    → RawHeaders
    → Stream
    → Step
unfolding Headers.getitem lookup init parse_stream
parse packages limits tokenizer create headers stream =
    elim (Headers.getitem headers (codes "Content-Type")) [
      | raise exc ↦ stop exc (init [])
      | ok content_type ↦
          let params = (packages.parse_options_header (some content_type)).1 in
          let charset : Str = elim (lookup (codes "charset") params) [
            | none ↦ codes "utf-8"
            | some c ↦ c
          ] in
          elim (lookup (codes "boundary") params) [
            | none ↦
                stop (multipart_exception (codes "Missing boundary in multipart.")) (init charset)
            | some boundary ↦
                parse_stream packages limits tokenizer stream (create boundary) (init charset)
          ]
    ]
