-- ===== src/Responses/File.antt =====
-- `FileResponse.__call__` and the messages that its three ways send, in starlette/responses.py.
--
-- The file is there, a regular one, and does not change: `os.stat` and `open` are not modelled. The
-- loops over chunks have one turn more as fuel than bytes to send.
pub mod Laws
use starlette.Prelude.{
  ℕ, ◌+◌, ◌-◌, Bool, true, false, Option, none, some, List, [], ◌∷◌, ◌++◌, map, length, ◌==◌,
  if◌then◌else◌,
}
use starlette.Prelude.Text.{Str, codes, str_eq, upper}
use starlette.Prelude.Decimal.{show_nat}
use starlette.Prelude.Result.{Result, ok, ◌>>=◌}
use starlette.Datastructures.Headers
use starlette.Datastructures.Headers.{RawHeaders}
use starlette.Responses.Range.{found, malformed, not_satisfiable, parse_range_header}
use starlette.Responses.Chunks.{Message, simple_chunks, range_chunks, part_chunks}
use starlette.Responses.Multipart.{part_header, content_length}

pub data Sent : Type 0 where
  start : ℕ → RawHeaders → Sent
  body : Str → Bool → Sent
  pathsend : Sent

pub record FileResponse : Type 0 where
  pub chunk_size : ℕ
  pub status_code : ℕ
  pub headers : RawHeaders
  pub file : Str

-- `await self.send` for each chunk, behind what was sent before; none where a loop has not ended
unfoldable pub chunks_sent : List Sent → Option (List Message) → Option (List Sent)
chunks_sent before none = none
chunks_sent before (some ms) = some (before ++ map (λ (m : Message). body m.0 m.1) ms)

-- `_handle_simple`
unfoldable pub handle_simple : FileResponse → Bool → Bool → Option (List Sent)
unfolding chunks_sent simple_chunks
handle_simple r send_header_only send_pathsend =
    if send_header_only
    then some (start r.status_code r.headers ∷ body [] false ∷ [])
    else if send_pathsend
    then some (start r.status_code r.headers ∷ pathsend ∷ [])
    else chunks_sent (start r.status_code r.headers ∷ [])
        (simple_chunks r.chunk_size r.file (length r.file + 1) 0)

-- `_handle_single_range`
unfoldable pub handle_single_range : FileResponse → ℕ → ℕ → ℕ → Bool → Result (Option (List Sent))
unfolding chunks_sent range_chunks Headers.setitem show_nat
handle_single_range r start_at end file_size send_header_only = do
  headers ← Headers.setitem r.headers (codes "content-range") (
      codes "bytes "
      ++ show_nat start_at
      ++ codes "-"
      ++ show_nat (end - 1)
      ++ codes "/"
      ++ show_nat file_size)
  headers ← Headers.setitem headers (codes "content-length") (show_nat (end - start_at))
  ok (
      if send_header_only
      then some (start 206 headers ∷ body [] false ∷ [])
      else chunks_sent (start 206 headers ∷ [])
          (range_chunks r.chunk_size r.file (end - start_at + 1) start_at end))

-- the loop of `_handle_multiple_ranges`, with its last message
pub parts_sent : FileResponse → Str → Str → ℕ → List (ℕ × ℕ) → Option (List Sent)
unfolding chunks_sent part_chunks part_header
parts_sent r boundary content_type file_size [] =
    some (body (codes "\n--" ++ boundary ++ codes "--\n") false ∷ [])
parts_sent r boundary content_type file_size ((start_at, end) ∷ ranges) =
    elim (chunks_sent (body (part_header boundary file_size content_type start_at end) true ∷ [])
      (part_chunks r.chunk_size r.file (end - start_at + 1) start_at end)) [
        | none ↦ none
        | some part ↦ elim (parts_sent r boundary content_type file_size ranges) [
          | none ↦ none
          | some rest ↦ some (part ++ body (codes "\n") true ∷ rest)
        ]
      ]

-- `_handle_multiple_ranges`, with the boundary that `token_hex` gives
unfoldable pub handle_multiple_ranges :
    FileResponse → Str → List (ℕ × ℕ) → ℕ → Bool → Result (Option (List Sent))
unfolding parts_sent Headers.getitem Headers.setitem content_length show_nat
handle_multiple_ranges r boundary ranges file_size send_header_only = do
  content_type ← Headers.getitem r.headers (codes "content-type")
  headers ←
      Headers.setitem r.headers (codes "content-range")
        (codes "multipart/byteranges; boundary=" ++ boundary)
  headers ←
      Headers.setitem headers (codes "content-length")
        (show_nat (content_length boundary file_size content_type ranges))
  ok (
      if send_header_only
      then some (start 206 headers ∷ body [] false ∷ [])
      else (elim (parts_sent r boundary content_type file_size ranges) [
        | none ↦ none
        | some ms ↦ some (start 206 headers ∷ ms)
      ]))

-- `_should_use_range`
unfoldable pub should_use_range : FileResponse → Str → Result Bool
unfolding Headers.getitem
should_use_range r http_if_range = do
  last_modified ← Headers.getitem r.headers (codes "last-modified")
  if http_if_range == last_modified
      then ok true
      else (do etag ← Headers.getitem r.headers (codes "etag"); ok (http_if_range == etag))

-- what `__call__` sends: the messages, or a plain response with a status, a text and headers
pub data Answer : Type 0 where
  messages : Option (List Sent) → Answer
  plain : ℕ → Str → RawHeaders → Answer

pub answer_ranges : FileResponse → Str → Str → ℕ → Bool → Result Answer
unfolding parse_range_header handle_single_range handle_multiple_ranges
answer_ranges r boundary http_range file_size send_header_only =
    elim (parse_range_header http_range file_size) [
      | malformed content ↦ ok (plain 400 content [])
      | not_satisfiable max_size ↦
          ok (plain 416 [] ((codes "Content-Range", codes "*/" ++ show_nat max_size) ∷ []))
      | found ranges ↦ elim ranges [
        | (start_at, end) ∷ [] ↦ do
          ms ← handle_single_range r start_at end file_size send_header_only
          ok (messages ms)
        | other ↦ do
          ms ← handle_multiple_ranges r boundary other file_size send_header_only
          ok (messages ms)
      ]
    ]

pub uses_range : FileResponse → Option Str → Result Bool
unfolding should_use_range
uses_range r none = ok true
uses_range r (some http_if_range) = should_use_range r http_if_range

pub answer_request : FileResponse → Str → Option Str → Option Str → Bool → Bool → Result Answer
unfolding handle_simple answer_ranges uses_range
answer_request r boundary none http_if_range send_header_only send_pathsend =
    ok (messages (handle_simple r send_header_only send_pathsend))
answer_request r boundary (some http_range) http_if_range send_header_only send_pathsend = do
  use_range ← uses_range r http_if_range
  if use_range
      then answer_ranges r boundary http_range (length r.file) send_header_only
      else ok (messages (handle_simple r send_header_only send_pathsend))

-- `__call__`, on the method and the headers of the request
unfoldable pub call : FileResponse → Str → Str → RawHeaders → Bool → Result Answer
unfolding answer_request Headers.get upper
call r boundary method request_headers send_pathsend = do
  http_range ← Headers.get request_headers (codes "range")
  http_if_range ← Headers.get request_headers (codes "if-range")
  answer_request r boundary http_range http_if_range (upper method == codes "HEAD") send_pathsend
