-- ===== src/Responses/Tests.antt =====
-- Runs of the byte range functions of starlette/responses.py.
use starlette.Prelude.{
  ◌≡◌, refl, ℕ, ◌+◌, false, true, List, [], ◌∷◌, some, none, arith, All, length, list_beq, all, map,
  take,
}
use starlette.Prelude.Text.{Str, codes, lower}
use starlette.Prelude.Decimal.{read_nat, show_nat}
use starlette.Datastructures.Headers
use starlette.Datastructures.Headers.{RawHeaders}
use starlette.Responses.Range.{
  found, not_satisfiable, parse_range_header, split_once, strip, requested_ranges, requested,
  check_ranges, start_in_file, in_order, as_numbers, merged, merge_ranges, insert_range,
}
use starlette.Responses.Range.Merge.{InFile, covered}
use starlette.Responses.Range.Laws.{behind_equals, parse_range_header_lem}
use starlette.Responses.Chunks.{Message, part_chunks, bodies, announced}
use starlette.Responses.Chunks.Laws.{slice}
use starlette.Responses.File.{FileResponse, start, body, handle_single_range}
use starlette.Responses.File.Laws.{content_range, handle_single_range-answer}
use starlette.Responses.Sending.{text, bytes, raises, streaming_call}
use starlette.Responses.Sending.Laws.{at, messages, chunk_messages, streaming_call_lem}
use starlette.Prelude.Result.{ok, client_disconnect}
use starlette.Responses.Multipart.{multipart_body, content_length, multipart_body_lem}

abbrev alphabet : Str
alphabet = codes "abcdefghij"

two_ranges : parse_range_header (codes "Bytes=0-4, 8-") 10 ≡ found ((0, 5) ∷ (8, 10) ∷ [])
unfolding parse_range_header split_once strip lower list_beq requested_ranges requested check_ranges
    start_in_file in_order as_numbers merged merge_ranges insert_range read_nat all
two_ranges = refl

parse_range_header_lem_example :
    All (InFile 10) ((0, 5) ∷ (8, 10) ∷ [])
    × ((i : ℕ)
        → covered i ((0, 5) ∷ (8, 10) ∷ [])
          ≡ covered i (as_numbers (requested_ranges 10 (behind_equals (codes "Bytes=0-4, 8-")))))
parse_range_header_lem_example = parse_range_header_lem (codes "Bytes=0-4, 8-") 10 two_ranges

abbrev alphabet_file : FileResponse
alphabet_file = record {
  chunk_size = 3;
  status_code = 200;
  headers = (codes "content-length", codes "10") ∷ [];
  file = alphabet;
}

handle_single_range-answer_example :
    (headers : RawHeaders) × (ms : List Message) × (handle_single_range alphabet_file 2 9 10 false
      ≡ ok (some (start 206 headers ∷ map (λ (m : Message). body m.0 m.1) ms)))
    × (handle_single_range alphabet_file 2 9 10 true
        ≡ ok (some (start 206 headers ∷ body [] false ∷ [])))
    × (Headers.getlist headers (codes "content-range") ≡ ok (content_range 2 9 10 ∷ []))
    × (Headers.getlist headers (codes "content-length") ≡ ok (show_nat (length (bodies ms)) ∷ []))
    × (bodies ms ≡ slice alphabet 2 9)
    × (announced ms ≡ true)
handle_single_range-answer_example =
    handle_single_range-answer alphabet_file 2 9 10 (omega arith) (omega arith) (omega arith)

-- the server goes away before the second of two chunks
streaming_call_lem_example :
    ((streaming_call
        (λ s. s)
        200
        []
        (text (codes "a") ∷ bytes (codes "b") ∷ [])
        none
        (some alphabet)
        (at 2 [])).1.sent
      ≡ take 2 (messages (λ s. s) 200 [] (text (codes "a") ∷ bytes (codes "b") ∷ []) none))
    × ((streaming_call
          (λ s. s)
          200
          []
          (text (codes "a") ∷ bytes (codes "b") ∷ [])
          none
          (some alphabet)
          (at 2 [])).0
        ≡ raises client_disconnect)
unfolding chunk_messages
streaming_call_lem_example =
    streaming_call_lem (λ s. s) 200 [] (text (codes "a") ∷ bytes (codes "b") ∷ []) none
      (some alphabet) 2 []

multipart_body_lem_example :
    (body : Str) × (multipart_body
        (codes "xyz")
        10
        (codes "text/plain")
        4
        alphabet
        ((0, 5) ∷ (8, 10) ∷ [])
      ≡ some body)
    × (length body
        ≡ content_length (codes "xyz") 10 (codes "text/plain") ((0, 5) ∷ (8, 10) ∷ []) + 1)
multipart_body_lem_example =
    multipart_body_lem (codes "xyz") 10 (codes "text/plain") 4 alphabet ((0, 5) ∷ (8, 10) ∷ [])
      (omega arith) (omega arith, (omega arith, tt))

-- `FileResponse` over a file that ended early: the last chunk is empty and the loop goes on.
truncated_file : part_chunks 4 (codes "ab") 6 0 5 ≡ none
unfolding part_chunks
truncated_file = refl

-- A range that ends one byte before it starts is taken as an empty one.
empty_range : parse_range_header (codes "bytes=5-4") 10 ≡ found ((5, 5) ∷ [])
unfolding parse_range_header split_once strip lower list_beq requested_ranges requested check_ranges
    start_in_file in_order as_numbers merged read_nat all
empty_range = refl

-- Ranges out of order can leave ranges that overlap.
overlapping : merged ((0, 10) ∷ (20, 30) ∷ (5, 25) ∷ []) ≡ (0, 25) ∷ (20, 30) ∷ []
unfolding merged merge_ranges insert_range
overlapping = refl

long_suffix : parse_range_header (codes "bytes=-11") 10 ≡ not_satisfiable 10
unfolding parse_range_header split_once strip lower list_beq requested_ranges requested check_ranges
    start_in_file read_nat all
long_suffix = refl

abbrev plain_headers : RawHeaders
plain_headers =
    (codes "content-length", codes "5")
    ∷ (codes "content-type", codes "text/plain; charset=utf-8")
    ∷ []
