-- ===== src/Responses/File/Laws.antt =====
-- What a client gets for one range of a file.
use starlette.Prelude.{
  ℕ, ◌+◌, ◌-◌, ◌≤◌, ◌≡◌, refl, ap, sym, ◌∙◌, Bool, true, false, Option, some, List, [], ◌∷◌, ◌++◌,
  map, length, arith, list_beq, if◌then◌else◌,
}
use starlette.Prelude.Text.{Str, codes, str_eq, lower, lower_code, is_digit}
use starlette.Prelude.Decimal.{show_nat, all_digits, all_digits-show_nat}
use starlette.Prelude.Result.{ok}
use starlette.Datastructures.Headers
use starlette.Datastructures.Headers.{RawHeaders, is_latin1}
use starlette.Datastructures.Headers.Reference.{replaced}
use starlette.Datastructures.Headers.Laws.{setitem_lem, getlist-setitem}
use starlette.Responses.Chunks.{Message, range_chunks, bodies, announced}
use starlette.Responses.Chunks.Laws.{slice, length-slice, range_chunks_lem}
use starlette.Responses.File.{Sent, start, body, FileResponse, chunks_sent, handle_single_range}

is_latin1-append : (a b : Str) → is_latin1 a ≡ true → is_latin1 b ≡ true → is_latin1 (a ++ b) ≡ true
unfolding is_latin1
is_latin1-append [] b h k = k
is_latin1-append (c ∷ a) b h k = ground (arith, is_latin1-append a b)

is_latin1-all_digits : (s : Str) → all_digits s ≡ true → is_latin1 s ≡ true
unfolding is_latin1 all_digits is_digit
is_latin1-all_digits [] h = refl
is_latin1-all_digits (c ∷ s) h = ground (arith, is_latin1-all_digits s)

is_latin1-show_nat : (n : ℕ) → is_latin1 (show_nat n) ≡ true
is_latin1-show_nat n = is_latin1-all_digits (show_nat n) (all_digits-show_nat n)

-- the value of `content-range`
abbrev pub content_range : ℕ → ℕ → ℕ → Str
content_range first end file_size =
    codes "bytes "
    ++ show_nat first
    ++ codes "-"
    ++ show_nat (end - 1)
    ++ codes "/"
    ++ show_nat file_size

is_latin1-content_range :
    (first end file_size : ℕ) → is_latin1 (content_range first end file_size) ≡ true
unfolding is_latin1
is_latin1-content_range first end file_size =
    let a = is_latin1-append (codes "bytes ") (show_nat first) refl (is_latin1-show_nat first) in
    let b = is_latin1-append (codes "bytes " ++ show_nat first) (codes "-") a refl in
    let c =
      is_latin1-append (codes "bytes " ++ show_nat first ++ codes "-") (show_nat (end - 1)) b
        (is_latin1-show_nat (end - 1)) in
    let d =
      is_latin1-append (codes "bytes " ++ show_nat first ++ codes "-" ++ show_nat (end - 1))
        (codes "/") c refl in
    is_latin1-append
      (codes "bytes " ++ show_nat first ++ codes "-" ++ show_nat (end - 1) ++ codes "/")
      (show_nat file_size) d (is_latin1-show_nat file_size)

range_key : Headers.header_key (codes "content-range") ≡ ok (codes "content-range")
unfolding Headers.header_key Headers.encode is_latin1 lower lower_code
range_key = refl

length_key : Headers.header_key (codes "content-length") ≡ ok (codes "content-length")
unfolding Headers.header_key Headers.encode is_latin1 lower lower_code
length_key = refl

-- the headers of the answer
abbrev with_range : RawHeaders → ℕ → ℕ → ℕ → RawHeaders
with_range headers first end file_size =
    replaced (codes "content-length") (show_nat (end - first))
      (replaced (codes "content-range") (content_range first end file_size) headers)

module _ (headers : RawHeaders) (first end file_size : ℕ) where
  abbrev ranged : RawHeaders
  ranged = replaced (codes "content-range") (content_range first end file_size) headers

  setitem-range :
      Headers.setitem headers (codes "content-range") (content_range first end file_size)
      ≡ ok ranged
  setitem-range =
      setitem_lem headers (codes "content-range") (content_range first end file_size)
        (codes "content-range") range_key (is_latin1-content_range first end file_size)

  setitem-length :
      Headers.setitem ranged (codes "content-length") (show_nat (end - first))
      ≡ ok (with_range headers first end file_size)
  setitem-length =
      setitem_lem ranged (codes "content-length") (show_nat (end - first)) (codes "content-length")
        length_key (is_latin1-show_nat (end - first))

  getlist-length :
      Headers.getlist (with_range headers first end file_size) (codes "content-length")
      ≡ ok (show_nat (end - first) ∷ [])
  unfolding list_beq
  getlist-length =
      getlist-setitem ranged (codes "content-length") (show_nat (end - first))
        (codes "content-length") (codes "content-length") (codes "content-length") setitem-length
        length_key length_key

  getlist-range :
      Headers.getlist (with_range headers first end file_size) (codes "content-range")
      ≡ ok (content_range first end file_size ∷ [])
  unfolding list_beq
  getlist-range =
      getlist-setitem ranged (codes "content-length") (show_nat (end - first))
        (codes "content-range") (codes "content-length") (codes "content-range") setitem-length
        length_key range_key
      ∙ getlist-setitem headers (codes "content-range") (content_range first end file_size)
          (codes "content-range") (codes "content-range") (codes "content-range") setitem-range
          range_key range_key

module _ (r : FileResponse) (first end file_size : ℕ) where
  abbrev answered : Bool → Option (List Sent)
  answered send_header_only =
      if send_header_only
      then some (start 206 (with_range r.headers first end file_size) ∷ body [] false ∷ [])
      else chunks_sent (start 206 (with_range r.headers first end file_size) ∷ [])
          (range_chunks r.chunk_size r.file (end - first + 1) first end)

  handle_single_range_lem :
      (send_header_only : Bool)
      → handle_single_range r first end file_size send_header_only ≡ ok (answered send_header_only)
  unfolding handle_single_range
  handle_single_range_lem send_header_only =
      rw (setitem-range r.headers first end file_size)
        (rw (setitem-length r.headers first end file_size) refl)

  -- For a range of the file, and where a chunk has a byte, the answer never fails: it starts with
  -- status 206 and headers that name the range as `content-range` and its length as
  -- `content-length`, each once; then come the bytes of the range, as many as that length, of which
  -- only the last message says that no other follows. The answer to a `HEAD` has the same headers
  -- and no byte.
  pub handle_single_range-answer :
      1 ≤ r.chunk_size
      → first ≤ end
      → end ≤ length r.file
      → (headers : RawHeaders) × (ms : List Message) × (handle_single_range r first end file_size
            false
          ≡ ok (some (start 206 headers ∷ map (λ (m : Message). body m.0 m.1) ms)))
        × (handle_single_range r first end file_size true
            ≡ ok (some (start 206 headers ∷ body [] false ∷ [])))
        × (Headers.getlist headers (codes "content-range")
            ≡ ok (content_range first end file_size ∷ []))
        × (Headers.getlist headers (codes "content-length")
            ≡ ok (show_nat (length (bodies ms)) ∷ []))
        × (bodies ms ≡ slice r.file first end)
        × (announced ms ≡ true)
  unfolding chunks_sent
  handle_single_range-answer c f e =
      let (ms, got, sent, last) =
        range_chunks_lem r.chunk_size r.file (end - first + 1) first end c e (omega arith) in
      let length_sent : end - first ≡ length (bodies ms) =
        sym (ap length sent ∙ length-slice r.file first end e) in
      (
        with_range r.headers first end file_size,
        ms,
        handle_single_range_lem false
            ∙ ap ok
                (ap (chunks_sent (start 206 (with_range r.headers first end file_size) ∷ [])) got),
        handle_single_range_lem true,
        getlist-range r.headers first end file_size,
        getlist-length r.headers first end file_size ∙ ap (λ n. ok (show_nat n ∷ [])) length_sent,
        sent,
        last,
      )
