-- ===== src/Responses/Multipart.antt =====
-- FileResponse.generate_multipart and the body that _handle_multiple_ranges sends, in
-- starlette/responses.py.
use starlette.Prelude.{
  ℕ, ◌+◌, ◌-◌, ◌≤◌, ◌≡◌, refl, Option, none, some, List, [], ◌∷◌, ◌++◌, arith, length,
  length-append, All, ap, ◌∙◌,
}
use starlette.Prelude.Text.{Str, codes}
use starlette.Prelude.Decimal.{show_nat}
use starlette.Responses.Chunks.{Message, part_chunks, bodies}
use starlette.Responses.Chunks.Laws.{length-slice, part_chunks_lem}

module _ (boundary : Str) (max_size : ℕ) (content_type : Str) where
  -- the function that generate_multipart returns
  unfoldable pub part_header : ℕ → ℕ → Str
  part_header start end =
      codes "--"
      ++ boundary
      ++ codes "\nContent-Type: "
      ++ content_type
      ++ codes "\nContent-Range: bytes "
      ++ show_nat start
      ++ codes "-"
      ++ show_nat (end - 1)
      ++ codes "/"
      ++ show_nat max_size
      ++ codes "\n\n"

  static_header_part_len : ℕ
  static_header_part_len = 44 + length boundary + length content_type + length (show_nat max_size)

  -- of ranges that do not end before they start, as those of the parser
  parts_length : List (ℕ × ℕ) → ℕ
  unfolding static_header_part_len
  parts_length [] = 0
  parts_length ((start, end) ∷ ranges) =
      length (show_nat start)
      + length (show_nat (end - 1))
      + static_header_part_len
      + (end - start)
      + parts_length ranges

  -- the number that generate_multipart returns
  unfoldable pub content_length : List (ℕ × ℕ) → ℕ
  unfolding parts_length
  content_length ranges = parts_length ranges + (5 + length boundary)

  module _ (chunk_size : ℕ) (file : Str) where
    -- the bodies of one range: its header, its chunks and a line feed
    part_body : ℕ → ℕ → Option Str
    unfolding part_chunks bodies part_header
    part_body start end = elim (part_chunks chunk_size file (end - start + 1) start end) [
      | none ↦ none
      | some ms ↦ some (part_header start end ++ bodies ms ++ codes "\n")
    ]

    -- all bodies of the response, joined; none where a loop has not ended
    unfoldable pub multipart_body : List (ℕ × ℕ) → Option Str
    unfolding part_body
    multipart_body [] = some (codes "\n--" ++ boundary ++ codes "--\n")
    multipart_body ((start, end) ∷ ranges) = elim (part_body start end) [
      | none ↦ none
      | some part ↦ elim (multipart_body ranges) [ none ↦ none | some rest ↦ some (part ++ rest) ]
    ]

length-part_header :
    (boundary : Str) (max_size : ℕ) (content_type : Str) (start end : ℕ)
    → length (part_header boundary max_size content_type start end) + 1
      ≡ length (show_nat start)
        + length (show_nat (end - 1))
        + static_header_part_len boundary max_size content_type
unfolding part_header static_header_part_len
length-part_header boundary max_size content_type start end = simp length-append (omega arith)

length-part :
    (boundary : Str) (max_size : ℕ) (content_type : Str) (start end : ℕ) (content : Str)
    → length content ≡ end - start
    → length (part_header boundary max_size content_type start end ++ content ++ codes "\n")
      ≡ length (show_nat start)
        + length (show_nat (end - 1))
        + static_header_part_len boundary max_size content_type
        + (end - start)
length-part boundary max_size content_type start end content total = omega (
  arith,
  total,
  length-append (part_header boundary max_size content_type start end ++ content) (codes "\n"),
  length-append (part_header boundary max_size content_type start end) content,
  length-part_header boundary max_size content_type start end,
)

module _ (boundary : Str) (max_size : ℕ) (content_type : Str) (chunk_size : ℕ) (file : Str) where
  part_body-some :
      (start end : ℕ)
      → 1 ≤ chunk_size
      → end ≤ length file
      → (body : Str) × (part_body boundary max_size content_type chunk_size file start end
          ≡ some body)
        × (length body
            ≡ length (show_nat start)
              + length (show_nat (end - 1))
              + static_header_part_len boundary max_size content_type
              + (end - start))
  unfolding part_body
  part_body-some start end c h =
      let (ms, e, b, a) =
        part_chunks_lem chunk_size file (end - start + 1) start end c h (omega arith) in
      joined ms e (ap length b ∙ length-slice file start end h)
    where
      joined :
          (ms : List Message)
          → part_chunks chunk_size file (end - start + 1) start end ≡ some ms
          → length (bodies ms) ≡ end - start
          → (body : Str) × (part_body boundary max_size content_type chunk_size file start end
              ≡ some body)
            × (length body
                ≡ length (show_nat start)
                  + length (show_nat (end - 1))
                  + static_header_part_len boundary max_size content_type
                  + (end - start))
      joined ms e total = (
        part_header boundary max_size content_type start end ++ bodies ms ++ codes "\n",
        rw (part_body, e) refl,
        length-part boundary max_size content_type start end (bodies ms) total,
      )

  -- A response with several ranges of the file sends one byte more than its `content-length`
  -- says, whatever the ranges are.
  pub multipart_body_lem :
      (ranges : List (ℕ × ℕ))
      → 1 ≤ chunk_size
      → All (λ (r : ℕ × ℕ). r.1 ≤ length file) ranges
      → (body : Str) × (multipart_body boundary max_size content_type chunk_size file ranges
          ≡ some body)
        × (length body ≡ content_length boundary max_size content_type ranges + 1)
  unfolding multipart_body content_length parts_length
  multipart_body_lem [] c h =
      (codes "\n--" ++ boundary ++ codes "--\n", refl, simp length-append (omega arith))
  multipart_body_lem ((start, end) ∷ ranges) c (h, hs) =
      let (part, e, l) = part_body-some start end c h in
      let (rest, er, lr) = multipart_body_lem ranges c hs in
      (part ++ rest, rw (multipart_body, e, er) refl, simp length-append (omega (arith, l, lr)))
