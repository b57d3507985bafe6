-- ===== src/Responses/Range/Laws.antt =====
-- What FileResponse._parse_range_header promises its callers.
use starlette.Prelude.{
  ℕ, ◌≤◌, ◌≡◌, ◌≢◌, true, none, some, List, [], ◌∷◌, arith, all, All, Option-cases, inl, inr,
}
use starlette.Prelude.Int.{ℤ, pos, negsuc}
use starlette.Prelude.Text.{Str, str_eq}
use starlette.Responses.Range.{
  found, parse_range_header, check_ranges, start_in_file, in_order, as_numbers, merged, requested,
  requested_ranges, split_once,
}
use starlette.Responses.Range.Merge.{InFile, covered, merged-InFile, covered-merged}

abbrev EndsInFile : ℕ → List (ℤ × ℕ) → Type 0
EndsInFile size rs = All (λ (r : ℤ × ℕ). r.1 ≤ size) rs

requested_ranges-EndsInFile :
    (size : ℕ) (range : Str) → EndsInFile size (requested_ranges size range)
unfolding requested_ranges requested
requested_ranges-EndsInFile size range = each _
  where
    each : (ms : List (Str × Str)) → EndsInFile size (mathlib.Core.List.map (requested size) ms)
    each [] = tt
    each ((a, b) ∷ ms) = (ground arith, each ms)

as_numbers-InFile :
    (size : ℕ) (rs : List (ℤ × ℕ))
    → EndsInFile size rs
    → all (start_in_file size) rs ≡ true
    → all in_order rs ≡ true
    → All (InFile size) (as_numbers rs)
unfolding as_numbers all start_in_file in_order
as_numbers-InFile size [] h a b = tt
as_numbers-InFile size ((pos start, end) ∷ rs) h a b = ground (arith, as_numbers-InFile size rs)
as_numbers-InFile size ((negsuc start, end) ∷ rs) h a b = ground arith

check_ranges-found :
    (size : ℕ) (rs : List (ℤ × ℕ)) {out : List (ℕ × ℕ)}
    → check_ranges size rs ≡ found out
    → (rs ≢ [])
      × (all (start_in_file size) rs ≡ true)
      × (all in_order rs ≡ true)
      × (out ≡ merged (as_numbers rs))
unfolding check_ranges
check_ranges-found size [] e = cc
check_ranges-found size (r ∷ rs) e = ground arith

abbrev pub behind_equals : Str → Str
behind_equals h = elim (split_once b'=' h) [ none ↦ [] | some (units, range) ↦ range ]

parse_range_header-found :
    (h : Str) (size : ℕ) {out : List (ℕ × ℕ)}
    → parse_range_header h size ≡ found out
    → check_ranges size (requested_ranges size (behind_equals h)) ≡ found out
unfolding parse_range_header
parse_range_header-found h size {out} e = elim (Option-cases (split_once b'=' h)) [
  | inl missing ↦ ground arith
  | inr ((units, range), there) ↦ ground arith
]

-- Every range that the parser returns starts in the file and ends, not before its start, at the
-- end of the file or earlier. The bytes in the returned ranges are those in the ranges asked for.
pub parse_range_header_lem :
    (h : Str) (size : ℕ) {out : List (ℕ × ℕ)}
    → parse_range_header h size ≡ found out
    → All (InFile size) out
      × ((i : ℕ) → covered i out ≡ covered i (as_numbers (requested_ranges size (behind_equals h))))
parse_range_header_lem h size {out} e =
    let (filled, starts, order, same) =
      check_ranges-found size (requested_ranges size (behind_equals h))
        (parse_range_header-found h size e) in
    let inside : All (InFile size) (as_numbers (requested_ranges size (behind_equals h))) =
      as_numbers-InFile size _ (requested_ranges-EndsInFile size (behind_equals h)) starts order in
    (rw same (merged-InFile size _ inside), λ i. rw same (covered-merged i size _ inside))
