-- ===== src/Responses/Range.antt =====
-- FileResponse._parse_range_header: the `range` header of a request, in starlette/responses.py.
--
-- The header was decoded as latin-1, where the digits of `\d` are the ASCII ones. A byte range is
-- a pair of its first byte and the byte behind its last one.
pub mod Laws
pub mod Merge
use mathlib.Core.List.{reverse}
use starlette.Prelude.{
  ℕ, ◌+◌, min, max, Bool, true, false, not, ◌&&◌, ◌||◌, Option, none, some, List, [], ◌∷◌, ◌++◌,
  map, ltb, leb, ◌==◌, nat_eq, all, if◌then◌else◌,
}
use starlette.Prelude.Int.{ℤ, pos, sub_ℕ, pos_part, ltb_ℤ}
use starlette.Prelude.Text.{Str, codes, str_eq, lower, is_digit}
use starlette.Prelude.Decimal.{read_nat}

-- What the parser returns or raises: the ranges, MalformedRangeHeader with its content, or
-- RangeNotSatisfiable with the size.
pub data Parsed : Type 0 where
  found : List (ℕ × ℕ) → Parsed
  malformed : Str → Parsed
  not_satisfiable : ℕ → Parsed

-- where `_RANGE_PATTERN` stands in the text: behind a run of digits, or behind a dash that has a
-- run of digits before it and one behind it
pub data Scan : Type 0 where
  outside : Str → Scan
  behind : Str → Str → Scan

pub scan_step : Scan → ℕ → Scan × List (Str × Str)
unfolding is_digit
scan_step (outside run) c =
    if is_digit c
    then (outside (run ++ c ∷ []), [])
    else if c == b'-'
    then (behind run [], [])
    else (outside [], [])
scan_step (behind first run) c =
    if is_digit c
    then (behind first (run ++ c ∷ []), [])
    else if c == b'-'
    then (behind [] [], (first, run) ∷ [])
    else (outside [], (first, run) ∷ [])

scan_end : Scan → List (Str × Str)
scan_end (outside run) = []
scan_end (behind first run) = (first, run) ∷ []

-- the groups of each match of `(\d*)-(\d*)`, as `findall` lists them
pub find_ranges : Scan → Str → List (Str × Str)
unfolding scan_step scan_end
find_ranges scan [] = scan_end scan
find_ranges scan (c ∷ s) = let (next, matched) = scan_step scan c in matched ++ find_ranges next s

-- `text.split(c, 1)` in two parts, none where there is only one
unfoldable pub split_once : ℕ → Str → Option (Str × Str)
split_once c [] = none
split_once c (d ∷ s) =
    let rest = split_once c s in
    if d == c then some ([], s) else elim rest [ none ↦ none | some (a, b) ↦ some (d ∷ a, b) ]

-- the latin-1 characters that `str.strip` takes away
unfoldable pub is_space : ℕ → Bool
is_space c = (leb 9 c && leb c 13) || (leb 0x1c c && leb c 0x20) || c == 0x85 || c == 0xa0

unfoldable pub skip_space : Str → Str
unfolding is_space
skip_space [] = []
skip_space (c ∷ s) = if is_space c then skip_space s else c ∷ s

-- `s.strip()`
unfoldable pub strip : Str → Str
unfolding skip_space
strip s = reverse (skip_space (reverse (skip_space s)))

-- drops the matches of a lone dash
pub nonempty_matches : List (Str × Str) → List (Str × Str)
nonempty_matches [] = []
nonempty_matches ((a, b) ∷ rest) =
    let kept = nonempty_matches rest in if (a == []) && (b == []) then kept else (a, b) ∷ kept

-- the tuple of one match: `a-b`, `a-` up to the end, or `-b`, the last `b` bytes
unfoldable pub requested : ℕ → Str × Str → ℤ × ℕ
unfolding read_nat
requested file_size (a, b) = (
  (if a == [] then sub_ℕ file_size (read_nat b) else pos (read_nat a)),
  (if not (a == []) && (not (b == []) && ltb (read_nat b) file_size)
      then read_nat b + 1
      else file_size),
)

unfoldable pub requested_ranges : ℕ → Str → List (ℤ × ℕ)
unfolding find_ranges nonempty_matches requested
requested_ranges file_size range =
    map (requested file_size) (nonempty_matches (find_ranges (outside []) range))

-- `0 <= start < file_size`
unfoldable pub start_in_file : ℕ → ℤ × ℕ → Bool
start_in_file file_size (start, end) = not (ltb_ℤ start (pos 0)) && ltb_ℤ start (pos file_size)

-- not `start > end`
unfoldable pub in_order : ℤ × ℕ → Bool
in_order (start, end) = not (ltb_ℤ (pos end) start)

-- one turn of the merging loop: the first range that is not wholly before the new one takes it in,
-- or stands behind it
unfoldable pub insert_range : ℕ × ℕ → List (ℕ × ℕ) → List (ℕ × ℕ)
insert_range (start, end) [] = (start, end) ∷ []
insert_range (start, end) ((p_start, p_end) ∷ result) =
    let later = insert_range (start, end) result in
    if ltb p_end start
    then (p_start, p_end) ∷ later
    else if ltb end p_start
    then (start, end) ∷ (p_start, p_end) ∷ result
    else (min start p_start, max end p_end) ∷ result

unfoldable pub merge_ranges : List (ℕ × ℕ) → List (ℕ × ℕ) → List (ℕ × ℕ)
merge_ranges result [] = result
merge_ranges result (r ∷ ranges) = merge_ranges (insert_range r result) ranges

-- `if len(ranges) == 1: return ranges`, then the loop
unfoldable pub merged : List (ℕ × ℕ) → List (ℕ × ℕ)
merged (r ∷ []) = r ∷ []
merged ranges = merge_ranges [] ranges

-- the checked ranges as numbers: none of them starts below 0
unfoldable pub as_numbers : List (ℤ × ℕ) → List (ℕ × ℕ)
as_numbers [] = []
as_numbers ((start, end) ∷ ranges) = (pos_part start, end) ∷ as_numbers ranges

unfoldable pub check_ranges : ℕ → List (ℤ × ℕ) → Parsed
check_ranges file_size [] = malformed (codes "Range header: range must be requested")
check_ranges file_size (r ∷ rs) =
    if not (all (start_in_file file_size) (r ∷ rs))
    then not_satisfiable file_size
    else if not (all in_order (r ∷ rs))
    then malformed (codes "Range header: start must be less than end")
    else found (merged (as_numbers (r ∷ rs)))

unfoldable pub parse_range_header : Str → ℕ → Parsed
parse_range_header http_range file_size = elim (split_once b'=' http_range) [
  | none ↦ malformed (codes "Malformed range header.")
  | some (units, range) ↦
      if lower (strip units) == codes "bytes"
      then check_ranges file_size (requested_ranges file_size range)
      else malformed (codes "Only support bytes range")
]
