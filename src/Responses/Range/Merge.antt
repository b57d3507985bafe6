-- ===== src/Responses/Range/Merge.antt =====
-- What merging the requested ranges of FileResponse comes to.
use starlette.Prelude.{
  ℕ, ◌≤◌, ◌<◌, ◌≡◌, refl, Bool, false, ◌&&◌, ◌||◌, List, [], ◌∷◌, arith, ltb, leb, All,
}
use starlette.Responses.Range.{insert_range, merge_ranges, merged}

-- byte `i` is in one of the ranges
abbrev pub covered : ℕ → List (ℕ × ℕ) → Bool
covered i [] = false
covered i ((start, end) ∷ ranges) = (leb start i && ltb i end) || covered i ranges

-- a range of a file of some size, whose start is a byte of the file
abbrev pub InFile : ℕ → ℕ × ℕ → Type 0
InFile size (start, end) = (start < size) × (start ≤ end) × (end ≤ size)

covered-insert_range :
    (i size : ℕ) (r : ℕ × ℕ) (result : List (ℕ × ℕ))
    → InFile size r
    → All (InFile size) result
    → covered i (insert_range r result) ≡ covered i (r ∷ result)
unfolding insert_range
covered-insert_range i size (start, end) [] h k = refl
covered-insert_range i size (start, end) ((p, q) ∷ result) h k =
    ground (arith, covered-insert_range i size (start, end) result)

insert_range-InFile :
    (size : ℕ) (r : ℕ × ℕ) (result : List (ℕ × ℕ))
    → InFile size r
    → All (InFile size) result
    → All (InFile size) (insert_range r result)
unfolding insert_range
insert_range-InFile size (start, end) [] h k = (h, tt)
insert_range-InFile size (start, end) ((p, q) ∷ result) h k =
    ground (arith, insert_range-InFile size (start, end) result)

merge_ranges-InFile :
    (size : ℕ) (result ranges : List (ℕ × ℕ))
    → All (InFile size) result
    → All (InFile size) ranges
    → All (InFile size) (merge_ranges result ranges)
unfolding merge_ranges
merge_ranges-InFile size result [] h k = h
merge_ranges-InFile size result (r ∷ ranges) h (k, ks) =
    merge_ranges-InFile size (insert_range r result) ranges (insert_range-InFile size r result k h)
      ks

covered-merge_ranges :
    (i size : ℕ) (result ranges : List (ℕ × ℕ))
    → All (InFile size) result
    → All (InFile size) ranges
    → covered i (merge_ranges result ranges) ≡ (covered i result || covered i ranges)
unfolding merge_ranges
covered-merge_ranges i size result [] h k = ground arith
covered-merge_ranges i size result ((start, end) ∷ ranges) h (k, ks) = ground (
  arith,
  covered-merge_ranges i size (insert_range (start, end) result) ranges
      (insert_range-InFile size (start, end) result k h) ks,
  covered-insert_range i size (start, end) result k h,
)

pub merged-InFile :
    (size : ℕ) (ranges : List (ℕ × ℕ))
    → All (InFile size) ranges
    → All (InFile size) (merged ranges)
unfolding merged
merged-InFile size [] h = merge_ranges-InFile size [] [] tt h
merged-InFile size (r ∷ []) h = h
merged-InFile size (r ∷ s ∷ ranges) h = merge_ranges-InFile size [] (r ∷ s ∷ ranges) tt h

-- Merging the ranges of a file neither adds nor loses a byte.
pub covered-merged :
    (i size : ℕ) (ranges : List (ℕ × ℕ))
    → All (InFile size) ranges
    → covered i (merged ranges) ≡ covered i ranges
unfolding merged
covered-merged i size [] h = covered-merge_ranges i size [] [] tt h
covered-merged i size (r ∷ []) h = refl
covered-merged i size (r ∷ s ∷ ranges) h = covered-merge_ranges i size [] (r ∷ s ∷ ranges) tt h

-- the ranges start no later than the ones behind them
abbrev pub StartsSorted : List (ℕ × ℕ) → Type 0
StartsSorted [] = Unit
StartsSorted ((start, end) ∷ ranges) = All (λ (r : ℕ × ℕ). start ≤ r.0) ranges × StartsSorted ranges

-- each range ends before the next one starts, with a byte between them
abbrev pub Separated : List (ℕ × ℕ) → Type 0
Separated [] = Unit
Separated ((start, end) ∷ ranges) = All (λ (r : ℕ × ℕ). end < r.0) ranges × Separated ranges

StartsBefore : ℕ → List (ℕ × ℕ) → Type 0
StartsBefore n result = All (λ (r : ℕ × ℕ). r.0 ≤ n) result

insert_range-StartsBefore :
    (n start end : ℕ) (result : List (ℕ × ℕ))
    → start ≤ n
    → StartsBefore n result
    → StartsBefore n (insert_range (start, end) result)
unfolding insert_range StartsBefore
insert_range-StartsBefore n start end [] h k = (h, tt)
insert_range-StartsBefore n start end ((p, q) ∷ result) h k =
    ground (arith, insert_range-StartsBefore n start end result)

insert_range-above :
    (n start end : ℕ) (result : List (ℕ × ℕ))
    → n < start
    → All (λ (r : ℕ × ℕ). n < r.0) result
    → All (λ (r : ℕ × ℕ). n < r.0) (insert_range (start, end) result)
unfolding insert_range
insert_range-above n start end [] h k = (h, tt)
insert_range-above n start end ((p, q) ∷ result) h k =
    ground (arith, insert_range-above n start end result)

insert_range-Separated :
    (start end : ℕ) (result : List (ℕ × ℕ))
    → start ≤ end
    → StartsBefore start result
    → Separated result
    → Separated (insert_range (start, end) result)
unfolding insert_range StartsBefore
insert_range-Separated start end [] o h k = (tt, tt)
insert_range-Separated start end ((p, q) ∷ []) o h k = ground arith
insert_range-Separated start end ((p, q) ∷ (u, v) ∷ result) o h k = ground (
  arith,
  insert_range-Separated start end ((u, v) ∷ result) o,
  insert_range-above q start end ((u, v) ∷ result),
)
