-- ===== src/Prelude/Decimal.antt =====
-- `str(n)` and `int(s)` in decimal, for a number and for a text of ASCII digits.
use Prim.Native.Nat.{ℕ, zero, suc, ◌+◌, ◌-◌, ◌*◌, ◌/◌, ◌%◌, ◌<◌}
use mathlib.Core.Path.{◌≡◌, refl}
use mathlib.Core.Bool.{Bool, true, ◌&&◌}
use mathlib.Core.List.{List, [], ◌∷◌, ◌++◌}
use native.Mathlib.Omega.{arith}
use mathlib.Core.Logic.{inl, inr}
use starlette.Prelude.Tests.{ltb, if◌then◌else◌, Bool-cases}
use starlette.Prelude.Text.{Str, is_digit}

show_digits : ℕ → ℕ → Str
show_digits zero n = []
show_digits (suc fuel) n =
    let more = show_digits fuel (n / 10) ++ (48 + n % 10) ∷ [] in
    if ltb n 10 then (48 + n) ∷ [] else more

-- `str(n)`: a number has at most as many digits as its successor counts
unfoldable pub show_nat : ℕ → Str
unfolding show_digits
show_nat n = show_digits (suc n) n

read_from : ℕ → Str → ℕ
read_from acc [] = acc
read_from acc (c ∷ s) = read_from (acc * 10 + (c - 48)) s

-- `int(s)`
unfoldable pub read_nat : Str → ℕ
unfolding read_from
read_nat s = read_from 0 s

unfoldable pub all_digits : Str → Bool
unfolding is_digit
all_digits [] = true
all_digits (c ∷ s) = is_digit c && all_digits s

read_from-append :
    (acc : ℕ) (s : Str) (c : ℕ) → read_from acc (s ++ c ∷ []) ≡ read_from acc s * 10 + (c - 48)
unfolding read_from
read_from-append acc [] c = refl
read_from-append acc (d ∷ s) c = read_from-append (acc * 10 + (d - 48)) s c

read-show_digits : (fuel n : ℕ) → n < fuel → read_from 0 (show_digits fuel n) ≡ n
unfolding show_digits read_from
read-show_digits zero n h = absurd (omega arith)
read-show_digits (suc fuel) n h = ground (
  arith,
  read_from-append 0 (show_digits fuel (n / 10)) (48 + n % 10),
  read-show_digits fuel (n / 10),
)

-- Reading back what was printed.
pub read_nat-show_nat : (n : ℕ) → read_nat (show_nat n) ≡ n
unfolding show_nat read_nat
read_nat-show_nat n = read-show_digits (suc n) n (omega arith)

all_digits-append :
    (s : Str) (c : ℕ) → all_digits s ≡ true → is_digit c ≡ true → all_digits (s ++ c ∷ []) ≡ true
unfolding all_digits
all_digits-append [] c p q = ground arith
all_digits-append (d ∷ s) c p q = ground (arith, all_digits-append s c)

is_digit-add : (d : ℕ) → d < 10 → is_digit (48 + d) ≡ true
unfolding is_digit
is_digit-add d h = ground arith

all_digits-show_digits : (fuel n : ℕ) → all_digits (show_digits fuel n) ≡ true
unfolding show_digits all_digits
all_digits-show_digits zero n = refl
all_digits-show_digits (suc fuel) n = elim (Bool-cases (ltb n 10)) [
  | inl small ↦ rw small (ground (arith, is_digit-add n))
  | inr large ↦ rw large (
      all_digits-append (show_digits fuel (n / 10)) (48 + n % 10)
        (all_digits-show_digits fuel (n / 10)) (is_digit-add (n % 10) (omega arith)))
]

pub all_digits-show_nat : (n : ℕ) → all_digits (show_nat n) ≡ true
unfolding show_nat
all_digits-show_nat n = all_digits-show_digits (suc n) n

append-ne-nil {ℓ} : {A : Type ℓ} (s : List A) (c : A) → (s ++ c ∷ []) ≡ [] → ⊥
append-ne-nil [] c e = cc
append-ne-nil (d ∷ s) c e = cc

pub show_nat-ne-nil : (n : ℕ) → show_nat n ≡ [] → ⊥
unfolding show_nat show_digits
show_nat-ne-nil n e = ground (arith, append-ne-nil (show_digits n (n / 10)) (48 + n % 10))
