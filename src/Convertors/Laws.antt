-- ===== src/Convertors/Laws.antt =====
-- What the regular expressions of the convertors accept, and that a convertor prints only what its
-- own expression accepts.
use starlette.Prelude.{
  ℕ, zero, suc, ◌+◌, ◌≤◌, ◌<◌, ◌≡◌, refl, sym, ◌∙◌, inl, inr, Bool, true, false, not, [], ◌∷◌, ◌++◌,
  arith, length, take, Elem, all, contains, ◌==◌, nat_eq, nat_beq_iff, ==_iff, Bool-cases,
}
use starlette.Prelude.Int.{ℤ, pos, negsuc}
use starlette.Prelude.Text.{Str, str_eq, is_digit}
use starlette.Prelude.Decimal.{
  show_nat, all_digits, all_digits-show_nat, show_nat-ne-nil, read_nat-show_nat,
}
use starlette.Prelude.Result.{ok, >>=-eq-ok}
use starlette.Convertors.{
  Value, int, Objects, Convertor, run_length, count_down, string_prefixes, path_prefixes,
  integer_prefixes, str_of, string_to_string, integer_to_string, to_int, nonnegative_string,
  string_convertor, path_convertor, integer_convertor,
}

Elem-count_down : (n k low : ℕ) → Elem n (count_down k low) → (low ≤ n) × (n < k + low)
unfolding count_down
Elem-count_down n zero low m = elim m [ ]
Elem-count_down n (suc k) low (inl e) = omega arith
Elem-count_down n (suc k) low (inr m) = omega (arith, Elem-count_down n k low m)

count_down-Elem : (n k low : ℕ) → low ≤ n → n < k + low → Elem n (count_down k low)
unfolding count_down
count_down-Elem n zero low h g = absurd (omega arith)
count_down-Elem n (suc k) low h g = elim (Bool-cases (n == k + low)) [
  | inl last ↦ inl ((nat_beq_iff n (k + low)).0 last)
  | inr other ↦ inr (count_down-Elem n k low h (ground arith))
]

module _ (p : ℕ → Bool) where
  run_length-le : (s : Str) → run_length p s ≤ length s
  unfolding run_length
  run_length-le [] = omega arith
  run_length-le (c ∷ s) = ground (arith, run_length-le s)

  all-take : (n : ℕ) (s : Str) → n ≤ run_length p s → all p (take n s) ≡ true
  unfolding run_length all
  all-take zero s h = refl
  all-take (suc n) [] h = absurd (omega arith)
  all-take (suc n) (c ∷ s) h = ground (arith, all-take n s)

  le-run_length : (w s : Str) → all p w ≡ true → length w ≤ run_length p (w ++ s)
  unfolding run_length all
  le-run_length [] s h = omega arith
  le-run_length (c ∷ w) s h = ground (arith, le-run_length w s)

abbrev pub is_slash : ℕ → Bool
is_slash c = c == b'/'

abbrev pub is_newline : ℕ → Bool
is_newline c = c == 10

-- A `str` parameter can take exactly the non-empty prefixes that hold no slash.
pub string_prefixes_lem :
    (s : Str) (n : ℕ)
    → Elem n (string_prefixes s)
    → (1 ≤ n) × (n ≤ length s) × (all (λ c. not (is_slash c)) (take n s) ≡ true)
unfolding string_prefixes
string_prefixes_lem s n m =
    let (low, high) = Elem-count_down n _ 1 m in
    (
      low,
      omega (arith, run_length-le (λ c. not (is_slash c)) s),
      all-take (λ c. not (is_slash c)) n s (omega arith),
    )

-- A `path` parameter can take exactly the prefixes that hold no line feed.
pub path_prefixes_lem :
    (s : Str) (n : ℕ)
    → Elem n (path_prefixes s)
    → (n ≤ length s) × (all (λ c. not (is_newline c)) (take n s) ≡ true)
unfolding path_prefixes
path_prefixes_lem s n m =
    let (low, high) = Elem-count_down n (suc (run_length (λ c. not (is_newline c)) s)) 0 m in
    (
      omega (arith, run_length-le (λ c. not (is_newline c)) s),
      all-take (λ c. not (is_newline c)) n s (omega arith),
    )

pub integer_prefixes_lem :
    (s : Str) (n : ℕ)
    → Elem n (integer_prefixes s)
    → (1 ≤ n) × (n ≤ length s) × (all is_digit (take n s) ≡ true)
unfolding integer_prefixes
integer_prefixes_lem s n m =
    let (low, high) = Elem-count_down n _ 1 m in
    (low, omega (arith, run_length-le is_digit s), all-take is_digit n s (omega arith))

-- The text fits the expression whole, whatever follows it.
abbrev pub Fits : {O : Type 0} → Convertor O → Str → Type 0
Fits c w = (rest : Str) → Elem (length w) (c.prefixes (w ++ rest))

not-contains-all : (s : Str) (a : ℕ) → contains s a ≡ false → all (λ c. not (c == a)) s ≡ true
unfolding contains all
not-contains-all [] a h = refl
not-contains-all (c ∷ s) a h = ground (arith, not-contains-all s a)

all_digits-all : (s : Str) → all_digits s ≡ true → all is_digit s ≡ true
unfolding all_digits all
all_digits-all [] h = refl
all_digits-all (c ∷ s) h = ground (arith, all_digits-all s)

length_pos : (s : Str) → (s ≡ [] → ⊥) → 1 ≤ length s
length_pos [] h = absurd (h refl)
length_pos (c ∷ s) h = omega arith

module _ {O : Type 0} (lib : Objects O) where
  string_Fits :
      (w : Str)
      → (w ≡ [] → ⊥)
      → all (λ c. not (is_slash c)) w ≡ true
      → Fits (string_convertor lib) w
  unfolding string_convertor string_prefixes
  string_Fits w filled h rest =
      count_down-Elem (length w) _ 1 (length_pos w filled)
        (omega (arith, le-run_length (λ c. not (is_slash c)) w rest h))

  string_to_string-ok :
      (v : Value O) {w : Str}
      → string_to_string lib v ≡ ok w
      → (w ≡ str_of lib v) × (contains w b'/' ≡ false) × (w ≡ [] → ⊥)
  unfolding string_to_string
  string_to_string-ok v e = ground (arith, ==_iff (str_of lib v) [])

  -- What the `str` convertor prints, its own expression accepts.
  pub string_to_string-Fits :
      (v : Value O) {w : Str}
      → (string_convertor lib).to_string v ≡ ok w
      → Fits (string_convertor lib) w
  unfolding string_convertor
  string_to_string-Fits v {w} e =
      let (same, plain, filled) = string_to_string-ok v e in
      string_Fits w filled (not-contains-all w b'/' plain)

  integer_to_string-ok :
      (v : Value O) {w : Str} → integer_to_string lib v ≡ ok w → (n : ℕ) × (w ≡ show_nat n)
  unfolding integer_to_string
  integer_to_string-ok v {w} e = let (z, ez, rest) = >>=-eq-ok (to_int lib v) _ e in printed z rest
    where
      printed : (z : ℤ) → nonnegative_string lib z ≡ ok w → (n : ℕ) × (w ≡ show_nat n)
      printed (pos n) h = (n, ground arith)
      printed (negsuc n) h = cc

  -- What the `int` convertor prints, its own expression accepts.
  pub integer_to_string-Fits :
      (v : Value O) {w : Str}
      → (integer_convertor lib).to_string v ≡ ok w
      → Fits (integer_convertor lib) w
  unfolding integer_convertor integer_prefixes
  integer_to_string-Fits v {w} e rest =
      let (n, same) = integer_to_string-ok v e in
      let digits : all is_digit w ≡ true =
        rw same (all_digits-all (show_nat n) (all_digits-show_nat n)) in
      let filled : w ≡ [] → ⊥ = λ h. show_nat-ne-nil n (sym same ∙ h) in
      count_down-Elem (length w) (run_length is_digit (w ++ rest)) 1 (length_pos w filled)
        (omega (arith, le-run_length is_digit w rest digits))

  -- What the `path` convertor prints, its own expression accepts if it holds no line feed.
  pub path_to_string-Fits :
      (v : Value O) {w : Str}
      → (path_convertor lib).to_string v ≡ ok w
      → all (λ c. not (is_newline c)) w ≡ true
      → Fits (path_convertor lib) w
  unfolding path_convertor path_prefixes
  path_to_string-Fits v {w} e h rest =
      count_down-Elem (length w) (suc (run_length (λ c. not (is_newline c)) (w ++ rest))) 0
        (omega arith) (omega (arith, le-run_length (λ c. not (is_newline c)) w rest h))

  -- An `int` parameter that was printed converts back to itself.
  integer_convert-to_string :
      (n : ℕ) {w : Str}
      → (integer_convertor lib).to_string (int (pos n)) ≡ ok w
      → (integer_convertor lib).convert w ≡ ok (int (pos n))
  unfolding integer_convertor integer_to_string
  integer_convert-to_string n {w} e = ground (arith, read_nat-show_nat n)
