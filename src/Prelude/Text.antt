-- ===== src/Prelude/Text.antt =====
-- Python's `str` and `bytes` as lists of code points and of bytes, and what the program calls of
-- their methods.
use Prim.Native.Nat.{ℕ, ◌+◌, ◌-◌}
use Prim.Native.Char.{code}
use Prim.Native.String.{String}
use mathlib.Core.Path.{◌≡◌, refl}
use mathlib.Core.Bool.{Bool, true, false, not, ◌&&◌, ◌||◌}
use mathlib.Core.List.{List, [], ◌∷◌, ◌++◌, map, reverse}
use native.Mathlib.Omega.{arith}
use starlette.Prelude.Tests.{Eq, ◌==◌, nat_eq, leb, if◌then◌else◌, list_beq, list_beq_iff}

abbrev pub Str : Type 0
Str = List ℕ

-- The code points of a literal. `String` has its own `[]` and `∷`.
abbrev pub codes : String → Str
codes String.[] = []
codes (String.◌∷◌ c s) = code c ∷ codes s

instance abbrev pub str_eq : Eq Str
str_eq = record { same = list_beq; same_iff = list_beq_iff }

-- `s.startswith(p)`
unfoldable pub starts_with : Str → Str → Bool
starts_with [] s = true
starts_with (c ∷ p) [] = false
starts_with (c ∷ p) (d ∷ s) = (c == d) && starts_with p s

-- `s.endswith(p)`
unfoldable pub ends_with : Str → Str → Bool
unfolding starts_with
ends_with p s = starts_with (reverse p) (reverse s)

-- `p in s`, of texts
unfoldable pub has_part : Str → Str → Bool
unfolding starts_with
has_part p [] = starts_with p []
has_part p (c ∷ s) = starts_with p (c ∷ s) || has_part p s

-- the longest prefix without `c`: `s.split(c)[0]`
unfoldable pub before : ℕ → Str → Str
before c [] = []
before c (d ∷ s) = if d == c then [] else d ∷ before c s

-- `s.lstrip(c)`, of one character
unfoldable pub lstrip : ℕ → Str → Str
lstrip c [] = []
lstrip c (d ∷ s) = if d == c then lstrip c s else d ∷ s

-- `s.rstrip(c)`, of one character
unfoldable pub rstrip : ℕ → Str → Str
unfolding lstrip
rstrip c s = reverse (lstrip c (reverse s))

abbrev cons_first : ℕ → List Str → List Str
cons_first d [] = (d ∷ []) ∷ []
cons_first d (w ∷ ws) = (d ∷ w) ∷ ws

-- `s.split(c)`, of one character: never empty
unfoldable pub split : ℕ → Str → List Str
split c [] = [] ∷ []
split c (d ∷ s) = let rest = split c s in if d == c then [] ∷ rest else cons_first d rest

-- `sep.join(parts)`
unfoldable pub join : Str → List Str → Str
join sep [] = []
join sep (w ∷ []) = w
join sep (w ∷ v ∷ ws) = w ++ (sep ++ join sep (v ∷ ws))

-- `str.lower` of one code point. It is exact below 256 and on the four code points above that
-- lower-case into latin-1; any other is left as it is, since its lower case lies outside latin-1
-- too, where a header name raises in either form.
unfoldable pub lower_code : ℕ → ℕ
lower_code c =
    if leb b'A' c && leb c b'Z'
    then c + 32
    else if leb 0xc0 c && (leb c 0xde && not (c == 0xd7))
    then c + 32
    else if c == 0x178
    then 0xff
    else if c == 0x1e9e
    then 0xdf
    else if c == 0x212a
    then b'k'
    else if c == 0x212b
    then 0xe5
    else c

-- `s.lower()`
unfoldable pub lower : Str → Str
unfolding lower_code
lower s = map lower_code s

-- `s.upper()`, of an ASCII text
unfoldable pub upper : Str → Str
upper s = map (λ c. if leb b'a' c && leb c b'z' then c - 32 else c) s

unfoldable pub is_digit : ℕ → Bool
is_digit c = leb b'0' c && leb c b'9'

lower_code_idem : (c : ℕ) → lower_code (lower_code c) ≡ lower_code c
unfolding lower_code
lower_code_idem c = ground arith

-- Lower case is stable.
pub lower-lower : (s : Str) → lower (lower s) ≡ lower s
unfolding lower
lower-lower [] = refl
lower-lower (c ∷ s) = λ i. lower_code_idem c i ∷ lower-lower s i
