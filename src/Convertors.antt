-- ===== src/Convertors.antt =====
-- starlette/convertors.py: the path parameter convertors and their registry.
--
-- A regular expression stands by what a matcher with backtracking does with it: the lengths of the
-- prefixes that it can take of a text, in the order in which it tries them.
pub mod Laws
mod Tests
use mathlib.Core.List.{reverse}
use starlette.Prelude.{
  ℕ, zero, suc, ◌+◌, ◌-◌, Bool, true, false, not, ◌&&◌, ◌||◌, Option, none, some, List, [], ◌∷◌,
  ◌++◌, length, drop, leb, contains, ◌==◌, nat_eq, if◌then◌else◌,
}
use starlette.Prelude.Int.{ℤ, pos, negsuc}
use starlette.Prelude.Text.{Str, codes, str_eq, is_digit, rstrip}
use starlette.Prelude.Decimal.{show_nat, read_nat}
use starlette.Prelude.Dict.{Dict, insert}
use starlette.Prelude.Result.{Result, ok, raise, assertion_error, type_error, ensure, ◌>>=◌, ◌>>◌}

-- Path parameters: texts, integers, and the objects of other classes (floats, UUIDs and those of
-- an application's own convertors), whose type is `O`.
pub data Value (O : Type 0) : Type 0 where
  text : Str → Value O
  int : ℤ → Value O
  other : O → Value O

-- What Python's `str`, `int`, `float` and `uuid.UUID` make of such values.
pub record Objects (O : Type 0) : Type 0 where
  pub show : O → Str
  -- `int(v)` of a value that is no `int`
  pub int_of : Value O → Result ℤ
  pub float_of : Value O → Result O
  pub is_nonnegative : O → Bool
  pub is_nan : O → Bool
  pub is_inf : O → Bool
  -- `"%0.20f" % v`
  pub format_20f : O → Str
  pub uuid_of : Str → Result O

pub record Convertor (O : Type 0) : Type 0 where
  -- the `regex` class attribute
  pub prefixes : Str → List ℕ
  pub convert : Str → Result (Value O)
  pub to_string : Value O → Result Str

-- the length of the longest prefix of characters that pass a test
unfoldable pub run_length : (ℕ → Bool) → Str → ℕ
run_length p [] = 0
run_length p (c ∷ s) = if p c then suc (run_length p s) else 0

-- `n` lengths downwards, the last of them `low`
unfoldable pub count_down : ℕ → ℕ → List ℕ
count_down zero low = []
count_down (suc n) low = (n + low) ∷ count_down n low

-- `[^/]+`
unfoldable pub string_prefixes : Str → List ℕ
unfolding count_down run_length
string_prefixes s = count_down (run_length (λ c. not (c == b'/')) s) 1

-- `.*`; a dot takes any character but the line feed
unfoldable pub path_prefixes : Str → List ℕ
unfolding count_down run_length
path_prefixes s = count_down (suc (run_length (λ c. not (c == 10)) s)) 0

-- `[0-9]+`
unfoldable pub integer_prefixes : Str → List ℕ
unfolding count_down run_length is_digit
integer_prefixes s = count_down (run_length is_digit s) 1

-- the digits behind a dot, none where there is no dot
fraction_length : Str → ℕ
fraction_length [] = 0
fraction_length (c ∷ s) = if c == b'.' then run_length is_digit s else 0

-- `[0-9]+(\.[0-9]+)?`: only behind all of the digits can there be a dot
unfoldable pub float_prefixes : Str → List ℕ
unfolding count_down run_length fraction_length is_digit
float_prefixes s =
    let n = run_length is_digit s in
    if n == 0 then [] else count_down (fraction_length (drop n s)) (n + 2) ++ count_down n 1

is_hex : ℕ → Bool
unfolding is_digit
is_hex c = is_digit c || (leb b'a' c && leb c b'f' || leb b'A' c && leb c b'F')

-- the text behind `n` hexadecimal digits
skip_hex : ℕ → Str → Option Str
unfolding is_hex
skip_hex zero s = some s
skip_hex (suc n) [] = none
skip_hex (suc n) (c ∷ s) = if is_hex c then skip_hex n s else none

skip_dash : Str → Str
skip_dash [] = []
skip_dash (c ∷ s) = if c == b'-' then s else c ∷ s

skip_groups : List ℕ → Str → Option Str
unfolding skip_hex skip_dash
skip_groups [] s = some s
skip_groups (n ∷ ns) s = elim (skip_hex n (skip_dash s)) [
  | none ↦ none
  | some rest ↦ skip_groups ns rest
]

-- `[0-9a-fA-F]{8}-?[0-9a-fA-F]{4}-?[0-9a-fA-F]{4}-?[0-9a-fA-F]{4}-?[0-9a-fA-F]{12}`: a dash is no
-- digit, so at most one length fits
unfoldable pub uuid_prefixes : Str → List ℕ
unfolding skip_groups
uuid_prefixes s = elim (skip_hex 8 s) [
  | none ↦ []
  | some rest ↦ elim (skip_groups (4 ∷ 4 ∷ 4 ∷ 12 ∷ []) rest) [
    | none ↦ []
    | some end ↦ (length s - length end) ∷ []
  ]
]

module _ {O : Type 0} (lib : Objects O) where
  open lib use {show, int_of, float_of, is_nonnegative, is_nan, is_inf, format_20f, uuid_of}

  -- `str(value)`
  unfoldable pub str_of : Value O → Str
  str_of (text s) = s
  str_of (int (pos n)) = show_nat n
  str_of (int (negsuc n)) = b'-' ∷ show_nat (suc n)
  str_of (other o) = show o

  unfoldable pub string_to_string : Value O → Result Str
  string_to_string v = do
    let value = str_of v
    ensure (not (contains value b'/')) assertion_error
    ensure (not (value == [])) assertion_error
    ok value

  pub string_convertor : Convertor O
  unfolding string_prefixes string_to_string
  string_convertor = record {
    prefixes = string_prefixes;
    convert = λ s. ok (text s);
    to_string = string_to_string;
  }

  pub path_convertor : Convertor O
  unfolding path_prefixes
  path_convertor = record {
    prefixes = path_prefixes;
    convert = λ s. ok (text s);
    to_string = λ v. ok (str_of v);
  }

  -- `int(value)`
  pub to_int : Value O → Result ℤ
  to_int (int z) = ok z
  to_int v = int_of v

  pub nonnegative_string : ℤ → Result Str
  nonnegative_string (pos n) = ok (show_nat n)
  nonnegative_string (negsuc n) = raise assertion_error

  unfoldable pub integer_to_string : Value O → Result Str
  unfolding to_int nonnegative_string
  integer_to_string v = do z ← to_int v; nonnegative_string z

  pub integer_convertor : Convertor O
  unfolding integer_prefixes integer_to_string
  integer_convertor = record {
    prefixes = integer_prefixes;
    convert = λ s. ok (int (pos (read_nat s)));
    to_string = integer_to_string;
  }

  float_to_string : Value O → Result Str
  float_to_string v = do
    value ← float_of v
    ensure (is_nonnegative value) assertion_error
    ensure (not (is_nan value)) assertion_error
    ensure (not (is_inf value)) assertion_error
    ok (rstrip b'.' (rstrip b'0' (format_20f value)))

  pub float_convertor : Convertor O
  unfolding float_prefixes float_to_string
  float_convertor = record {
    prefixes = float_prefixes;
    convert = λ s. (do o ← float_of (text s); ok (other o));
    to_string = float_to_string;
  }

  pub uuid_convertor : Convertor O
  unfolding uuid_prefixes
  uuid_convertor = record {
    prefixes = uuid_prefixes;
    convert = λ s. (do o ← uuid_of s; ok (other o));
    to_string = λ v. ok (str_of v);
  }

  -- `CONVERTOR_TYPES` as the module leaves it
  pub convertor_types : Dict Str (Convertor O)
  convertor_types =
      (codes "str", string_convertor)
      ∷ (codes "path", path_convertor)
      ∷ (codes "int", integer_convertor)
      ∷ (codes "float", float_convertor)
      ∷ (codes "uuid", uuid_convertor)
      ∷ []

  -- `register_url_convertor`, on the registry
  pub register_url_convertor : Str → Convertor O → Dict Str (Convertor O) → Dict Str (Convertor O)
  register_url_convertor key convertor types = insert key convertor types
