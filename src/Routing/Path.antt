-- ===== src/Routing/Path.antt =====
-- `compile_path` and `replace_params` of starlette/routing.py, and the matching of a compiled path.
--
-- The regular expression that `compile_path` assembles is a list of parts between `^` and `$`: the
-- escaped literals and one named group for each parameter.
pub mod Matching
pub mod Compile
pub mod Template
use starlette.Prelude.{
  ℕ, zero, suc, ◌+◌, ◌-◌, Bool, true, false, not, ◌&&◌, ◌||◌, Option, none, some, List, [], ◌∷◌,
  ◌++◌, length, take, drop, leb, ◌==◌, nat_eq, if◌then◌else◌,
}
use starlette.Prelude.Text.{Str, codes, str_eq, is_digit, starts_with, has_part, before}
use starlette.Prelude.Dict.{Dict, is_some, lookup, insert, without}
use starlette.Prelude.Result.{
  Result, ok, raise, assertion_error, value_error, key_error, ensure, ◌>>=◌, ◌>>◌,
}
use starlette.Convertors.{Value, Convertor, run_length}

unfoldable pub is_name_start : ℕ → Bool
is_name_start c = leb b'a' c && leb c b'z' || (leb b'A' c && leb c b'Z' || c == b'_')

unfoldable pub is_name_char : ℕ → Bool
unfolding is_name_start is_digit
is_name_char c = is_name_start c || is_digit c

-- the length of `[a-zA-Z_][a-zA-Z0-9_]*` at the front of a text, 0 where it does not match
unfoldable pub name_length : Str → ℕ
unfolding is_name_start is_name_char run_length
name_length [] = 0
name_length (c ∷ s) = if is_name_start c then suc (run_length is_name_char s) else 0

-- a match of `PARAM_REGEX`: its two groups and its length
pub record Param : Type 0 where
  pub name : Str
  pub convertor : Str
  pub size : ℕ

-- what follows the name: `}`, or `:`, another name and `}`
unfoldable pub scan_convertor : Str → Str → Option Param
unfolding name_length
scan_convertor name [] = none
scan_convertor name (c ∷ s) =
    let n = name_length s in
    if c == b'}'
    then some (record { name = name; convertor = codes "str"; size = length name + 2 })
    else if (c == b':' && not (n == 0)) && starts_with (codes "}") (drop n s)
    then some (record { name = name; convertor = take n s; size = length name + n + 3 })
    else none

-- `PARAM_REGEX` at the front of a text
unfoldable pub scan_param : Str → Option Param
unfolding scan_convertor name_length starts_with
scan_param [] = none
scan_param (c ∷ s) =
    let n = name_length s in
    if c == b'{' && not (n == 0) then scan_convertor (take n s) (drop n s) else none

-- one round of the loop of `compile_path`: the text since the last match, and the match
pub record Found : Type 0 where
  pub before : Str
  pub param : Param

-- `PARAM_REGEX.finditer`, with the text behind the last match. `skip` characters belong to a match
-- that was found, and `gap` is the text since it.
unfoldable pub find_params : ℕ → Str → Str → List Found × Str
unfolding scan_param
find_params skip gap [] = ([], gap)
find_params (suc skip) gap (c ∷ s) = find_params skip gap s
find_params zero gap (c ∷ s) = elim (scan_param (c ∷ s)) [
  | none ↦ find_params zero (gap ++ c ∷ []) s
  | some p ↦
      let (more, tail) = find_params (p.size - 1) [] s in
      (record { before = gap; param = p } ∷ more, tail)
]

pub data Part (O : Type 0) : Type 0 where
  -- `re.escape(text)`
  literal : Str → Part O
  -- `(?P<name>regex)`
  group : Str → Convertor O → Part O

-- the three results of `compile_path`
pub record Compiled (O : Type 0) : Type 0 where
  pub regex : List (Part O)
  pub format : Str
  pub convertors : Dict Str (Convertor O)

-- `"{%s}" % name`
abbrev pub placeholder : Str → Str
placeholder name = (b'{' ∷ name) ++ codes "}"

-- the loop's variables; `duplicated` tells whether `duplicated_params` has an element
pub record Compiling (O : Type 0) : Type 0 where
  pub regex : List (Part O)
  pub format : Str
  pub convertors : Dict Str (Convertor O)
  pub duplicated : Bool

-- the groups of a match, by name
abbrev pub Groups : Type 0
Groups = Dict Str Str

-- the first length at which the rest matches
unfoldable pub first_match {ℓ} : {A : Type ℓ} → (ℕ → Option A) → List ℕ → Option A
first_match try [] = none
first_match try (n ∷ ns) = elim (try n) [ none ↦ first_match try ns | some a ↦ some a ]

-- `$`: the end, or a line feed that is the last character
unfoldable pub at_end : Str → Bool
at_end s = s == [] || s == 10 ∷ []

capture : Str → Str → Option Groups → Option Groups
capture name value none = none
capture name value (some groups) = some ((name, value) ∷ groups)

-- `path.replace(old, new)`; `skip` characters belong to an occurrence that was replaced
replace_from : Str → Str → ℕ → Str → Str
replace_from old new skip [] = []
replace_from old new (suc skip) (c ∷ s) = replace_from old new skip s
replace_from old new zero (c ∷ s) =
    let here = new ++ replace_from old new (length old - 1) s in
    let further = c ∷ replace_from old new zero s in
    if starts_with old (c ∷ s) then here else further

unfoldable pub replace : Str → Str → Str → Str
unfolding replace_from starts_with
replace path old new = replace_from old new 0 path

module _ {O : Type 0} where
  unfoldable pub add_params :
      Dict Str (Convertor O) → List Found → Compiling O → Result (Compiling O)
  add_params types [] st = ok st
  add_params types (f ∷ fs) st = elim (lookup f.param.convertor types) [
    | none ↦ raise assertion_error
    | some convertor ↦ add_params types fs (record {
      regex = st.regex ++ literal f.before ∷ group f.param.name convertor ∷ [];
      format = st.format ++ (f.before ++ placeholder f.param.name);
      convertors = insert f.param.name convertor st.convertors;
      duplicated = st.duplicated || is_some (lookup f.param.name st.convertors);
    })
  ]

  unfoldable pub compile_path : Dict Str (Convertor O) → Str → Result (Compiled O)
  unfolding find_params add_params starts_with before lookup insert
  compile_path types path = do
    let is_host = not (starts_with (codes "/") path)
    let (found, tail) = find_params 0 [] path
    st ←
        add_params types found
          (record { regex = []; format = []; convertors = []; duplicated = false })
    ensure (not st.duplicated) value_error
    ok (record {
      regex = st.regex ++ literal (if is_host then before b':' tail else tail) ∷ [];
      format = st.format ++ tail;
      convertors = st.convertors;
    })

  -- `regex.match(text)`: the parts in turn, each group by its first length that leads to a match
  unfoldable pub match_parts : List (Part O) → Str → Option Groups
  unfolding first_match at_end capture starts_with
  match_parts [] s = if at_end s then some [] else none
  match_parts (literal t ∷ ps) s =
      let rest = match_parts ps (drop (length t) s) in if starts_with t s then rest else none
  match_parts (group name convertor ∷ ps) s =
      first_match (λ n. capture name (take n s) (match_parts ps (drop n s))) (convertor.prefixes s)

  -- `matched_params[key] = self.param_convertors[key].convert(value)`, for each group
  unfoldable pub convert_groups : Dict Str (Convertor O) → Groups → Result (Dict Str (Value O))
  unfolding lookup
  convert_groups convertors [] = ok []
  convert_groups convertors ((key, value) ∷ groups) = elim (lookup key convertors) [
    | none ↦ raise key_error
    | some convertor ↦ do
      v ← convertor.convert value
      rest ← convert_groups convertors groups
      ok ((key, v) ∷ rest)
  ]

  -- `replace_params`: the path and the parameters that are left
  unfoldable pub replace_params_from :
      Dict Str (Convertor O)
      → List (Str × Value O)
      → Str
      → Dict Str (Value O)
      → Result (Str × Dict Str (Value O))
  unfolding replace has_part lookup without
  replace_params_from convertors [] path params = ok (path, params)
  replace_params_from convertors ((key, value) ∷ items) path params =
      let replaced : Result (Str × Dict Str (Value O)) = elim (lookup key convertors) [
        | none ↦ raise key_error
        | some convertor ↦ do
          value' ← convertor.to_string value
          replace_params_from convertors items (replace path (placeholder key) value')
              (without key params)
      ] in
      let kept = replace_params_from convertors items path params in
      if has_part (placeholder key) path then replaced else kept

  unfoldable pub replace_params :
      Str → Dict Str (Convertor O) → Dict Str (Value O) → Result (Str × Dict Str (Value O))
  unfolding replace_params_from
  replace_params path convertors params = replace_params_from convertors params path params
