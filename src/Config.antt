-- ===== src/Config.antt =====
-- starlette/config.py: the environment that guards what was read, and the configuration over it.
--
-- The environment is a dictionary, and a configuration file is the list of its lines.
mod Tests
use mathlib.Core.List.{reverse}
use starlette.Prelude.{
  Bool, true, false, not, ◌&&◌, ◌||◌, Option, none, some, List, [], ◌∷◌, ◌++◌, contains, ◌≡◌, refl,
  arith, ◌==◌, ==_iff, nat_eq, if◌then◌else◌,
}
use starlette.Prelude.Text.{Str, codes, str_eq, lower, starts_with}
use starlette.Prelude.Dict.{Dict, lookup, insert, without, is_some, lookup-insert, lookup-without}
use starlette.Prelude.Result.{Result, ok, raise, key_error, value_error, ◌>>=◌}
use starlette.Responses.Range.{strip, split_once}

pub record Environ : Type 0 where
  pub environ : Dict Str Str
  -- a `set`
  pub has_been_read : List Str

-- what a call returns or raises, and the environment behind it; `refused` is `EnvironError`
pub data Answer : Type 0 where
  value : Str → Answer
  done missing refused : Answer

unfoldable pub getitem : Environ → Str → Answer × Environ
unfolding lookup
getitem e key = (
  elim (lookup key e.environ) [ none ↦ missing | some v ↦ value v ],
  record e { has_been_read = key ∷ e.has_been_read },
)

unfoldable pub setitem : Environ → Str → Str → Answer × Environ
unfolding insert
setitem e key v =
    if contains e.has_been_read key
    then (refused, e)
    else (done, record e { environ = insert key v e.environ })

unfoldable pub delitem : Environ → Str → Answer × Environ
unfolding without lookup
delitem e key = if contains e.has_been_read key then (refused, e) else (
  (if is_some (lookup key e.environ) then done else missing),
  record e { environ = without key e.environ },
)

pub data Access : Type 0 where
  read delete : Str → Access
  write : Str → Str → Access

pub after : Access → Environ → Environ
after (read key) e = (getitem e key).1
after (write key v) e = (setitem e key v).1
after (delete key) e = (delitem e key).1

pub after_all : List Access → Environ → Environ
unfolding after
after_all [] e = e
after_all (a ∷ accesses) e = after_all accesses (after a e)

after-read :
    (a : Access) (e : Environ) (key : Str)
    → contains e.has_been_read key ≡ true
    → (contains (after a e).has_been_read key ≡ true)
      × (lookup key (after a e).environ ≡ lookup key e.environ)
unfolding after getitem setitem delitem contains
after-read (read k) e key h = ground arith
after-read (write k v) e key h = ground (arith, lookup-insert k key v e.environ, ==_iff k key)
after-read (delete k) e key h = ground (arith, lookup-without k key e.environ, ==_iff k key)

after_all-read :
    (accesses : List Access) (e : Environ) (key : Str)
    → contains e.has_been_read key ≡ true
    → lookup key (after_all accesses e).environ ≡ lookup key e.environ
unfolding after_all
after_all-read [] e key h = refl
after_all-read (a ∷ accesses) e key h =
    ground (arith, after-read a e key h, after_all-read accesses (after a e) key)

-- Once a key was read, also where it was missing, no later sequence of reads, writes and deletions
-- of any keys changes what the environment holds for it.
pub after_all-getitem :
    (accesses : List Access) (e : Environ) (key : Str)
    → lookup key (after_all accesses (getitem e key).1).environ ≡ lookup key e.environ
unfolding getitem contains
after_all-getitem accesses e key =
    after_all-read accesses (record e { has_been_read = key ∷ e.has_been_read }) key
      (ground (arith, ==_iff key key))

-- a value before its cast: a text, `None`, or a default of another type
pub data Raw (D : Type 0) : Type 0 where
  text : Str → Raw D
  null : Raw D
  default_value : D → Raw D

-- the argument `cast`: None, `bool`, or a function, `none` where it raises `TypeError` or `ValueError`
pub data Cast (D : Type 0) : Type 0 where
  no_cast to_bool : Cast D
  function : (Raw D → Option D) → Cast D

pub data Casted (D : Type 0) : Type 0 where
  raw : Raw D → Casted D
  boolean : Bool → Casted D
  cast : D → Casted D

pub record Config : Type 0 where
  pub environ : Dict Str Str
  pub env_prefix : Str
  pub file_values : Dict Str Str

-- `strip("\"'")`
skip_quotes : Str → Str
skip_quotes [] = []
skip_quotes (c ∷ s) = if (c == b'"') || (c == 39) then skip_quotes s else c ∷ s

pub strip_quotes : Str → Str
unfolding skip_quotes
strip_quotes s = reverse (skip_quotes (reverse (skip_quotes s)))

pub read_line : Str → Dict Str Str → Dict Str Str
unfolding starts_with strip split_once strip_quotes insert
read_line line values = elim (split_once b'=' (strip line)) [
  | none ↦ values
  | some (key, v) ↦
      if starts_with (codes "#") (strip line)
      then values
      else insert (strip key) (strip_quotes (strip v)) values
]

-- `_read_file`, from the lines of the file
unfoldable pub read_lines : List Str → Dict Str Str → Dict Str Str
unfolding read_line
read_lines [] values = values
read_lines (line ∷ lines) values = read_lines lines (read_line line values)

abbrev pub booleans : Dict Str Bool
booleans =
    (codes "true", true) ∷ (codes "1", true) ∷ (codes "false", false) ∷ (codes "0", false) ∷ []

-- `_perform_cast`; the first argument is `bool` on defaults that are no texts
unfoldable pub perform_cast : {D : Type 0} → (D → Bool) → Cast D → Raw D → Result (Casted D)
unfolding lookup lower
perform_cast truth to_bool null = ok (raw null)
perform_cast truth (function f) null = ok (raw null)
perform_cast truth no_cast v = ok (raw v)
perform_cast truth to_bool (text s) = elim (lookup (lower s) booleans) [
  | none ↦ raise value_error
  | some b ↦ ok (boolean b)
]
perform_cast truth to_bool (default_value d) = ok (boolean (truth d))
perform_cast truth (function f) v = elim (f v) [ none ↦ raise value_error | some d ↦ ok (cast d) ]

-- `get`, and `__call__`, which hands its arguments on
unfoldable pub get :
    {D : Type 0} → (D → Bool) → Config → Str → Cast D → Option (Raw D) → Result (Casted D)
unfolding perform_cast lookup
get truth c key type default = elim (lookup (c.env_prefix ++ key) c.environ) [
  | some v ↦ perform_cast truth type (text v)
  | none ↦ elim (lookup (c.env_prefix ++ key) c.file_values) [
    | some v ↦ perform_cast truth type (text v)
    | none ↦ elim default [ some v ↦ perform_cast truth type v | none ↦ raise key_error ]
  ]
]
