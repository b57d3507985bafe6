-- ===== src/Datastructures/Headers.antt =====
-- `Headers` and `MutableHeaders` of starlette/datastructures.py: a case-insensitive multidict over
-- a list of pairs of bytes. `Result` stands for a call that may raise; a method that mutates
-- returns the new list.
pub mod Reference
pub mod Laws
use mathlib.Core.List.{reverse}
use starlette.Prelude.{
  ℕ, zero, suc, ◌+◌, Bool, true, false, ◌&&◌, Option, none, some, List, [], ◌∷◌, ◌++◌, map, ltb,
  ◌==◌, if◌then◌else◌,
}
use starlette.Prelude.Text.{Str, codes, str_eq, lower, join}
use starlette.Prelude.Result.{Result, ok, raise, unicode_error, key_error, ◌>>=◌}

-- `_list`
abbrev pub RawHeaders : Type 0
RawHeaders = List (Str × Str)

unfoldable pub is_latin1 : Str → Bool
is_latin1 [] = true
is_latin1 (c ∷ s) = ltb c 256 && is_latin1 s

-- `s.encode("latin-1")`; the decoding of bytes is the identity on their numbers
unfoldable pub encode : Str → Result Str
unfolding is_latin1
encode s = if is_latin1 s then ok s else raise unicode_error

-- `key.lower().encode("latin-1")`
unfoldable pub header_key : Str → Result Str
unfolding encode lower
header_key key = encode (lower key)

encode_pair : Str × Str → Result (Str × Str)
encode_pair (k, v) = do ok ((← header_key k), (← encode v))

-- `Headers(headers=…)`, from the items of a mapping
unfoldable pub from_mapping : List (Str × Str) → Result RawHeaders
unfolding encode_pair
from_mapping [] = ok []
from_mapping (kv ∷ items) = do ok ((← encode_pair kv) ∷ (← from_mapping items))

pub keys : RawHeaders → List Str
keys = map (λ kv. kv.0)

pub values : RawHeaders → List Str
values = map (λ kv. kv.1)

unfoldable pub values_at : Str → RawHeaders → List Str
values_at k [] = []
values_at k ((j, v) ∷ h) = if j == k then v ∷ values_at k h else values_at k h

unfoldable pub getlist : RawHeaders → Str → Result (List Str)
unfolding values_at
getlist h key = do ok (values_at (← header_key key) h)

unfoldable pub find : Str → RawHeaders → Option Str
find k [] = none
find k ((j, v) ∷ h) = if j == k then some v else find k h

unfoldable pub or_key_error : Option Str → Result Str
or_key_error none = raise key_error
or_key_error (some v) = ok v

-- `self[key]`
unfoldable pub getitem : RawHeaders → Str → Result Str
unfolding find or_key_error
getitem h key = do k ← header_key key; or_key_error (find k h)

-- `self.get(key)` of `Mapping`, which catches the `KeyError` of `self[key]`
unfoldable pub get : RawHeaders → Str → Result (Option Str)
unfolding find
get h key = do k ← header_key key; ok (find k h)

unfoldable pub has_key : Str → RawHeaders → Bool
has_key k [] = false
has_key k ((j, v) ∷ h) = if j == k then true else has_key k h

-- `key in self`
unfoldable pub contains : RawHeaders → Str → Result Bool
unfolding has_key
contains h key = do ok (has_key (← header_key key) h)

-- the loop over `enumerate(self._list)` that collects the indexes of a key
pub indexes : Str → ℕ → RawHeaders → List ℕ
indexes k idx [] = []
indexes k idx ((j, v) ∷ h) = if j == k then idx ∷ indexes k (idx + 1) h else indexes k (idx + 1) h

-- `del self._list[idx]`
pub delete_at : ℕ → RawHeaders → RawHeaders
delete_at i [] = []
delete_at zero (x ∷ h) = h
delete_at (suc i) (x ∷ h) = x ∷ delete_at i h

pub delete_each : List ℕ → RawHeaders → RawHeaders
delete_each [] h = h
delete_each (i ∷ is) h = delete_each is (delete_at i h)

-- `self._list[idx] = item`
pub assign_at : ℕ → Str × Str → RawHeaders → RawHeaders
assign_at i item [] = []
assign_at zero item (x ∷ h) = item ∷ h
assign_at (suc i) item (x ∷ h) = x ∷ assign_at i item h

-- the rest of `__setitem__`, once the indexes are known
pub set_at_indexes : List ℕ → Str × Str → RawHeaders → RawHeaders
set_at_indexes [] item h = h ++ item ∷ []
set_at_indexes (idx ∷ more) item h = assign_at idx item (delete_each (reverse more) h)

-- `self[key] = value`
unfoldable pub setitem : RawHeaders → Str → Str → Result RawHeaders
unfolding set_at_indexes indexes delete_each delete_at assign_at
setitem h key value = do
  k ← header_key key
  v ← encode value
  ok (set_at_indexes (indexes k 0 h) (k, v) h)

-- `del self[key]`; a missing key is no error
unfoldable pub delitem : RawHeaders → Str → Result RawHeaders
unfolding indexes delete_each delete_at
delitem h key = do k ← header_key key; ok (delete_each (reverse (indexes k 0 h)) h)

pub default_or : Option Str → Str → Str → Str → RawHeaders → RawHeaders × Str
default_or none k v value h = (h ++ (k, v) ∷ [], value)
default_or (some found) k v value h = (h, found)

-- `self.setdefault(key, value)`
unfoldable pub setdefault : RawHeaders → Str → Str → Result (RawHeaders × Str)
unfolding default_or find
setdefault h key value = do
  k ← header_key key
  v ← encode value
  ok (default_or (find k h) k v value h)

-- `self.update(other)`; what was set before an item that raises stays set
unfoldable pub update : RawHeaders → List (Str × Str) → RawHeaders × Result (Unit {0})
unfolding setitem
update h [] = (h, ok tt)
update h ((key, val) ∷ items) = elim (setitem h key val) [
  | ok h' ↦ update h' items
  | raise e ↦ (h, raise e)
]

-- `self.append(key, value)`
unfoldable pub append : RawHeaders → Str → Str → Result RawHeaders
append h key value = do k ← header_key key; v ← encode value; ok (h ++ (k, v) ∷ [])

pub vary_value : Option Str → Str → Str
vary_value none vary = vary
vary_value (some existing) vary = join (codes ", ") (existing ∷ vary ∷ [])

unfoldable pub add_vary_header : RawHeaders → Str → Result RawHeaders
unfolding vary_value join get setitem
add_vary_header h vary = do
  existing ← get h (codes "vary")
  setitem h (codes "vary") (vary_value existing vary)
