-- ===== src/Datastructures/Headers/Laws.antt =====
-- What the methods of `Headers` and `MutableHeaders` promise a caller.
use starlette.Prelude.{
  ◌≡◌, refl, inl, inr, true, false, Option, none, some, List, [], ◌∷◌, ◌++◌, arith, ◌==◌, ==_iff,
  ==_refl, if◌then◌else◌, Option-cases,
}
use starlette.Prelude.Text.{Str, codes, str_eq}
use starlette.Prelude.Result.{ok, ◌>>=◌, >>=-eq-ok}
use starlette.Datastructures.Headers.{
  RawHeaders, is_latin1, encode, header_key, values_at, getlist, find, getitem, get, has_key,
  or_key_error, setitem, delitem, setdefault, vary_value, add_vary_header,
}
use starlette.Datastructures.Headers.Reference.{
  without, replaced, set_at_indexes_lem, delete_each_lem,
}

-- the value that a lookup finds is the first of the values at the key
abbrev first : List Str → Option Str
first [] = none
first (v ∷ vs) = some v

find-values_at : (k : Str) (h : RawHeaders) → find k h ≡ first (values_at k h)
unfolding find values_at
find-values_at k [] = refl
find-values_at k ((j, v) ∷ h) = ground (arith, find-values_at k h)

values_at-without :
    (k j : Str) (h : RawHeaders)
    → values_at j (without k h) ≡ (if j == k then [] else values_at j h)
unfolding values_at without
values_at-without k j [] = ground arith
values_at-without k j ((i, v) ∷ h) =
    ground (arith, values_at-without k j h, ==_iff i k, ==_iff i j, ==_iff j k)

values_at-replaced :
    (k v j : Str) (h : RawHeaders)
    → values_at j (replaced k v h) ≡ (if j == k then v ∷ [] else values_at j h)
unfolding values_at replaced
values_at-replaced k v j [] = ground (arith, ==_iff k j, ==_iff j k)
values_at-replaced k v j ((i, w) ∷ h) = ground (
  arith,
  values_at-replaced k v j h,
  values_at-without k j h,
  ==_iff i k,
  ==_iff i j,
  ==_iff k j,
  ==_iff j k,
)

values_at-append :
    (j : Str) (g h : RawHeaders) → values_at j (g ++ h) ≡ values_at j g ++ values_at j h
unfolding values_at
values_at-append j [] h = refl
values_at-append j ((i, w) ∷ g) h = ground (arith, values_at-append j g h)

-- `self[key] = value` raises exactly when the name or the value is not latin-1. Otherwise the
-- first entry of the name, in any case, takes the value and its later entries go, while every other
-- entry keeps its place; a new name goes to the end.
pub setitem-replaced :
    (h : RawHeaders) (key value : Str)
    → setitem h key value ≡ (do k ← header_key key; v ← encode value; ok (replaced k v h))
unfolding setitem
setitem-replaced h key value = simp set_at_indexes_lem

-- `del self[key]` leaves out every entry of the name, and only those.
pub delitem-without :
    (h : RawHeaders) (key : Str) → delitem h key ≡ (do k ← header_key key; ok (without k h))
unfolding delitem
delitem-without h key = simp delete_each_lem

-- A latin-1 name and value are always taken.
pub setitem_lem :
    (h : RawHeaders) (key value k : Str)
    → header_key key ≡ ok k
    → is_latin1 value ≡ true
    → setitem h key value ≡ ok (replaced k value h)
unfolding encode
setitem_lem h key value k e l = ground (arith, setitem-replaced h key value, e, l)

encode-ok : (s : Str) {v : Str} → encode s ≡ ok v → v ≡ s
unfolding encode
encode-ok s e = ground arith

setitem-ok :
    (h : RawHeaders) (key value : Str) (k : Str) {h' : RawHeaders}
    → setitem h key value ≡ ok h'
    → header_key key ≡ ok k
    → h' ≡ replaced k value h
setitem-ok h key value k e ek =
    let (v, ev, last) = >>=-eq-ok (encode value) _ (rw (setitem-replaced, ek) at e) in
    cc (encode-ok value ev, last)

-- After a successful `self[key] = value` the name has that value alone, and every other name has
-- the values that it had, in their order; a name is compared in lower case.
pub getlist-setitem :
    (h : RawHeaders) (key value name : Str) (k j : Str) {h' : RawHeaders}
    → setitem h key value ≡ ok h'
    → header_key key ≡ ok k
    → header_key name ≡ ok j
    → getlist h' name ≡ (if j == k then ok (value ∷ []) else getlist h name)
unfolding getlist
getlist-setitem h key value name k j e ek ej =
    rw (ej, setitem-ok h key value k e ek, values_at-replaced k value j h) (ground arith)

-- After a successful `del self[key]` the name has no value, and every other name has the values
-- that it had, in their order.
pub getlist-delitem :
    (h : RawHeaders) (key name : Str) (k j : Str) {h' : RawHeaders}
    → delitem h key ≡ ok h'
    → header_key key ≡ ok k
    → header_key name ≡ ok j
    → getlist h' name ≡ (if j == k then ok [] else getlist h name)
unfolding getlist
getlist-delitem h key name k j {h'} e ek ej =
    let same : h' ≡ without k h = cc (rw (delitem-without, ek) at e) in
    rw (ej, same, values_at-without k j h) (ground arith)

has_key-find :
    (k : Str) (h : RawHeaders) → has_key k h ≡ elim (find k h) [ none ↦ false | some v ↦ true ]
unfolding has_key find
has_key-find k [] = refl
has_key-find k ((j, v) ∷ h) = ground (arith, has_key-find k h)

find-append_new :
    (k v : Str) (h : RawHeaders) → find k h ≡ none → find k (h ++ (k, v) ∷ []) ≡ some v
unfolding find
find-append_new k v [] e = ground (arith, ==_refl k)
find-append_new k v ((j, w) ∷ h) e = ground (arith, find-append_new k v h)

-- `setdefault` returns the value that the name has afterwards; it changes nothing where the name
-- is there, and otherwise adds one entry at the end.
pub setdefault_lem :
    (h : RawHeaders) (key value : Str) (k : Str) {h' : RawHeaders} {v : Str}
    → header_key key ≡ ok k
    → setdefault h key value ≡ ok (h', v)
    → (getitem h' key ≡ ok v) × (h' ≡ (if has_key k h then h else h ++ (k, value) ∷ []))
unfolding setdefault getitem or_key_error
setdefault_lem h key value k {h'} {v} ek e =
    let (w, ew, last) = >>=-eq-ok (encode value) _ (rw ek at e) in
    let same : w ≡ value = encode-ok value ew in
    elim (Option-cases (find k h)) [
      | inl new ↦ rw ek (ground (arith, has_key-find k h, find-append_new k value h))
      | inr (old, found) ↦ rw ek (ground (arith, has_key-find k h))
    ]

-- `add_vary_header` leaves one `vary` entry: the first old value with the new one behind it, or
-- the new one alone. No other name changes.
pub add_vary_header_lem :
    (h : RawHeaders) (vary name j : Str) {h' : RawHeaders}
    → add_vary_header h vary ≡ ok h'
    → header_key name ≡ ok j
    → getlist h' name ≡ (
        if j == codes "vary"
        then ok (vary_value (find (codes "vary") h) vary ∷ [])
        else getlist h name)
unfolding add_vary_header get header_key encode
add_vary_header_lem h vary name j e ej =
    getlist-setitem h (codes "vary") _ name (codes "vary") j e refl ej
