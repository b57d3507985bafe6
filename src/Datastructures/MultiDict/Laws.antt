-- ===== src/Datastructures/MultiDict/Laws.antt =====
-- What the methods of `MultiDict` promise a caller.
use starlette.Prelude.{
  ◌≡◌, refl, Option, none, some, List, [], ◌∷◌, ◌++◌, map, arith, append-nil, Option-cases, Eq,
  ◌==◌, if◌then◌else◌, inl, inr,
}
use starlette.Prelude.Dict.{Dict, is_some, or_else, lookup, without, last_value}
use starlette.Prelude.Result.{ok, raise, key_error}
use starlette.Datastructures.MultiDict.{
  MultiDict, Source, init, values_at, getlist, getitem, contains, poplist, setlist, append, outside,
  update,
}
use starlette.Datastructures.MultiDict.Invariant.{IsConsistent, init-IsConsistent}

-- the last of a list of values
abbrev pub last {ℓ} : {A : Type ℓ} → List A → Option A
last [] = none
last (v ∷ vs) = or_else (last vs) (some v)

last-eq-none {ℓ} : {A : Type ℓ} (vs : List A) → last vs ≡ none → vs ≡ []
last-eq-none [] e = refl
last-eq-none (v ∷ vs) e = elim (Option-cases (last vs)) [
  | inl missing ↦ cc (rw missing at e)
  | inr (w, found) ↦ cc (rw found at e)
]

module _ {ℓ} {K V : Type ℓ} ⦃e : Eq K⦄ where
  last_value-values_at : (k : K) (l : List (K × V)) → last_value k l ≡ last (values_at k l)
  unfolding last_value values_at
  last_value-values_at k [] = refl
  last_value-values_at k ((j, v) ∷ l) = ground (arith, last_value-values_at k l)

  values_at-without :
      (k j : K) (l : List (K × V))
      → values_at j (without k l) ≡ (if k == j then [] else values_at j l)
  unfolding values_at without
  values_at-without k j [] = ground arith
  values_at-without k j ((i, v) ∷ l) =
      ground (arith, values_at-without k j l, e.same_iff k j, e.same_iff i k, e.same_iff i j)

  values_at-append :
      (k : K) (l m : List (K × V)) → values_at k (l ++ m) ≡ values_at k l ++ values_at k m
  unfolding values_at
  values_at-append k [] m = refl
  values_at-append k ((j, v) ∷ l) m = ground (arith, values_at-append k l m)

  values_at-map :
      (k j : K) (vs : List V) → values_at j (map (λ v. (k, v)) vs) ≡ (if k == j then vs else [])
  unfolding values_at
  values_at-map k j [] = ground arith
  values_at-map k j (v ∷ vs) = ground (arith, values_at-map k j vs)

  values_at-outside :
      (d : Dict K V) (k : K) (l : List (K × V))
      → values_at k (outside d l) ≡ (if is_some (lookup k d) then [] else values_at k l)
  unfolding values_at outside
  values_at-outside d k [] = ground arith
  values_at-outside d k ((j, v) ∷ l) = ground (arith, values_at-outside d k l, e.same_iff j k)

  -- In a consistent object `self[key]` is the last of `getlist(key)`, and raises `KeyError` where
  -- that list is empty.
  pub getitem-getlist :
      (m : MultiDict K V) (k : K)
      → IsConsistent m
      → getitem m k ≡ elim (last (getlist m k)) [ none ↦ raise key_error | some v ↦ ok v ]
  unfolding getitem getlist
  getitem-getlist m k h = ground (arith, h.lookups k, last_value-values_at k m.list)

  -- `setlist(key, values)` gives the key exactly those values, in their order, and leaves the
  -- values of every other key as they are.
  pub getlist-setlist :
      (m : MultiDict K V) (k j : K) (vs : List V)
      → getlist (setlist m k vs) j ≡ (if k == j then vs else getlist m j)
  unfolding getlist setlist
  getlist-setlist m k j [] = values_at-without k j m.list
  getlist-setlist m k j (v ∷ vs) = ground (
    arith,
    values_at-append j (without k m.list) (map (λ w. (k, w)) (v ∷ vs)),
    values_at-without k j m.list,
    values_at-map k j (v ∷ vs),
    append-nil (values_at j m.list),
  )

  -- `append(key, value)` adds the value behind those of the key, and leaves the values of every
  -- other key as they are.
  pub getlist-append :
      (m : MultiDict K V) (k j : K) (v : V)
      → getlist (append m k v) j ≡ (if k == j then getlist m j ++ v ∷ [] else getlist m j)
  unfolding getlist append
  getlist-append m k j v = ground (
    arith,
    values_at-append j m.list ((k, v) ∷ []),
    values_at-map k j (v ∷ []),
    append-nil (values_at j m.list),
  )

  -- `poplist(key)` returns every value of the key, leaves it none, and leaves the values of every
  -- other key as they are.
  pub poplist_lem :
      (m : MultiDict K V) (k j : K) (v : V)
      → ((poplist m k v).1 ≡ getlist m k)
        × (getlist (poplist m k v).0 j ≡ (if k == j then [] else getlist m j))
  unfolding poplist getlist
  poplist_lem m k j v = (refl, values_at-without k j m.list)

  -- `update` gives each key of the new items their values for it, and leaves the values of every
  -- other key as they are.
  pub getlist-update :
      (m : MultiDict K V) (value : Source K V) (kwargs : Dict K V) (j : K)
      → getlist (update m value kwargs) j
        ≡ (if contains (init value kwargs) j then getlist (init value kwargs) j else getlist m j)
  unfolding getlist update contains
  getlist-update m value kwargs j =
      let new : MultiDict K V = init value kwargs in
      let h : IsConsistent new = init-IsConsistent value kwargs in
      ground (
        arith,
        h.lookups j,
        last_value-values_at j new.list,
        last-eq-none (values_at j new.list),
        values_at-outside new.dict j m.list,
        values_at-append j (outside new.dict m.list) new.list,
        append-nil (values_at j m.list),
      )
