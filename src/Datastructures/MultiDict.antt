-- ===== src/Datastructures/MultiDict.antt =====
-- `ImmutableMultiDict` and `MultiDict` of starlette/datastructures.py: a list of pairs beside a
-- `dict` that is kept in step with it. A method that mutates returns the new object, beside its
-- result where it has one.
pub mod Invariant
pub mod Laws
use starlette.Prelude.{
  Bool, not, Option, none, some, List, [], ◌∷◌, ◌++◌, map, true, false, Eq, ◌==◌, if◌then◌else◌,
}
use starlette.Prelude.Dict.{Dict, is_some, lookup, insert, insert_all, without}
use starlette.Prelude.Result.{Result, ok, raise, key_error}

pub record MultiDict {ℓ} (K V : Type ℓ) : Type ℓ where
  -- `_dict` and `_list`
  pub dict : Dict K V
  pub list : List (K × V)

-- what the constructor takes: another multidict, a mapping by its items, or a list of pairs
pub data Source {ℓ} (K V : Type ℓ) : Type ℓ where
  multi : MultiDict K V → Source K V
  mapping : Dict K V → Source K V
  pairs : List (K × V) → Source K V

-- the elements before the last one, and the last one
unfoldable pub pop_last {ℓ} : {A : Type ℓ} → A → List A → List A × A
pop_last x [] = ([], x)
pop_last x (y ∷ l) = let (before, z) = pop_last y l in (x ∷ before, z)

module _ {ℓ} {K V : Type ℓ} where
  pub source_items : Source K V → List (K × V)
  source_items (multi m) = m.list
  source_items (mapping d) = d
  source_items (pairs l) = l

module _ {ℓ} {K V : Type ℓ} ⦃e : Eq K⦄ where
  pub of_items : List (K × V) → MultiDict K V
  unfolding insert_all
  of_items items = record { dict = insert_all items []; list = items }

  -- `ImmutableMultiDict(value, **kwargs)`
  unfoldable pub init : Source K V → Dict K V → MultiDict K V
  unfolding of_items source_items
  init value kwargs = of_items (elim kwargs [
    | [] ↦ source_items value
    | kw ∷ kws ↦ (of_items (source_items value)).list ++ (of_items (kw ∷ kws)).list
  ])

  -- the values of a key in a list of pairs, in order
  unfoldable pub values_at : K → List (K × V) → List V
  values_at k [] = []
  values_at k ((j, v) ∷ l) = if j == k then v ∷ values_at k l else values_at k l

  unfoldable pub getlist : MultiDict K V → K → List V
  unfolding values_at
  getlist m key = values_at key m.list

  pub multi_items : MultiDict K V → List (K × V)
  multi_items m = m.list

  -- `self[key]`
  unfoldable pub getitem : MultiDict K V → K → Result V
  unfolding lookup
  getitem m key = elim (lookup key m.dict) [ none ↦ raise key_error | some v ↦ ok v ]

  -- `key in self`
  unfoldable pub contains : MultiDict K V → K → Bool
  unfolding lookup
  contains m key = is_some (lookup key m.dict)

  -- `pop(key, default)`
  unfoldable pub pop : MultiDict K V → K → V → MultiDict K V × V
  unfolding without lookup
  pop m key default = (
    record { dict = without key m.dict; list = without key m.list },
    elim (lookup key m.dict) [ none ↦ default | some v ↦ v ],
  )

  -- `del self[key]`: the list is filtered before the `KeyError` of a missing key
  unfoldable pub delitem : MultiDict K V → K → MultiDict K V × Result (Unit {0})
  unfolding without lookup
  delitem m key = elim (lookup key m.dict) [
    | none ↦ (record { dict = m.dict; list = without key m.list }, raise key_error)
    | some v ↦ (record { dict = without key m.dict; list = without key m.list }, ok tt)
  ]

  -- `popitem()`: the entry that was inserted last
  unfoldable pub popitem : MultiDict K V → MultiDict K V × Result (K × V)
  unfolding without pop_last
  popitem m = elim m.dict [
    | [] ↦ (m, raise key_error)
    | entry ∷ d ↦
        let (others, last) = pop_last entry d in
        (record { dict = others; list = without last.0 m.list }, ok last)
  ]

  -- `poplist(key)`
  unfoldable pub poplist : MultiDict K V → K → V → MultiDict K V × List V
  unfolding values_at pop
  poplist m key none_value = ((pop m key none_value).0, values_at key m.list)

  unfoldable pub clear : MultiDict K V → MultiDict K V
  clear m = record { dict = []; list = [] }

  -- `setdefault(key, default)`
  unfoldable pub setdefault : MultiDict K V → K → V → MultiDict K V × Result V
  unfolding contains insert getitem
  setdefault m key default =
      let grown : MultiDict K V = record {
        dict = insert key default m.dict;
        list = m.list ++ (key, default) ∷ [];
      } in
      let m' = if not (contains m key) then grown else m in (m', getitem m' key)

  -- `setlist(key, values)`
  unfoldable pub setlist : MultiDict K V → K → List V → MultiDict K V
  unfolding without insert pop_last
  setlist m key [] = record { dict = without key m.dict; list = without key m.list }
  setlist m key (v ∷ values) = record {
    dict = insert key (pop_last v values).1 m.dict;
    list = without key m.list ++ map (λ value. (key, value)) (v ∷ values);
  }

  -- `self[key] = value`
  unfoldable pub setitem : MultiDict K V → K → V → MultiDict K V
  unfolding setlist
  setitem m key value = setlist m key (value ∷ [])

  unfoldable pub append : MultiDict K V → K → V → MultiDict K V
  unfolding insert
  append m key value = record { dict = insert key value m.dict; list = m.list ++ (key, value) ∷ [] }

  -- the pairs whose key is not in a dictionary
  unfoldable pub outside : Dict K V → List (K × V) → List (K × V)
  unfolding lookup
  outside d [] = []
  outside d ((k, v) ∷ l) = if not (is_some (lookup k d)) then (k, v) ∷ outside d l else outside d l

  -- `update(value, **kwargs)`
  unfoldable pub update : MultiDict K V → Source K V → Dict K V → MultiDict K V
  unfolding outside insert_all
  update m source kwargs =
      let value = init source kwargs in
      record { dict = insert_all value.dict m.dict; list = outside value.dict m.list ++ value.list }
