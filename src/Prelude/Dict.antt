-- ===== src/Prelude/Dict.antt =====
-- Python's `dict` as an association list in the order of insertion.
use mathlib.Core.Path.{◌≡◌, refl}
use mathlib.Core.Bool.{Bool, true, false}
use mathlib.Core.Option.{Option, none, some}
use mathlib.Core.List.{List, [], ◌∷◌, ◌++◌}
use native.Mathlib.Omega.{arith}
use starlette.Prelude.Tests.{Eq, ◌==◌, if◌then◌else◌}

abbrev pub Dict {ℓ κ} : Type ℓ → Type κ → Type (ℓ ⊔ κ)
Dict K V = List (K × V)

-- `a`, or `b` where it is `None`
abbrev pub or_else {ℓ} : {A : Type ℓ} → Option A → Option A → Option A
or_else none b = b
or_else (some a) b = some a

abbrev pub is_some {ℓ} : {A : Type ℓ} → Option A → Bool
is_some none = false
is_some (some a) = true

module _ {ℓ κ} {K : Type ℓ} {V : Type κ} ⦃e : Eq K⦄ where
  -- `d.get(k)`
  unfoldable pub lookup : K → Dict K V → Option V
  lookup k [] = none
  lookup k ((j, v) ∷ d) = if j == k then some v else lookup k d

  -- `d[k] = v`: an old key keeps its place
  unfoldable pub insert : K → V → Dict K V → Dict K V
  insert k v [] = (k, v) ∷ []
  insert k v ((j, w) ∷ d) = if j == k then (j, v) ∷ d else (j, w) ∷ insert k v d

  -- the pairs whose key is not `k`: `del d[k]`, and a filter over a list of pairs
  unfoldable pub without : K → Dict K V → Dict K V
  without k [] = []
  without k ((j, v) ∷ d) = if j == k then without k d else (j, v) ∷ without k d

  -- `for k, v in items: d[k] = v`
  unfoldable pub insert_all : List (K × V) → Dict K V → Dict K V
  unfolding insert
  insert_all [] d = d
  insert_all ((k, v) ∷ items) d = insert_all items (insert k v d)

  -- the value that a key has last in a list of pairs
  unfoldable pub last_value : K → List (K × V) → Option V
  last_value k [] = none
  last_value k ((j, v) ∷ l) = or_else (last_value k l) (if j == k then some v else none)

  -- every key stands once, as it does in a `dict`
  abbrev pub UniqueKeys : Dict K V → Type κ
  UniqueKeys [] = Unit
  UniqueKeys ((k, v) ∷ d) = (lookup k d ≡ none) × UniqueKeys d

  pub lookup-insert :
      (k j : K) (v : V) (d : Dict K V)
      → lookup j (insert k v d) ≡ (if k == j then some v else lookup j d)
  unfolding lookup insert
  lookup-insert k j v [] = refl
  lookup-insert k j v ((i, w) ∷ d) =
      ground (arith, e.same_iff k j, e.same_iff i k, e.same_iff i j, lookup-insert k j v d)

  pub lookup-without :
      (k j : K) (d : Dict K V) → lookup j (without k d) ≡ (if k == j then none else lookup j d)
  unfolding lookup without
  lookup-without k j [] = ground arith
  lookup-without k j ((i, v) ∷ d) =
      ground (arith, e.same_iff k j, e.same_iff i k, e.same_iff i j, lookup-without k j d)

  pub lookup-insert_all :
      (items : List (K × V)) (d : Dict K V) (k : K)
      → lookup k (insert_all items d) ≡ or_else (last_value k items) (lookup k d)
  unfolding insert_all last_value
  lookup-insert_all [] d k = refl
  lookup-insert_all ((j, v) ∷ items) d k =
      ground (arith, lookup-insert_all items (insert j v d) k, lookup-insert j k v d)

  pub last_value-append :
      (k : K) (l m : List (K × V))
      → last_value k (l ++ m) ≡ or_else (last_value k m) (last_value k l)
  unfolding last_value
  last_value-append k [] m = ground arith
  last_value-append k ((j, v) ∷ l) m = ground (arith, last_value-append k l m)

  pub last_value-without :
      (k j : K) (l : List (K × V))
      → last_value j (without k l) ≡ (if k == j then none else last_value j l)
  unfolding last_value without
  last_value-without k j [] = ground arith
  last_value-without k j ((i, v) ∷ l) =
      ground (arith, e.same_iff k j, e.same_iff i k, e.same_iff i j, last_value-without k j l)

  pub insert-UniqueKeys : (k : K) (v : V) (d : Dict K V) → UniqueKeys d → UniqueKeys (insert k v d)
  unfolding insert lookup
  insert-UniqueKeys k v [] h = (refl, tt)
  insert-UniqueKeys k v ((j, w) ∷ d) h =
      ground (arith, insert-UniqueKeys k v d, lookup-insert k j v d, e.same_iff k j, e.same_iff j k)

  pub without-UniqueKeys : (k : K) (d : Dict K V) → UniqueKeys d → UniqueKeys (without k d)
  unfolding without
  without-UniqueKeys k [] h = tt
  without-UniqueKeys k ((j, w) ∷ d) h = ground (arith, without-UniqueKeys k d, lookup-without k j d)

  pub insert_all-UniqueKeys :
      (items : List (K × V)) (d : Dict K V) → UniqueKeys d → UniqueKeys (insert_all items d)
  unfolding insert_all
  insert_all-UniqueKeys [] d h = h
  insert_all-UniqueKeys ((k, v) ∷ items) d h =
      insert_all-UniqueKeys items (insert k v d) (insert-UniqueKeys k v d h)

  -- In a dictionary the first entry of a key is the last one.
  pub last_value-lookup : (k : K) (d : Dict K V) → UniqueKeys d → last_value k d ≡ lookup k d
  unfolding last_value lookup
  last_value-lookup k [] h = refl
  last_value-lookup k ((j, v) ∷ d) h = ground (arith, last_value-lookup k d, e.same_iff j k)
