-- ===== src/Datastructures/State.antt =====
-- `State` of starlette/datastructures.py: attributes kept in a dictionary. `AttributeError` and
-- `KeyError` both stand as a missing key.
use starlette.Prelude.{Option, none, some, []}
use starlette.Prelude.Text.{Str, str_eq}
use starlette.Prelude.Dict.{Dict, lookup, insert, without}
use starlette.Prelude.Result.{Result, ok, raise, key_error}

module _ {V : Type 0} where
  -- `State(state)`
  pub init : Option (Dict Str V) → Dict Str V
  init none = []
  init (some state) = state

  unfoldable pub setattr : Dict Str V → Str → V → Dict Str V
  unfolding insert
  setattr state key value = insert key value state

  unfoldable pub getattr : Dict Str V → Str → Result V
  unfolding lookup
  getattr state key = elim (lookup key state) [ none ↦ raise key_error | some v ↦ ok v ]

  unfoldable pub delattr : Dict Str V → Str → Result (Dict Str V)
  unfolding lookup without
  delattr state key = elim (lookup key state) [
    | none ↦ raise key_error
    | some v ↦ ok (without key state)
  ]
