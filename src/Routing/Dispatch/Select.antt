-- ===== src/Routing/Dispatch/Select.antt =====
-- Which route the loop of `Router.app` selects: one pass with a remembered partial match, against
-- two searches.
use starlette.Prelude.{◌≡◌, refl, Option, none, some, arith}
use starlette.Prelude.Dict.{or_else}
use starlette.Prelude.Result.{Result, ok, raise}
use starlette.Routing.Routes.{BaseRoute, Routes, nil, cons}
use starlette.Routing.Scope.{Scope, ChildScope}
use starlette.Routing.Matches.{no_match, partial, full, Matched, matches}
use starlette.Routing.Dispatch.{Outcome, raised, updated, dispatch, handle}

module _ {O : Type 0} (scope : Scope O) where
  -- the first route that matches in full, or the exception of an earlier one
  pub first_full : Routes O → Option (Result (BaseRoute O × Option (ChildScope O)))
  first_full nil = none
  first_full (cons r rs) = elim (matches r scope) [
    | raise e ↦ some (raise e)
    | ok (no_match, child) ↦ first_full rs
    | ok (partial, child) ↦ first_full rs
    | ok (full, child) ↦ some (ok (r, child))
  ]

  -- the first route that matches in part
  pub first_partial : Routes O → Option (BaseRoute O × Option (ChildScope O))
  first_partial nil = none
  first_partial (cons r rs) = elim (matches r scope) [
    | raise e ↦ none
    | ok (no_match, child) ↦ first_partial rs
    | ok (partial, child) ↦ some (r, child)
    | ok (full, child) ↦ first_partial rs
  ]

  abbrev pub handled : Option (BaseRoute O × Option (ChildScope O)) → Option (Outcome O)
  handled none = none
  handled (some (r, child)) = some (handle r (updated scope child))

  abbrev pub selected :
      Option (Result (BaseRoute O × Option (ChildScope O)))
      → Option (Outcome O)
      → Option (Outcome O)
  selected none fallback = fallback
  selected (some (raise e)) fallback = some (raised e)
  selected (some (ok (r, child))) fallback = some (handle r (updated scope child))

  -- A full match wins wherever it stands, the earliest of them first; with none of these, the first
  -- partial match is handled, unless one was kept before; an exception of `matches` that stands
  -- before the full match goes through.
  pub dispatch-select :
      (rs : Routes O) (kept : Option (Outcome O))
      → dispatch rs scope kept
        ≡ selected (first_full rs) (or_else kept (handled (first_partial rs)))
  unfolding dispatch first_full first_partial
  dispatch-select nil kept = ground arith
  dispatch-select (cons r rs) kept = by_match (matches r scope) refl (dispatch-select rs)
    where
      Claim : Option (Outcome O) → Routes O → Type 0
      Claim before routes =
          dispatch routes scope before
          ≡ selected (first_full routes) (or_else before (handled (first_partial routes)))

      by_match :
          (found : Result (Matched O))
          → matches r scope ≡ found
          → ((before : Option (Outcome O)) → Claim before rs)
          → Claim kept (cons r rs)
      by_match (raise e) h ih = ground arith
      by_match (ok (no_match, child)) h ih = ground (arith, ih kept)
      by_match (ok (partial, child)) h ih =
          ground (arith, ih (or_else kept (some (handle r (updated scope child)))))
      by_match (ok (full, child)) h ih = ground arith
