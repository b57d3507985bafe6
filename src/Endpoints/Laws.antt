-- ===== src/Endpoints/Laws.antt =====
-- Which handler of an `HTTPEndpoint` answers.
use starlette.Prelude.{Bool, Option, none, some, ◌==◌, if◌then◌else◌}
use starlette.Prelude.Text.{Str, codes, str_eq, lower}
use starlette.Endpoints.{Answer, handler, method_not_allowed}

module _ {H : Type 0} (getattr : Str → Option H) where
  -- the handler of a method's own name, or that of `get` for a `HEAD` without one
  abbrev pub answer : Bool → Str → Answer H
  answer has_app method = elim (getattr (lower method)) [
    | some h ↦ handler h
    | none ↦ elim (if method == codes "HEAD" then getattr (codes "get") else none) [
      | some h ↦ handler h
      | none ↦ method_not_allowed getattr has_app
    ]
  ]
