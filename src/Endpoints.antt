-- ===== src/Endpoints.antt =====
-- starlette/endpoints.py: `HTTPEndpoint` here, `WebSocketEndpoint` in Endpoints/Sessions.
--
-- An endpoint of a program is a subclass; its attributes, the inherited ones too, are a function
-- from names.
pub mod Sessions
pub mod Laws
mod Tests
use starlette.Prelude.{
  ℕ, Bool, true, false, not, ◌&&◌, Option, none, some, List, [], ◌∷◌, ◌==◌, if◌then◌else◌,
}
use starlette.Prelude.Text.{Str, codes, str_eq, lower, join}
use starlette.Prelude.Dict.{is_some}
use starlette.Datastructures.Headers.{RawHeaders}

unfoldable pub methods : List Str
methods =
    codes "GET"
    ∷ codes "HEAD"
    ∷ codes "POST"
    ∷ codes "PUT"
    ∷ codes "PATCH"
    ∷ codes "DELETE"
    ∷ codes "OPTIONS"
    ∷ []

-- what `dispatch` awaits
pub data Answer (H : Type 0) : Type 0 where
  -- the attribute that it found, with the request
  handler : H → Answer H
  -- `HTTPException(405)` and a plain response with status 405, with their headers
  raises_405 responds_405 : RawHeaders → Answer H

module _ {H : Type 0} (getattr : Str → Option H) where
  unfoldable pub allowed_among : List Str → List Str
  unfolding lower
  allowed_among [] = []
  allowed_among (method ∷ rest) =
      if is_some (getattr (lower method)) then method ∷ allowed_among rest else allowed_among rest

  -- `_allowed_methods`
  unfoldable pub allowed_methods : List Str
  unfolding allowed_among methods
  allowed_methods = allowed_among methods

  -- `method_not_allowed`, inside of an application or outside
  unfoldable pub method_not_allowed : Bool → Answer H
  unfolding allowed_methods join
  method_not_allowed has_app =
      let headers = (codes "Allow", join (codes ", ") allowed_methods) ∷ [] in
      if has_app then raises_405 headers else responds_405 headers

  unfoldable pub handler_name : Str → Str
  unfolding lower
  handler_name method =
      if (method == codes "HEAD") && not (is_some (getattr (codes "head")))
      then codes "get"
      else lower method

  unfoldable pub dispatch : Bool → Str → Answer H
  unfolding handler_name method_not_allowed
  dispatch has_app method = elim (getattr (handler_name method)) [
    | none ↦ method_not_allowed has_app
    | some h ↦ handler h
  ]
