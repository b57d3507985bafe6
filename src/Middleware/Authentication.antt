-- ===== src/Middleware/Authentication.antt =====
-- starlette/authentication.py and starlette/middleware/authentication.py.
--
-- `U` is the type of users of a program and `E` that of the messages of its `AuthenticationError`.
pub mod Laws
mod Tests
use starlette.Prelude.{
  ℕ, Bool, true, false, not, Option, none, some, List, [], ◌∷◌, ◌++◌, contains, if◌then◌else◌,
}
use starlette.Prelude.Text.{Str, codes, str_eq}
use starlette.Prelude.Result.{Result, ok, raise, http_exception, ◌>>=◌}

-- a user of the program, `SimpleUser` or `UnauthenticatedUser`
pub data User (U : Type 0) : Type 0 where
  backend_user : U → User U
  simple_user : Str → User U
  unauthenticated_user : User U

-- `is_authenticated` and `display_name` of the two classes
pub is_authenticated : {U : Type 0} → (U → Bool) → User U → Bool
is_authenticated own (backend_user u) = own u
is_authenticated own (simple_user username) = true
is_authenticated own unauthenticated_user = false

pub display_name : {U : Type 0} → (U → Str) → User U → Str
display_name own (backend_user u) = own u
display_name own (simple_user username) = username
display_name own unauthenticated_user = []

-- the keys `auth`, as its list of scopes, and `user` of a scope
pub record Auth (U : Type 0) : Type 0 where
  pub scopes : List Str
  pub user : User U

-- `has_required_scope`
unfoldable pub has_required_scope : List Str → List Str → Bool
unfolding contains
has_required_scope granted [] = true
has_required_scope granted (scope ∷ scopes) =
    if not (contains granted scope) then false else has_required_scope granted scopes

-- what a call of a decorated function comes to
pub data Guarded : Type 0 where
  -- the function itself
  called : Guarded
  -- `RedirectResponse` with a status, to a URL
  redirected : ℕ → Str → Guarded
  -- `websocket.close()`
  closed : Guarded

-- `requires(scopes, status_code, redirect)` around a function of a request; `url_for` is that of the
-- request, and `urlencode` gives the query string `next=…`
unfoldable pub guard_request :
    (url_for : Str → Result Str) (urlencode : Str → Str)
    → List Str
    → ℕ
    → Option Str
    → (granted : List Str) (url : Str) → Result Guarded
unfolding has_required_scope
guard_request url_for urlencode scopes status_code redirect granted url =
    if not (has_required_scope granted scopes)
    then (elim redirect [
      | none ↦ raise (http_exception status_code [])
      | some name ↦ (do
        target ← url_for name
        ok (redirected 303 (target ++ codes "?" ++ urlencode url)))
    ])
    else ok called

-- `requires(scopes)` around a function of a web socket
unfoldable pub guard_websocket : List Str → List Str → Guarded
unfolding has_required_scope
guard_websocket scopes granted = if not (has_required_scope granted scopes) then closed else called

pub data Kind : Type 0 where
  http websocket other_kind : Kind

-- what `authenticate` of the backend comes to
pub data Authenticated (U E : Type 0) : Type 0 where
  -- credentials and a user, or None
  credentials : List Str → User U → Authenticated U E
  anonymous : Authenticated U E
  authentication_error : E → Authenticated U E

-- what the middleware does
pub data Outcome (U E : Type 0) : Type 0 where
  -- `self.app`, with the two keys as they are, or set
  passes : Outcome U E
  goes_on : Auth U → Outcome U E
  -- the response of `on_error`, and a close message with its code
  error_response : E → Outcome U E
  closes : ℕ → Outcome U E

-- `AuthenticationMiddleware.__call__`
unfoldable pub call : {U E : Type 0} → Kind → Authenticated U E → Outcome U E
call other_kind auth_result = passes
call http (authentication_error e) = error_response e
call websocket (authentication_error e) = closes 1000
call http anonymous = goes_on (record { scopes = []; user = unauthenticated_user })
call websocket anonymous = goes_on (record { scopes = []; user = unauthenticated_user })
call http (credentials granted user) = goes_on (record { scopes = granted; user = user })
call websocket (credentials granted user) = goes_on (record { scopes = granted; user = user })
