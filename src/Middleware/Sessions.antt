-- ===== src/Middleware/Sessions.antt =====
-- `SessionMiddleware` of starlette/middleware/sessions.py.
--
-- The packages itsdangerous, json and base64 are parameters: `unsign` is `none` where it raises
-- `BadSignature`, for a bad signature or one that is too old. `S` is the type of sessions.
pub mod Laws
mod Tests
use starlette.Prelude.{
  ℕ, Bool, true, false, not, Option, none, some, List, [], ◌∷◌, ◌++◌, ◌==◌, nat_eq, if◌then◌else◌,
}
use starlette.Prelude.Text.{Str, codes, str_eq}
use starlette.Prelude.Decimal.{show_nat}
use starlette.Prelude.Dict.{lookup}
use starlette.Prelude.Result.{Error, Result, ok, raise, value_error, ◌>>=◌}
use starlette.Datastructures.Headers
use starlette.Datastructures.Headers.{RawHeaders}
use starlette.Requests.{cookies}

pub record Packages (S : Type 0) : Type 0 where
  pub sign : Str → Str
  pub unsign : Str → Option Str
  pub b64encode : Str → Str
  pub b64decode : Str → Option Str
  pub dumps : S → Str
  pub loads : Str → Option S
  pub encode_utf8 : Str → Str
  -- `_unquote` of http.cookies
  pub unquote : Str → Str
  -- the session `{}`, and whether a session is one
  pub empty : S
  pub is_empty : S → Bool

pub record SessionMiddleware : Type 0 where
  pub session_cookie : Str
  pub max_age : Option ℕ
  pub path : Str
  pub security_flags : Str

-- `SessionMiddleware(app, secret_key, …)`
unfoldable pub init : Str → Option ℕ → Str → Str → Bool → Option Str → SessionMiddleware
init session_cookie max_age path same_site https_only domain = record {
  session_cookie = session_cookie;
  max_age = max_age;
  path = path;
  security_flags =
      codes "httponly; samesite="
      ++ same_site
      ++ (if https_only then codes "; secure" else [])
      ++ (elim domain [ none ↦ [] | some d ↦ codes "; domain=" ++ d ]);
}

module _ {S : Type 0} (packages : Packages S) (mw : SessionMiddleware) where
  -- the session of a cookie, and `initial_session_was_empty`
  unfoldable pub load_cookie : Str → Result (S × Bool)
  load_cookie cookie = elim (packages.unsign (packages.encode_utf8 cookie)) [
    | none ↦ ok (packages.empty, true)
    | some signed ↦ elim (packages.b64decode signed) [
      | none ↦ raise value_error
      | some text ↦ elim (packages.loads text) [
        | none ↦ raise value_error
        | some session ↦ ok (session, false)
      ]
    ]
  ]

  -- what `__call__` does before the application
  unfoldable pub load : RawHeaders → Result (S × Bool)
  unfolding load_cookie cookies lookup
  load headers = do
    found ← cookies packages.unquote headers
    elim (lookup mw.session_cookie found) [
      | none ↦ ok (packages.empty, true)
      | some cookie ↦ load_cookie cookie
    ]

  -- the value of the cookie for a session
  unfoldable pub session_data : S → Str
  session_data session = packages.sign (packages.b64encode (packages.dumps session))

  unfoldable pub max_age_text : Option ℕ → Str
  unfolding show_nat
  max_age_text none = []
  max_age_text (some age) = if age == 0 then [] else codes "Max-Age=" ++ show_nat age ++ codes "; "

  unfoldable pub header_value : Str → Str → Str
  header_value value expiry =
      mw.session_cookie
      ++ codes "="
      ++ value
      ++ codes "; path="
      ++ mw.path
      ++ codes "; "
      ++ expiry
      ++ mw.security_flags

  -- `send_wrapper`: the headers of the start of the response
  unfoldable pub save : S → Bool → RawHeaders → Result RawHeaders
  unfolding Headers.append header_value session_data max_age_text
  save session initial_session_was_empty headers =
      if not (packages.is_empty session)
      then Headers.append headers (codes "Set-Cookie")
          (header_value (session_data session) (max_age_text mw.max_age))
      else if not initial_session_was_empty
      then Headers.append headers (codes "Set-Cookie")
          (header_value (codes "null") (codes "expires=Thu, 01 Jan 1970 00:00:00 GMT; "))
      else ok headers
