-- ===== src/Responses/Cookies.antt =====
-- `set_cookie` and `delete_cookie` of `Response`, and `RedirectResponse`, of starlette/responses.py.
--
-- `SimpleCookie`, `format_datetime`, `quote` and the version of Python are parameters. A response is
-- its list of raw headers.
use starlette.Prelude.{
  ℕ, Bool, true, false, ◌||◌, Option, none, some, List, [], ◌∷◌, ◌++◌, ◌==◌, if◌then◌else◌,
}
use starlette.Prelude.Text.{Str, codes, str_eq, lower}
use starlette.Prelude.Int.{ℤ, pos}
use starlette.Prelude.Result.{Result, ok, assertion_error, value_error, ensure, ◌>>=◌, ◌>>◌}
use starlette.Datastructures.Headers
use starlette.Datastructures.Headers.{RawHeaders}
use starlette.Responses.Headers.{init_headers}
use starlette.Responses.Range.{strip}

pub data Attribute : Type 0 where
  number : ℤ → Attribute
  text : Str → Attribute
  flag : Bool → Attribute

-- `expires`, with the library's type of times
pub data Expires (D : Type 0) : Type 0 where
  at_time : D → Expires D
  as_text : Str → Expires D
  seconds : ℤ → Expires D

-- `SimpleCookie`: whether it takes a name, and the text of a cookie with the attributes that were
-- set, in this order
pub record Library (D : Type 0) : Type 0 where
  pub set_key : Str → Str → Result (Unit {0})
  pub output : Str → Str → List (Str × Attribute) → Result Str
  pub format_datetime : D → Str
  -- `sys.version_info >= (3, 14)`
  pub allows_partitioned : Bool

pub record CookieOptions (D : Type 0) : Type 0 where
  pub max_age : Option ℤ
  pub expires : Option (Expires D)
  pub path : Option Str
  pub domain : Option Str
  pub secure : Bool
  pub httponly : Bool
  pub samesite : Option Str
  pub partitioned : Bool

-- the defaults of `set_cookie`
pub defaults : {D : Type 0} → CookieOptions D
defaults = record {
  max_age = none;
  expires = none;
  path = some (codes "/");
  domain = none;
  secure = false;
  httponly = false;
  samesite = some (codes "lax");
  partitioned = false;
}

-- `if value is not None: cookie[key][name] = value`
unfoldable pub attribute : {A : Type 0} → Str → (A → Attribute) → Option A → List (Str × Attribute)
attribute name f none = []
attribute name f (some value) = (name, f value) ∷ []

unfoldable pub set_flag : Str → Bool → List (Str × Attribute)
set_flag name b = if b then (name, flag true) ∷ [] else []

unfoldable pub expires_value : {D : Type 0} → Library D → Expires D → Attribute
expires_value l (at_time t) = text (l.format_datetime t)
expires_value l (as_text s) = text s
expires_value l (seconds n) = number n

unfoldable pub is_samesite : Str → Bool
unfolding lower
is_samesite s = lower s == codes "strict" || (lower s == codes "lax" || lower s == codes "none")

unfoldable pub samesite_attribute : Option Str → Result (List (Str × Attribute))
unfolding is_samesite
samesite_attribute none = ok []
samesite_attribute (some s) = do
  ensure (is_samesite s) assertion_error
  ok ((codes "samesite", text s) ∷ [])

unfoldable pub partitioned_attribute :
    {D : Type 0} → Library D → Bool → Result (List (Str × Attribute))
partitioned_attribute l false = ok []
partitioned_attribute l true = do
  ensure l.allows_partitioned value_error
  ok ((codes "partitioned", flag true) ∷ [])

-- `set_cookie`
unfoldable pub set_cookie :
    {D : Type 0} → Library D → Str → Str → CookieOptions D → RawHeaders → Result RawHeaders
unfolding attribute set_flag expires_value samesite_attribute partitioned_attribute strip
    Headers.encode
set_cookie l key value o raw_headers = do
  l.set_key key value
  samesite ← samesite_attribute o.samesite
  partitioned ← partitioned_attribute l o.partitioned
  cookie ← l.output key value (
      attribute (codes "max-age") number o.max_age
      ++ attribute (codes "expires") (expires_value l) o.expires
      ++ attribute (codes "path") text o.path
      ++ attribute (codes "domain") text o.domain
      ++ set_flag (codes "secure") o.secure
      ++ set_flag (codes "httponly") o.httponly
      ++ samesite
      ++ partitioned)
  cookie_val ← Headers.encode (strip cookie)
  ok (raw_headers ++ (codes "set-cookie", cookie_val) ∷ [])

-- `delete_cookie`
unfoldable pub delete_cookie :
    {D : Type 0}
    → Library D
    → Str
    → Str
    → Option Str
    → Bool
    → Bool
    → Option Str
    → RawHeaders
    → Result RawHeaders
unfolding set_cookie defaults
delete_cookie l key path domain secure httponly samesite raw_headers =
    set_cookie l key []
      (record defaults {
        max_age = some (pos 0);
        expires = some (seconds (pos 0));
        path = some path;
        domain = domain;
        secure = secure;
        httponly = httponly;
        samesite = samesite;
      })
      raw_headers

-- `RedirectResponse`, with `quote` at the safe characters
unfoldable pub redirect_headers :
    (Str → Str) → Str → ℕ → Option (List (Str × Str)) → Result RawHeaders
unfolding init_headers Headers.setitem
redirect_headers quote url status_code headers = do
  raw_headers ← init_headers status_code (some []) none headers
  Headers.setitem raw_headers (codes "location") (quote url)
