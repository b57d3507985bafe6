-- ===== src/Middleware/TrustedHost.antt =====
-- `TrustedHostMiddleware` of starlette/middleware/trustedhost.py.
--
-- `str(url.replace(netloc=…))` parses and prints a URL with the package urllib: a redirect is told
-- by the host that it goes to.

use starlette.Prelude.{
  Bool, true, false, not, ◌&&◌, ◌||◌, Option, none, some, List, [], ◌∷◌, ◌++◌, drop, contains, all,
  ◌≡◌, refl, arith, ◌==◌, if◌then◌else◌,
}
use starlette.Prelude.Text.{Str, codes, str_eq, starts_with, ends_with, has_part, before}
use starlette.Prelude.Result.{Result, ok, assertion_error, ensure, ◌>>◌}
use starlette.Datastructures.Headers
use starlette.Datastructures.Headers.{RawHeaders}

pub record TrustedHost : Type 0 where
  pub allowed_hosts : List Str
  pub allow_any : Bool
  pub www_redirect : Bool

-- what the two assertions ask of a pattern
unfoldable pub is_valid_pattern : Str → Bool
unfolding has_part starts_with
is_valid_pattern pattern =
    not (has_part (codes "*") (drop 1 pattern))
    && (not (starts_with (codes "*") pattern && not (pattern == codes "*"))
        || starts_with (codes "*.") pattern)

-- `TrustedHostMiddleware.__init__`
unfoldable pub init : Option (List Str) → Bool → Result TrustedHost
unfolding is_valid_pattern
init allowed_hosts www_redirect = do
  let hosts : List Str = elim allowed_hosts [ none ↦ codes "*" ∷ [] | some patterns ↦ patterns ]
  ensure (all is_valid_pattern hosts) assertion_error
  ok (record {
    allowed_hosts = hosts;
    allow_any = contains hosts (codes "*");
    www_redirect = www_redirect;
  })

-- `host == pattern or (pattern.startswith("*") and host.endswith(pattern[1:]))`
unfoldable pub host_matches : Str → Str → Bool
unfolding starts_with ends_with
host_matches host pattern =
    (host == pattern) || (starts_with (codes "*") pattern && ends_with (drop 1 pattern) host)

-- the loop over the patterns: `is_valid_host` and `found_www_redirect`
unfoldable pub check_host : Str → Bool → List Str → Bool × Bool
unfolding host_matches
check_host host found [] = (false, found)
check_host host found (pattern ∷ patterns) =
    let next = check_host host (found || ((codes "www." ++ host) == pattern)) patterns in
    if host_matches host pattern then (true, found) else next

pub data Handled : Type 0 where
  app_called : Handled
  -- a redirect to the same URL at another host
  redirected : Str → Handled
  -- status 400
  invalid_host : Handled

pub rejected : Bool → Str → Handled
rejected true host = redirected (codes "www." ++ host)
rejected false host = invalid_host

-- `__call__`, on the type of the scope, its headers and the `netloc` of its URL
unfoldable pub call : TrustedHost → Str → RawHeaders → Str → Handled
unfolding check_host rejected before
call t type headers netloc =
    let host : Str = elim (Headers.find (codes "host") headers) [
      | none ↦ []
      | some value ↦ before b':' value
    ] in
    let (is_valid_host, found_www_redirect) = check_host host false t.allowed_hosts in
    if t.allow_any || not (type == codes "http" || type == codes "websocket")
    then app_called
    else if is_valid_host
    then app_called
    else rejected (found_www_redirect && t.www_redirect) netloc

-- some pattern of a list has a property
abbrev pub any_of : (Str → Bool) → List Str → Bool
any_of test [] = false
any_of test (p ∷ ps) = test p || any_of test ps

-- The loop that checks a host says that it is valid exactly where some pattern matches it, and
-- otherwise reports a redirect exactly where one was found before or some pattern is the host with
-- `www.` before it.
pub check_host_lem :
    (host : Str) (found : Bool) (patterns : List Str)
    → ((check_host host found patterns).0 ≡ any_of (host_matches host) patterns)
      × (any_of (host_matches host) patterns ≡ false
          → (check_host host found patterns).1
            ≡ (found || any_of (λ p. (codes "www." ++ host) == p) patterns))
unfolding check_host
check_host_lem host found [] = (refl, λ h. ground arith)
check_host_lem host found (p ∷ ps) =
    let (valid, www) = check_host_lem host (found || ((codes "www." ++ host) == p)) ps in
    (ground arith, λ h. ground arith)
