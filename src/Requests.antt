-- ===== src/Requests.antt =====
-- `cookie_parser`, `HTTPConnection` and `Request.send_push_promise` of starlette/requests.py.
--
-- `unquote` is `_unquote` of the package http.cookies. The scope is taken apart: its keys for a URL,
-- its headers, and the values that middleware puts there. A property that is kept in an attribute
-- is computed again, since nothing that it reads changes.
pub mod Stream
pub mod Cookies
pub mod Push
mod Tests
use starlette.Prelude.{
  ℕ, Bool, true, false, not, ◌||◌, Option, none, some, List, [], ◌∷◌, ◌++◌, ◌==◌, if◌then◌else◌,
  contains,
}
use starlette.Prelude.Text.{Str, codes, str_eq, split, ends_with}
use starlette.Prelude.Dict.{Dict, insert, lookup, or_else}
use starlette.Prelude.Result.{Result, ok, raise, assertion_error, runtime_error, ◌>>=◌}
use starlette.Datastructures.Headers
use starlette.Datastructures.Headers.{RawHeaders}
use starlette.Datastructures.Url.{UrlScope, scope_url}
use starlette.Responses.Range.{strip, split_once}

-- the name and the value of a chunk, before they are stripped
unfoldable pub split_chunk : Str → Str × Str
unfolding split_once
split_chunk chunk = elim (split_once b'=' chunk) [ none ↦ ([], chunk) | some pair ↦ pair ]

module _ (unquote : Str → Str) where
  -- one turn of the loop of `cookie_parser`
  unfoldable pub add_cookie : Str → Dict Str Str → Dict Str Str
  unfolding split_chunk strip insert
  add_cookie chunk cookie_dict =
      let key = strip (split_chunk chunk).0 in
      let val = strip (split_chunk chunk).1 in
      if not (key == []) || not (val == [])
      then insert key (unquote val) cookie_dict
      else cookie_dict

  unfoldable pub add_cookies : List Str → Dict Str Str → Dict Str Str
  unfolding add_cookie
  add_cookies [] cookie_dict = cookie_dict
  add_cookies (chunk ∷ chunks) cookie_dict = add_cookies chunks (add_cookie chunk cookie_dict)

  unfoldable pub cookie_parser : Str → Dict Str Str
  unfolding add_cookies split
  cookie_parser cookie_string = add_cookies (split b';' cookie_string) []

  -- `cookies`
  unfoldable pub cookies : RawHeaders → Result (Dict Str Str)
  unfolding cookie_parser Headers.get
  cookies headers = do
    cookie_header ← Headers.get headers (codes "cookie")
    ok (elim cookie_header [
      | none ↦ []
      | some header ↦ if header == [] then [] else cookie_parser header
    ])

-- `base_url`, with `app_root_path` and `root_path` of the scope
unfoldable pub base_url : UrlScope → Option Str → Option Str → Result Str
unfolding scope_url ends_with
base_url scope app_root_path root_path =
    let path : Str = elim (or_else app_root_path root_path) [ none ↦ [] | some p ↦ p ] in
    scope_url (record scope {
      path = if ends_with (codes "/") path then path else path ++ codes "/";
      query_string = [];
    })

-- `session`, `auth` and `user`: a key of the scope that a middleware puts there
unfoldable pub installed {ℓ} : {V : Type ℓ} → Dict Str V → Str → Result V
unfolding lookup
installed scope key = elim (lookup key scope) [
  | none ↦ raise assertion_error
  | some value ↦ ok value
]

pub session {ℓ} : {V : Type ℓ} → Dict Str V → Result V
unfolding installed
session scope = installed scope (codes "session")

pub auth {ℓ} : {V : Type ℓ} → Dict Str V → Result V
unfolding installed
auth scope = installed scope (codes "auth")

pub user {ℓ} : {V : Type ℓ} → Dict Str V → Result V
unfolding installed
user scope = installed scope (codes "user")

-- the names to copy, in an order that Python leaves open for a set
unfoldable pub server_push_headers_to_copy : List Str
server_push_headers_to_copy =
    codes "accept"
    ∷ codes "accept-encoding"
    ∷ codes "accept-language"
    ∷ codes "cache-control"
    ∷ codes "user-agent"
    ∷ []

-- the headers for the values of one name
unfoldable pub with_name : Str → List Str → RawHeaders
with_name name [] = []
with_name name (value ∷ values) = (name, value) ∷ with_name name values

unfoldable pub copied_headers : List Str → RawHeaders → Result RawHeaders
unfolding Headers.getlist with_name
copied_headers [] headers = ok []
copied_headers (name ∷ names) headers = do
  values ← Headers.getlist headers name
  rest ← copied_headers names headers
  ok (with_name name values ++ rest)

-- `send_push_promise`: the path and the headers of the message that it sends, or `none`
unfoldable pub send_push_promise : Bool → RawHeaders → Str → Result (Option (Str × RawHeaders))
unfolding copied_headers server_push_headers_to_copy
send_push_promise has_extension headers path =
    if has_extension
    then (do
      raw_headers ← copied_headers server_push_headers_to_copy headers
      ok (some (path, raw_headers)))
    else ok none
