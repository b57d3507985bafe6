-- ===== src/Middleware/Cors.antt =====
-- `CORSMiddleware` of starlette/middleware/cors.py.
--
-- A response that the middleware makes is its status, its text and the headers that it is given.
-- The pattern for origins, which `re` compiles, is the test that its `fullmatch` makes.
pub mod Laws
use starlette.Prelude.{
  ℕ, Bool, true, false, not, ◌&&◌, ◌||◌, Option, none, some, List, [], ◌∷◌, ◌++◌, map, all,
  contains, ltb, ◌==◌, nat_eq, if◌then◌else◌,
}
use starlette.Prelude.Text.{Str, codes, str_eq, lower, split, join}
use starlette.Prelude.Decimal.{show_nat}
use starlette.Prelude.Dict.{Dict, insert, is_some}
use starlette.Prelude.Result.{Result, ok, raise, ◌>>=◌}
use starlette.Datastructures.Headers
use starlette.Datastructures.Headers.{RawHeaders}
use starlette.Responses.Range.{strip}

-- the arguments of `CORSMiddleware`
pub record Options : Type 0 where
  pub allow_origins : List Str
  pub allow_methods : List Str
  pub allow_headers : List Str
  pub allow_credentials : Bool
  pub allow_origin_regex : Option (Str → Bool)
  pub expose_headers : List Str
  pub max_age : ℕ

pub record Cors : Type 0 where
  pub allow_origins : List Str
  pub allow_methods : List Str
  -- in lower case
  pub allow_headers : List Str
  pub allow_all_origins : Bool
  pub allow_all_headers : Bool
  pub preflight_explicit_allow_origin : Bool
  pub allow_origin_regex : Option (Str → Bool)
  pub simple_headers : Dict Str Str
  pub preflight_headers : Dict Str Str

pub record PlainText : Type 0 where
  pub status : ℕ
  pub content : Str
  pub headers : Dict Str Str

abbrev pub all_methods : List Str
all_methods =
    codes "DELETE"
    ∷ codes "GET"
    ∷ codes "HEAD"
    ∷ codes "OPTIONS"
    ∷ codes "PATCH"
    ∷ codes "POST"
    ∷ codes "PUT"
    ∷ []

abbrev pub safelisted_headers : List Str
safelisted_headers =
    codes "Accept" ∷ codes "Accept-Language" ∷ codes "Content-Language" ∷ codes "Content-Type" ∷ []

-- the order of texts, by code points
pub before_text : Str → Str → Bool
before_text s [] = false
before_text [] (d ∷ t) = true
before_text (c ∷ s) (d ∷ t) = ltb c d || (c == d) && before_text s t

pub add_sorted : Str → List Str → List Str
unfolding before_text
add_sorted s [] = s ∷ []
add_sorted s (t ∷ ts) =
    let later = add_sorted s ts in
    if s == t then t ∷ ts else if before_text s t then s ∷ t ∷ ts else t ∷ later

-- `sorted(set(texts))`
pub sorted_set : List Str → List Str
unfolding add_sorted
sorted_set [] = []
sorted_set (s ∷ ss) = add_sorted s (sorted_set ss)

pub is_filled : List Str → Bool
is_filled [] = false
is_filled (s ∷ ss) = true

-- `if test: headers[key] = value`
unfoldable pub insert_if : Bool → Str → Str → Dict Str Str → Dict Str Str
unfolding insert
insert_if test key value headers = if test then insert key value headers else headers

unfoldable pub simple_headers_of : Options → Dict Str Str
unfolding insert_if is_filled
simple_headers_of o =
    insert_if (is_filled o.expose_headers) (codes "Access-Control-Expose-Headers")
      (join (codes ", ") o.expose_headers)
      (insert_if o.allow_credentials (codes "Access-Control-Allow-Credentials") (codes "true") (
        insert_if (contains o.allow_origins (codes "*")) (codes "Access-Control-Allow-Origin")
          (codes "*") []))

unfoldable pub preflight_headers_of : Options → List Str → List Str → Dict Str Str
unfolding insert_if is_filled
preflight_headers_of o allow_methods allow_headers =
    let explicit = not (contains o.allow_origins (codes "*")) || o.allow_credentials in
    insert_if o.allow_credentials (codes "Access-Control-Allow-Credentials") (codes "true") (
      insert_if (is_filled allow_headers && not (contains o.allow_headers (codes "*")))
        (codes "Access-Control-Allow-Headers") (join (codes ", ") allow_headers)
        (insert (codes "Access-Control-Max-Age") (show_nat o.max_age) (
          insert (codes "Access-Control-Allow-Methods") (join (codes ", ") allow_methods) (
            if explicit
            then (codes "Vary", codes "Origin") ∷ []
            else (codes "Access-Control-Allow-Origin", codes "*") ∷ []))))

-- `CORSMiddleware.__init__`
unfoldable pub init : Options → Cors
unfolding sorted_set simple_headers_of preflight_headers_of
init o =
    let allow_methods =
      if contains o.allow_methods (codes "*") then all_methods else o.allow_methods in
    let allow_headers = sorted_set (safelisted_headers ++ o.allow_headers) in
    record {
      allow_origins = o.allow_origins;
      allow_methods = allow_methods;
      allow_headers = map lower allow_headers;
      allow_all_origins = contains o.allow_origins (codes "*");
      allow_all_headers = contains o.allow_headers (codes "*");
      preflight_explicit_allow_origin =
          not (contains o.allow_origins (codes "*")) || o.allow_credentials;
      allow_origin_regex = o.allow_origin_regex;
      simple_headers = simple_headers_of o;
      preflight_headers = preflight_headers_of o allow_methods allow_headers;
    }

pub fullmatch : Option (Str → Bool) → Str → Bool
fullmatch none s = false
fullmatch (some test) s = test s

unfoldable pub is_allowed_origin : Cors → Str → Bool
unfolding fullmatch
is_allowed_origin c origin =
    if c.allow_all_origins
    then true
    else if fullmatch c.allow_origin_regex origin
    then true
    else contains c.allow_origins origin

-- the loop over the requested headers finds none that is not allowed
unfoldable pub headers_allowed : Cors → Str → Bool
unfolding strip split
headers_allowed c requested =
    all (λ header. contains c.allow_headers (strip header)) (map lower (split b',' requested))

-- the `failures` that the requested headers add
pub header_failures : Cors → Option Str → List Str
unfolding headers_allowed
header_failures c none = []
header_failures c (some requested) =
    if c.allow_all_headers || headers_allowed c requested then [] else codes "headers" ∷ []

pub mirrored : Cors → Option Str → Dict Str Str → Dict Str Str
mirrored c none headers = headers
mirrored c (some requested) headers =
    if c.allow_all_headers
    then insert (codes "Access-Control-Allow-Headers") requested headers
    else headers

unfoldable pub failures : Cors → Str → Str → Option Str → List Str
unfolding header_failures is_allowed_origin
failures c origin method requested =
    (if is_allowed_origin c origin then [] else codes "origin" ∷ [])
    ++ (if contains c.allow_methods method then [] else codes "method" ∷ [])
    ++ header_failures c requested

unfoldable pub answer : List Str → Dict Str Str → PlainText
unfolding join
answer [] headers = record { status = 200; content = codes "OK"; headers = headers }
answer (f ∷ fs) headers = record {
  status = 400;
  content = codes "Disallowed CORS " ++ join (codes ", ") (f ∷ fs);
  headers = headers;
}

unfoldable pub preflight_response : Cors → RawHeaders → Result PlainText
unfolding Headers.getitem Headers.get failures answer mirrored insert_if is_allowed_origin
preflight_response c request_headers = do
  origin ← Headers.getitem request_headers (codes "origin")
  method ← Headers.getitem request_headers (codes "access-control-request-method")
  requested ← Headers.get request_headers (codes "access-control-request-headers")
  ok (
      answer (failures c origin method requested) (
        mirrored c requested (
          insert_if (is_allowed_origin c origin && c.preflight_explicit_allow_origin)
            (codes "Access-Control-Allow-Origin") origin c.preflight_headers)))

unfoldable pub allow_explicit_origin : RawHeaders → Str → Result RawHeaders
unfolding Headers.setitem Headers.add_vary_header
allow_explicit_origin headers origin = do
  headers ← Headers.setitem headers (codes "Access-Control-Allow-Origin") origin
  Headers.add_vary_header headers (codes "Origin")

pub with_origin : Cors → RawHeaders → Str → Bool → Result RawHeaders
unfolding allow_explicit_origin is_allowed_origin
with_origin c headers origin has_cookie =
    if c.allow_all_origins && has_cookie
    then allow_explicit_origin headers origin
    else if not c.allow_all_origins && is_allowed_origin c origin
    then allow_explicit_origin headers origin
    else ok headers

-- what an update leaves, or what it raises
pub updated : RawHeaders × Result (Unit {0}) → Result RawHeaders
updated (headers, ok u) = ok headers
updated (headers, raise e) = raise e

-- `send` on `http.response.start`, by the headers of the request and those of the message; any
-- other message is sent on as it is
unfoldable pub send : Cors → RawHeaders → RawHeaders → Result RawHeaders
unfolding updated Headers.update Headers.getitem Headers.contains with_origin
send c request_headers headers = do
  headers ← updated (Headers.update headers c.simple_headers)
  origin ← Headers.getitem request_headers (codes "Origin")
  has_cookie ← Headers.contains request_headers (codes "cookie")
  with_origin c headers origin has_cookie

-- What `__call__` does with a request: it calls the application, with the `send` that it was given
-- or with its own one, or it sends a response.
pub data Handled : Type 0 where
  app_called simple_response : Handled
  responded : PlainText → Handled

pub respond_or_call : Cors → RawHeaders → Str → Option Str → Bool → Result Handled
unfolding preflight_response
respond_or_call c headers method none asks_method = ok app_called
respond_or_call c headers method (some origin) asks_method =
    if (method == codes "OPTIONS") && asks_method
    then (do r ← preflight_response c headers; ok (responded r))
    else ok simple_response

-- `CORSMiddleware.__call__`, on the type, the method and the headers of a scope
unfoldable pub call : Cors → Str → Str → RawHeaders → Result Handled
unfolding respond_or_call Headers.get Headers.contains
call c type method headers =
    if type == codes "http"
    then (do
      origin ← Headers.get headers (codes "origin")
      asks_method ← Headers.contains headers (codes "access-control-request-method")
      respond_or_call c headers method origin asks_method)
    else ok app_called
