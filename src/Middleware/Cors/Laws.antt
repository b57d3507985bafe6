-- ===== src/Middleware/Cors/Laws.antt =====
-- What CORSMiddleware lets through, and what it says of the origin.
use starlette.Prelude.{
  Bool, true, false, not, ◌&&◌, ◌||◌, Option, none, some, List, [], ◌∷◌, ◌++◌, ◌≡◌, refl, ◌∙◌, ap,
  arith, contains, ◌==◌, nat_eq, ==_refl, if◌then◌else◌, Bool-cases, inl, inr, list_beq,
}
use starlette.Prelude.Text.{Str, codes, str_eq, join}
use starlette.Prelude.Decimal.{show_nat}
use starlette.Prelude.Dict.{Dict, insert, lookup, lookup-insert}
use starlette.Prelude.Result.{ok}
use starlette.Datastructures.Headers
use starlette.Datastructures.Headers.{RawHeaders, find, header_key, getlist}
use starlette.Middleware.Cors.{
  Options, Cors, PlainText, init, insert_if, preflight_headers_of, preflight_response, failures,
  header_failures, answer, is_allowed_origin, headers_allowed, mirrored, is_filled, all_methods,
  sorted_set, safelisted_headers,
}

-- the policy allows the request: its origin, its method and each header that it names
abbrev pub allows : Cors → Str → Str → Option Str → Bool
allows c origin method requested =
    is_allowed_origin c origin
    && contains c.allow_methods method
    && elim requested [ none ↦ true | some names ↦ c.allow_all_headers || headers_allowed c names ]

abbrev allow_origin : Str
allow_origin = codes "Access-Control-Allow-Origin"

lookup-insert_if :
    (test : Bool) (k j v : Str) (d : Dict Str Str)
    → lookup j (insert_if test k v d) ≡ (if test && (k == j) then some v else lookup j d)
unfolding insert_if
lookup-insert_if true k j v d = lookup-insert k j v d
lookup-insert_if false k j v d = refl

failures-status :
    (c : Cors) (origin method : Str) (requested : Option Str) (headers : Dict Str Str)
    → (answer (failures c origin method requested) headers).status
      ≡ (if allows c origin method requested then 200 else 400)
unfolding failures answer header_failures
failures-status c origin method none headers = ground arith
failures-status c origin method (some names) headers = ground arith

answer-headers : (fs : List Str) (headers : Dict Str Str) → (answer fs headers).headers ≡ headers
unfolding answer
answer-headers [] headers = refl
answer-headers (f ∷ fs) headers = refl

lookup-insert_other :
    (test : Bool) (k j v : Str) (d : Dict Str Str)
    → (k == j) ≡ false
    → lookup j (insert_if test k v d) ≡ lookup j d
unfolding insert_if
lookup-insert_other true k j v d e = lookup-insert k j v d ∙ rw e refl
lookup-insert_other false k j v d e = refl

-- the names of the other headers of the middleware are not that of the origin
other_names :
    ((codes "Access-Control-Allow-Headers" == allow_origin) ≡ false)
    × ((codes "Access-Control-Allow-Credentials" == allow_origin) ≡ false)
    × ((codes "Access-Control-Max-Age" == allow_origin) ≡ false)
    × ((codes "Access-Control-Allow-Methods" == allow_origin) ≡ false)
unfolding list_beq
other_names = (refl, refl, refl, refl)

lookup-mirrored :
    (c : Cors) (requested : Option Str) (headers : Dict Str Str)
    → lookup allow_origin (mirrored c requested headers) ≡ lookup allow_origin headers
unfolding mirrored
lookup-mirrored c none headers = refl
lookup-mirrored c (some names) headers = elim (Bool-cases c.allow_all_headers) [
  | inl every ↦ rw every (
      lookup-insert (codes "Access-Control-Allow-Headers") allow_origin names headers
      ∙ rw other_names.0 refl)
  | inr listed ↦ rw listed refl
]

lookup-preflight_headers_of :
    (o : Options) (methods headers : List Str)
    → lookup allow_origin (preflight_headers_of o methods headers) ≡ (
        if not (contains o.allow_origins (codes "*")) || o.allow_credentials
        then none
        else some (codes "*"))
unfolding preflight_headers_of lookup list_beq
lookup-preflight_headers_of o methods headers =
    let (of_headers, of_credentials, of_age, of_methods) = other_names in
    let first : Dict Str Str =
      if not (contains o.allow_origins (codes "*")) || o.allow_credentials
      then (codes "Vary", codes "Origin") ∷ []
      else (codes "Access-Control-Allow-Origin", codes "*") ∷ [] in
    let methods_added : Dict Str Str =
      insert (codes "Access-Control-Allow-Methods") (join (codes ", ") methods) first in
    let age_added : Dict Str Str =
      insert (codes "Access-Control-Max-Age") (show_nat o.max_age) methods_added in
    let headers_test : Bool = is_filled headers && not (contains o.allow_headers (codes "*")) in
    let headers_added : Dict Str Str =
      insert_if headers_test (codes "Access-Control-Allow-Headers") (join (codes ", ") headers)
        age_added in
    lookup-insert_other o.allow_credentials (codes "Access-Control-Allow-Credentials") allow_origin
      (codes "true") headers_added of_credentials
    ∙ lookup-insert_other headers_test (codes "Access-Control-Allow-Headers") allow_origin
        (join (codes ", ") headers) age_added of_headers
    ∙ lookup-insert (codes "Access-Control-Max-Age") allow_origin (show_nat o.max_age) methods_added
    ∙ lookup-insert (codes "Access-Control-Allow-Methods") allow_origin (join (codes ", ") methods)
        first
    ∙ by_case (not (contains o.allow_origins (codes "*")) || o.allow_credentials)
  where
    by_case :
        (explicit : Bool)
        → lookup allow_origin (
            if explicit
            then (codes "Vary", codes "Origin") ∷ []
            else (codes "Access-Control-Allow-Origin", codes "*") ∷ [])
          ≡ (if explicit then none else some (codes "*"))
    by_case true = refl
    by_case false = refl

named_origin :
    (o : Options) (origin : Str) (fs : List Str) (requested : Option Str)
    → lookup allow_origin
        (answer fs (
          mirrored (init o) requested (
            insert_if
              (is_allowed_origin (init o) origin && (init o).preflight_explicit_allow_origin)
              allow_origin
              origin
              (init o).preflight_headers))).headers
      ≡ (if not (contains o.allow_origins (codes "*")) || o.allow_credentials
          then (if is_allowed_origin (init o) origin then some origin else none)
          else some (codes "*"))
unfolding init
named_origin o origin fs requested =
    let given : Dict Str Str =
      insert_if (is_allowed_origin (init o) origin && (init o).preflight_explicit_allow_origin)
        allow_origin origin (init o).preflight_headers in
    ap (λ d. lookup allow_origin d) (answer-headers fs (mirrored (init o) requested given))
    ∙ lookup-mirrored (init o) requested given
    ∙ lookup-insert_if
        (is_allowed_origin (init o) origin && (init o).preflight_explicit_allow_origin) allow_origin
        allow_origin origin (init o).preflight_headers
    ∙ rw
        (
          ==_refl allow_origin,
          lookup-preflight_headers_of o
              (if contains o.allow_methods (codes "*") then all_methods else o.allow_methods)
              (sorted_set (safelisted_headers ++ o.allow_headers)),
        )
        (by_case (is_allowed_origin (init o) origin)
          (not (contains o.allow_origins (codes "*")) || o.allow_credentials))
  where
    by_case :
        (allowed explicit : Bool)
        → (if (allowed && explicit) && true
            then some origin
            else if explicit
            then none
            else some (codes "*"))
          ≡ (if explicit then (if allowed then some origin else none) else some (codes "*"))
    by_case true true = refl
    by_case true false = refl
    by_case false true = refl
    by_case false false = refl

-- To a preflight request with an origin and a method the middleware answers with status 200 where
-- its policy allows the origin, the method and each header asked for, and with status 400
-- otherwise. The answer names the origin only if that is allowed, and `*` only where every origin
-- is allowed without credentials.
pub preflight_response_lem :
    (o : Options) (request : RawHeaders) (origin method : Str)
    → find (codes "origin") request ≡ some origin
    → find (codes "access-control-request-method") request ≡ some method
    → (r : PlainText) × (preflight_response (init o) request ≡ ok r)
      × (r.status ≡ (
          if allows (init o) origin method (find (codes "access-control-request-headers") request)
          then 200
          else 400))
      × (lookup allow_origin r.headers ≡ (
          if not (contains o.allow_origins (codes "*")) || o.allow_credentials
          then (if is_allowed_origin (init o) origin then some origin else none)
          else some (codes "*")))
unfolding preflight_response Headers.getitem Headers.get Headers.or_key_error header_key
    Headers.encode Headers.is_latin1
preflight_response_lem o request origin method eo em =
    let requested : Option Str = find (codes "access-control-request-headers") request in
    (
      answer (failures (init o) origin method requested) (
          mirrored (init o) requested (
            insert_if
              (is_allowed_origin (init o) origin && (init o).preflight_explicit_allow_origin)
              allow_origin origin (init o).preflight_headers)),
      rw (eo, em) refl,
      failures-status (init o) origin method requested _,
      named_origin o origin (failures (init o) origin method requested) requested,
    )
