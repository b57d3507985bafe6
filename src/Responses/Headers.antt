-- ===== src/Responses/Headers.antt =====
-- Response.init_headers of starlette/responses.py.
use starlette.Prelude.{
  ℕ, Bool, true, false, not, ◌&&◌, ◌||◌, Option, none, some, List, [], ◌∷◌, ◌++◌, length, ltb, ◌==◌,
  nat_eq, ◌≡◌, refl, arith, if◌then◌else◌, list_beq,
}
use starlette.Prelude.Text.{Str, codes, str_eq, lower, starts_with, has_part}
use starlette.Prelude.Decimal.{show_nat}
use starlette.Prelude.Result.{Result, ok, ◌>>=◌}
use starlette.Datastructures.Headers
use starlette.Datastructures.Headers.{RawHeaders}

-- `not (self.status_code < 200 or self.status_code in (204, 304))`
unfoldable pub may_have_body : ℕ → Bool
may_have_body status_code = not (ltb status_code 200 || (status_code == 204 || status_code == 304))

pub add_content_length : ℕ → Option Str → RawHeaders → RawHeaders
unfolding may_have_body Headers.has_key show_nat
add_content_length status_code none raw = raw
add_content_length status_code (some body) raw =
    if not (Headers.has_key (codes "content-length") raw) && may_have_body status_code
    then raw ++ (codes "content-length", show_nat (length body)) ∷ []
    else raw

-- `"; charset=utf-8"` behind a text type that names no charset
pub with_charset : Str → Str
unfolding starts_with has_part lower
with_charset content_type =
    if starts_with (codes "text/") content_type
      && not (has_part (codes "charset=") (lower content_type))
    then content_type ++ codes "; charset=utf-8"
    else content_type

pub add_content_type : Bool → Option Str → RawHeaders → Result RawHeaders
unfolding with_charset Headers.encode
add_content_type populate none raw = ok raw
add_content_type false (some content_type) raw = ok raw
add_content_type true (some content_type) raw = do
  v ← Headers.encode (with_charset content_type)
  ok (raw ++ (codes "content-type", v) ∷ [])

-- `init_headers`, on the status, the body and the media type of a response and the items of
-- `headers`
unfoldable pub init_headers :
    ℕ → Option Str → Option Str → Option (List (Str × Str)) → Result RawHeaders
unfolding add_content_length add_content_type Headers.from_mapping Headers.has_key
init_headers status_code body media_type headers = do
  raw ← elim headers [ none ↦ ok [] | some items ↦ Headers.from_mapping items ]
  add_content_type (not (Headers.has_key (codes "content-type") raw)) media_type
      (add_content_length status_code body raw)

find-append :
    (k j v : Str) (h : RawHeaders)
    → Headers.find k (h ++ (j, v) ∷ [])
      ≡ elim (Headers.find k h) [ none ↦ (if j == k then some v else none) | some w ↦ some w ]
unfolding Headers.find
find-append k j v [] = refl
find-append k j v ((i, w) ∷ h) = ground (arith, find-append k j v h)

has_key-find :
    (k : Str) (h : RawHeaders)
    → Headers.has_key k h ≡ elim (Headers.find k h) [ none ↦ false | some v ↦ true ]
unfolding Headers.find Headers.has_key
has_key-find k [] = refl
has_key-find k ((i, w) ∷ h) = ground (arith, has_key-find k h)

names_differ : (codes "content-type" == codes "content-length") ≡ false
unfolding list_beq
names_differ = refl

find-add_content_type :
    (populate : Bool) (media_type : Option Str) (raw : RawHeaders) {out : RawHeaders}
    → add_content_type populate media_type raw ≡ ok out
    → Headers.find (codes "content-length") out ≡ Headers.find (codes "content-length") raw
unfolding add_content_type Headers.encode
find-add_content_type populate none raw e = ground arith
find-add_content_type false (some t) raw e = ground arith
find-add_content_type true (some t) raw e = ground (
  arith,
  names_differ,
  find-append (codes "content-length") (codes "content-type") (with_charset t) raw,
)

find-add_content_length :
    (status_code : ℕ) (body : Str) (raw : RawHeaders)
    → Headers.find (codes "content-length") (add_content_length status_code (some body) raw)
      ≡ elim (Headers.find (codes "content-length") raw) [
        | none ↦ (if may_have_body status_code then some (show_nat (length body)) else none)
        | some given ↦ some given
      ]
unfolding add_content_length list_beq
find-add_content_length status_code body raw = ground (
  arith,
  has_key-find (codes "content-length") raw,
  find-append (codes "content-length") (codes "content-length") (show_nat (length body)) raw,
)

-- A response without headers of the caller's has the length of its body as its `content-length`,
-- or none where its status allows no body, whatever its media type.
pub init_headers_lem :
    (status_code : ℕ) (body : Str) (media_type : Option Str) {out : RawHeaders}
    → init_headers status_code (some body) media_type none ≡ ok out
    → Headers.find (codes "content-length") out
      ≡ (if may_have_body status_code then some (show_nat (length body)) else none)
unfolding init_headers Headers.find
init_headers_lem status_code body media_type e = ground (
  arith,
  find-add_content_type true media_type (add_content_length status_code (some body) []) e,
  find-add_content_length status_code body [],
)
