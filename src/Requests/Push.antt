-- ===== src/Requests/Push.antt =====
-- What `Request.send_push_promise` copies.
use starlette.Prelude.{
  ◌≡◌, refl, true, false, some, List, [], ◌∷◌, ◌++◌, ◌==◌, if◌then◌else◌, contains, list_beq, arith,
  ==_iff, append-nil,
}
use starlette.Prelude.Text.{Str, str_eq, lower, lower_code}
use starlette.Prelude.Result.{ok}
use starlette.Datastructures.Headers
use starlette.Datastructures.Headers.{RawHeaders, values_at}
use starlette.Requests.{with_name, copied_headers, server_push_headers_to_copy, send_push_promise}

-- the names stand once, in lower case and latin-1
abbrev AreNames : List Str → Type 0
AreNames [] = Unit
AreNames (name ∷ names) =
    (Headers.header_key name ≡ ok name) × ((contains names name ≡ false) × AreNames names)

values_at-with_name :
    (k name : Str) (values : List Str) (rest : RawHeaders)
    → values_at k (with_name name values ++ rest)
      ≡ (if name == k then values ++ values_at k rest else values_at k rest)
unfolding values_at with_name
values_at-with_name k name [] rest = ground arith
values_at-with_name k name (v ∷ values) rest =
    ground (arith, values_at-with_name k name values rest)

-- the headers have for each of the names its values, and for no other name any
abbrev pub Copies : List Str → RawHeaders → RawHeaders → Type 0
Copies names headers copied =
    (k : Str) → values_at k copied ≡ (if contains names k then values_at k headers else [])

copied_headers-Copies :
    (names : List Str) (headers : RawHeaders)
    → AreNames names
    → (copied : RawHeaders) × (copied_headers names headers ≡ ok copied)
      × Copies names headers copied
unfolding copied_headers values_at contains Headers.getlist
copied_headers-Copies [] headers h = ([], refl, λ k. refl)
copied_headers-Copies (name ∷ names) headers (n, (d, h)) =
    let (rest, e, c) = copied_headers-Copies names headers h in
    (
      with_name name (values_at name headers) ++ rest,
      rw (n, e) refl,
      λ k. ground (
        arith,
        c k,
        values_at-with_name k name (values_at name headers) rest,
        append-nil (values_at k headers),
        ==_iff name k,
        d,
      ),
    )

pushed_names : AreNames server_push_headers_to_copy
unfolding server_push_headers_to_copy Headers.header_key Headers.encode Headers.is_latin1 lower
    lower_code list_beq contains
pushed_names = (refl, (refl, (refl, (refl, (refl, (refl, (refl, (refl, (refl, (refl, tt))))))))))

-- Where the server takes them, a push message names the path, and has of the request's headers for
-- `accept`, `accept-encoding`, `accept-language`, `cache-control` and `user-agent` all values, in
-- their order, and no other header.
pub send_push_promise-Copies :
    (headers : RawHeaders) (path : Str)
    → (copied : RawHeaders) × (send_push_promise true headers path ≡ ok (some (path, copied)))
      × Copies server_push_headers_to_copy headers copied
unfolding send_push_promise server_push_headers_to_copy
send_push_promise-Copies headers path =
    let (copied, e, c) = copied_headers-Copies server_push_headers_to_copy headers pushed_names in
    (copied, rw e refl, c)
