-- ===== src/StaticFiles/Cached.antt =====
-- `is_not_modified`, `NotModifiedResponse` and `file_response` of starlette/staticfiles.py.
--
-- `parsedate` is that of email.utils; its times are compared as numbers. The headers of the response
-- are those that the constructor of `FileResponse` set.
use starlette.Prelude.{
  ℕ, ◌≡◌, refl, ap, ◌∙◌, Bool, true, false, Option, none, some, List, [], ◌∷◌, ◌++◌, map, contains,
  leb, nat_eq, if◌then◌else◌, ==_iff, arith,
}
use starlette.Prelude.Text.{Str, codes, str_eq, split}
use starlette.Prelude.Dict.{insert_all}
use starlette.Requests.Cookies.{split-plain}
use starlette.Datastructures.Headers.{RawHeaders, find}
use mathlib.Core.List.{reverse}

-- the names to keep
unfoldable pub not_modified_headers : List Str
not_modified_headers =
    codes "cache-control"
    ∷ codes "content-location"
    ∷ codes "date"
    ∷ codes "etag"
    ∷ codes "expires"
    ∷ codes "vary"
    ∷ []

unfoldable pub kept_headers : RawHeaders → RawHeaders
unfolding not_modified_headers contains
kept_headers [] = []
kept_headers ((name, value) ∷ headers) =
    if contains not_modified_headers name
    then (name, value) ∷ kept_headers headers
    else kept_headers headers

-- the headers that `NotModifiedResponse` is given: one for a name, with its last value
unfoldable pub not_modified_response : RawHeaders → RawHeaders
unfolding kept_headers insert_all
not_modified_response headers = insert_all (kept_headers headers) []

unfoldable pub skip_chars : List ℕ → Str → Str
unfolding contains
skip_chars cs [] = []
skip_chars cs (c ∷ s) = if contains cs c then skip_chars cs s else c ∷ s

-- `s.strip(cs)`
unfoldable pub strip_chars : List ℕ → Str → Str
unfolding skip_chars
strip_chars cs s = reverse (skip_chars cs (reverse (skip_chars cs s)))

-- the first `try`: a tag of `if-none-match` is that of the response
unfoldable pub tag_matches : RawHeaders → RawHeaders → Bool
unfolding find split strip_chars contains
tag_matches response_headers request_headers = elim (find (codes "if-none-match") request_headers) [
  | none ↦ false
  | some if_none_match ↦ elim (find (codes "etag") response_headers) [
    | none ↦ false
    | some etag ↦ contains (map (strip_chars (codes " W/")) (split b',' if_none_match)) etag
  ]
]

module _ (parsedate : Str → Option ℕ) where
  -- the second: the file is not newer than the date
  unfoldable pub date_matches : RawHeaders → RawHeaders → Bool
  unfolding find
  date_matches response_headers request_headers =
      elim (find (codes "if-modified-since") request_headers) [
        | none ↦ false
        | some since ↦ elim (find (codes "last-modified") response_headers) [
          | none ↦ false
          | some modified ↦ elim (parsedate since) [
            | none ↦ false
            | some if_modified_since ↦ elim (parsedate modified) [
              | none ↦ false
              | some last_modified ↦ leb last_modified if_modified_since
            ]
          ]
        ]
      ]

  unfoldable pub is_not_modified : RawHeaders → RawHeaders → Bool
  unfolding tag_matches date_matches
  is_not_modified response_headers request_headers =
      if tag_matches response_headers request_headers
      then true
      else date_matches response_headers request_headers

strip_weak :
    (etag : Str) → strip_chars (codes " W/") (codes "W/" ++ etag) ≡ strip_chars (codes " W/") etag
unfolding strip_chars skip_chars contains
strip_weak etag = refl

-- A request that names the tag of the response, as a strong one or a weak one, finds it not
-- modified, whatever its dates are: where the tag has no comma, and no space, `W` or slash at its
-- ends.
is_not_modified-etag :
    (parsedate : Str → Option ℕ) (response_headers request_headers : RawHeaders) (etag : Str)
    (weak : Bool)
    → find (codes "etag") response_headers ≡ some etag
    → strip_chars (codes " W/") etag ≡ etag
    → contains etag b',' ≡ false
    → find (codes "if-none-match") request_headers
      ≡ some (if weak then codes "W/" ++ etag else etag)
    → is_not_modified parsedate response_headers request_headers ≡ true
unfolding is_not_modified tag_matches contains
is_not_modified-etag parsedate response_headers request_headers etag weak e s c r =
    rw (matched weak r) refl
  where
    tags : Bool → List Str
    tags b = map (strip_chars (codes " W/")) (split b',' (if b then codes "W/" ++ etag else etag))

    listed : (b : Bool) → tags b ≡ etag ∷ []
    listed true =
        ap (map (strip_chars (codes " W/"))) (split-plain b',' (codes "W/" ++ etag) c)
        ∙ ap (λ t. t ∷ []) (strip_weak etag ∙ s)
    listed false =
        ap (map (strip_chars (codes " W/"))) (split-plain b',' etag c) ∙ ap (λ t. t ∷ []) s

    matched :
        (b : Bool)
        → find (codes "if-none-match") request_headers
          ≡ some (if b then codes "W/" ++ etag else etag)
        → tag_matches response_headers request_headers ≡ true
    matched b r = ground (arith, r, e, listed b, ==_iff etag etag)
