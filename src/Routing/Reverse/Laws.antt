-- ===== src/Routing/Reverse/Laws.antt =====
-- Which route `url_path_for` of a router takes.
use starlette.Prelude.{◌≡◌, ◌↔◌, refl, ap, List, [], ◌∷◌, ◌++◌, All, arith}
use starlette.Prelude.Text.{Str}
use starlette.Prelude.Dict.{Dict}
use starlette.Prelude.Result.{Result, ok, raise, no_match_found}
use starlette.Convertors.{Value, Objects}
use starlette.Routing.Routes.{BaseRoute, Routes, nil, cons}
use starlette.Routing.Reverse.{UrlPath, url_path_for, routes_url, or_next}

module _ {O : Type 0} (lib : Objects O) (name : Str) (params : Dict Str (Value O)) where
  abbrev pub to_list : Routes O → List (BaseRoute O)
  to_list nil = []
  to_list (cons r rs) = r ∷ to_list rs

  abbrev pub FindsNone : BaseRoute O → Type 0
  FindsNone r = url_path_for lib r name params ≡ raise no_match_found

  -- a route of the list gives the URL, and none before it finds a match
  abbrev pub IsFirst : List (BaseRoute O) → UrlPath → Type 0
  IsFirst rs url =
      (before : List (BaseRoute O)) × (r : BaseRoute O) × (after : List (BaseRoute O)) × (rs
        ≡ before ++ r ∷ after)
      × All FindsNone before
      × (url_path_for lib r name params ≡ ok url)

  IsFirst-cons :
      (r : BaseRoute O) (rs : List (BaseRoute O)) (url : UrlPath)
      → FindsNone r
      → IsFirst rs url
      → IsFirst (r ∷ rs) url
  IsFirst-cons r rs url n (before, q, after, e, a, u) =
      (r ∷ before, q, after, ap (λ s. r ∷ s) e, (n, a), u)

  answering_route :
      (rs : Routes O) (url : UrlPath)
      → routes_url lib rs name params ≡ ok url
      → IsFirst (to_list rs) url
  unfolding routes_url or_next
  answering_route nil url e = cc
  answering_route (cons r rs) url e =
      by_answer (url_path_for lib r name params) refl (answering_route rs url) e
    where
      by_answer :
          (found : Result UrlPath)
          → url_path_for lib r name params ≡ found
          → (routes_url lib rs name params ≡ ok url → IsFirst (to_list rs) url)
          → or_next found (routes_url lib rs name params) ≡ ok url
          → IsFirst (r ∷ to_list rs) url
      by_answer (ok u) h ih k = ([], r, to_list rs, refl, tt, ground arith)
      by_answer (raise no_match_found) h ih k = IsFirst-cons r (to_list rs) url h (ih k)
      by_answer (raise x) h ih k = cc

  IsFirst-found :
      (rs : Routes O) (url : UrlPath)
      → IsFirst (to_list rs) url
      → routes_url lib rs name params ≡ ok url
  unfolding routes_url or_next
  IsFirst-found nil url ([], r, after, e, a, u) = cc
  IsFirst-found nil url (b ∷ before, r, after, e, a, u) = cc
  IsFirst-found (cons q rs) url ([], r, after, e, a, u) =
      let same : q ≡ r = cc in
      let found : url_path_for lib q name params ≡ ok url = rw same u in rw found refl
  IsFirst-found (cons q rs) url (b ∷ before, r, after, e, (n, a), u) =
      let same : q ≡ b = cc in
      let none_here : FindsNone q = rw same n in
      rw none_here (IsFirst-found rs url (before, r, after, cc, a, u))

  none_found :
      (rs : Routes O)
      → routes_url lib rs name params ≡ raise no_match_found
      → All FindsNone (to_list rs)
  unfolding routes_url or_next
  none_found nil e = tt
  none_found (cons r rs) e = by_answer (url_path_for lib r name params) refl (none_found rs) e
    where
      by_answer :
          (found : Result UrlPath)
          → url_path_for lib r name params ≡ found
          → (routes_url lib rs name params ≡ raise no_match_found → All FindsNone (to_list rs))
          → or_next found (routes_url lib rs name params) ≡ raise no_match_found
          → All FindsNone (r ∷ to_list rs)
      by_answer (ok u) h ih k = cc
      by_answer (raise no_match_found) h ih k = (h, ih k)
      by_answer (raise x) h ih k = cc

  All-none_found :
      (rs : Routes O)
      → All FindsNone (to_list rs)
      → routes_url lib rs name params ≡ raise no_match_found
  unfolding routes_url or_next
  All-none_found nil a = refl
  All-none_found (cons r rs) (n, a) = rw n (All-none_found rs a)

  -- `url_path_for` of a router returns a URL exactly if the routes are some for which
  -- `url_path_for` raises `NoMatchFound`, then one that returns this URL, and then any others; and it
  -- raises `NoMatchFound` exactly if all of its routes do.
  pub routes_url-IsFirst :
      (rs : Routes O) (url : UrlPath)
      → ((routes_url lib rs name params ≡ ok url) ↔ IsFirst (to_list rs) url)
        × ((routes_url lib rs name params ≡ raise no_match_found) ↔ All FindsNone (to_list rs))
  routes_url-IsFirst rs url =
      ((answering_route rs url, IsFirst-found rs url), (none_found rs, All-none_found rs))
