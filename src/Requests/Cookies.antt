-- ===== src/Requests/Cookies.antt =====
-- A `Cookie` header that lists cookies is read back as these.
use starlette.Prelude.{
  ℕ, ◌≡◌, refl, ap, ◌∙◌, Bool, true, false, ◌&&◌, ◌||◌, some, List, [], ◌∷◌, ◌++◌, map, ◌==◌,
  nat_eq, if◌then◌else◌, contains, list_beq, All, arith,
}
use starlette.Prelude.Text.{Str, codes, str_eq, before, split, join}
use starlette.Prelude.Dict.{Dict, insert, insert_all}
use starlette.Responses.Range.{strip, split_once, skip_space}
use starlette.Requests.{split_chunk, add_cookie, add_cookies, cookie_parser}

-- neither the name nor the value has a semicolon or space at its ends, the name has no equals sign,
-- and one of them is not empty
pub record IsPlain (cookie : Str × Str) : Type 0 where
  pub name_text : contains cookie.0 b';' ≡ false
  pub name_equals : contains cookie.0 b'=' ≡ false
  pub name_strip : strip cookie.0 ≡ cookie.0
  pub value_text : contains cookie.1 b';' ≡ false
  pub value_strip : strip cookie.1 ≡ cookie.1
  pub nonempty : ((cookie.0 == []) && (cookie.1 == [])) ≡ false

abbrev pub cookie_text : Str × Str → Str
cookie_text cookie = cookie.0 ++ b'=' ∷ cookie.1

-- as a client sends them: `a=1; b=2`
abbrev pub header_text : List (Str × Str) → Str
header_text cookies = join (codes "; ") (map cookie_text cookies)

pub before-append : (c : ℕ) (w rest : Str) → contains w c ≡ false → before c (w ++ c ∷ rest) ≡ w
unfolding before contains
before-append c [] rest h = ground arith
before-append c (d ∷ w) rest h = ground (arith, before-append c w rest)

pub split-plain : (c : ℕ) (w : Str) → contains w c ≡ false → split c w ≡ w ∷ []
unfolding split contains
split-plain c [] h = refl
split-plain c (d ∷ w) h = ground (arith, split-plain c w)

split-append :
    (c : ℕ) (w rest : Str) → contains w c ≡ false → split c (w ++ c ∷ rest) ≡ w ∷ split c rest
unfolding split contains
split-append c [] rest h = ground arith
split-append c (d ∷ w) rest h = ground (arith, split-append c w rest)

split_once-append :
    (c : ℕ) (w rest : Str) → contains w c ≡ false → split_once c (w ++ c ∷ rest) ≡ some (w, rest)
unfolding split_once contains
split_once-append c [] rest h = ground arith
split_once-append c (d ∷ w) rest h = ground (arith, split_once-append c w rest)

contains-append : (v w : Str) (c : ℕ) → contains (v ++ w) c ≡ (contains v c || contains w c)
unfolding contains
contains-append [] w c = refl
contains-append (d ∷ v) w c = ground (arith, contains-append v w c)

-- a chunk, which follows the space behind a semicolon
chunk_of : Bool → Str × Str → Str
chunk_of first cookie = if first then cookie_text cookie else b' ' ∷ cookie_text cookie

pub text_lem : (c : Str × Str) → IsPlain c → contains (cookie_text c) b';' ≡ false
unfolding contains
text_lem c p = ground (arith, contains-append c.0 (b'=' ∷ c.1) b';', p.name_text, p.value_text)

split-header_text :
    (first : Bool) (c : Str × Str) (cookies : List (Str × Str))
    → All IsPlain (c ∷ cookies)
    → split b';' (if first then header_text (c ∷ cookies) else b' ' ∷ header_text (c ∷ cookies))
      ≡ chunk_of first c ∷ map (chunk_of false) cookies
unfolding chunk_of contains join
split-header_text true c [] (p, h) = split-plain b';' (cookie_text c) (text_lem c p)
split-header_text false c [] (p, h) = split-plain b';' (b' ' ∷ cookie_text c) (text_lem c p)
split-header_text true c (d ∷ cs) (p, h) =
    split-append b';' (cookie_text c) (b' ' ∷ header_text (d ∷ cs)) (text_lem c p)
    ∙ ap (λ r. cookie_text c ∷ r) (split-header_text false d cs h)
split-header_text false c (d ∷ cs) (p, h) =
    split-append b';' (b' ' ∷ cookie_text c) (b' ' ∷ header_text (d ∷ cs)) (text_lem c p)
    ∙ ap (λ r. (b' ' ∷ cookie_text c) ∷ r) (split-header_text false d cs h)

module _ (unquote : Str → Str) where
  stripped :
      (c : Str × Str) (chunk : Str) (cookie_dict : Dict Str Str)
      → IsPlain c
      → (strip (split_chunk chunk).0 ≡ c.0) × (strip (split_chunk chunk).1 ≡ c.1)
      → add_cookie unquote chunk cookie_dict ≡ insert c.0 (unquote c.1) cookie_dict
  unfolding add_cookie contains
  stripped c chunk d p (k, v) = rw (k, v) ground (arith, p.nonempty)

  add_cookie-chunk_of :
      (first : Bool) (c : Str × Str) (cookie_dict : Dict Str Str)
      → IsPlain c
      → add_cookie unquote (chunk_of first c) cookie_dict ≡ insert c.0 (unquote c.1) cookie_dict
  unfolding chunk_of strip contains split_chunk
  add_cookie-chunk_of true c d p =
      stripped c (cookie_text c) d p (
        rw (split_chunk, split_once-append b'=' c.0 c.1 p.name_equals)
          (p.name_strip, p.value_strip))
  add_cookie-chunk_of false c d p = stripped c (b' ' ∷ cookie_text c) d p (
      rw (split_chunk, split_once-append b'=' (b' ' ∷ c.0) c.1 p.name_equals)
        (space ∙ p.name_strip, p.value_strip))
    where
      space : strip (b' ' ∷ c.0) ≡ strip c.0
      space = refl

  add_cookies-chunks :
      (cookies : List (Str × Str)) (cookie_dict : Dict Str Str)
      → All IsPlain cookies
      → add_cookies unquote (map (chunk_of false) cookies) cookie_dict
        ≡ insert_all (map (λ c. (c.0, unquote c.1)) cookies) cookie_dict
  unfolding add_cookies insert_all
  add_cookies-chunks [] d h = refl
  add_cookies-chunks (c ∷ cs) d (p, h) =
      ap (add_cookies unquote (map (chunk_of false) cs)) (add_cookie-chunk_of false c d p)
      ∙ add_cookies-chunks cs (insert c.0 (unquote c.1) d) h

  -- A `Cookie` header that lists plain cookies, with a semicolon and a space between them, is read
  -- as a dictionary of these in their order: of several with one name the last is kept, and each
  -- value is unquoted.
  pub cookie_parser-header_text :
      (cookies : List (Str × Str))
      → All IsPlain cookies
      → cookie_parser unquote (header_text cookies)
        ≡ insert_all (map (λ c. (c.0, unquote c.1)) cookies) []
  unfolding cookie_parser add_cookies insert_all add_cookie split split_chunk split_once strip
      skip_space list_beq contains join
  cookie_parser-header_text [] h = refl
  cookie_parser-header_text (c ∷ cs) (p, h) =
      ap (λ chunks. add_cookies unquote chunks []) (split-header_text true c cs (p, h))
      ∙ ap (add_cookies unquote (map (chunk_of false) cs)) (add_cookie-chunk_of true c [] p)
      ∙ add_cookies-chunks cs (insert c.0 (unquote c.1) []) h
