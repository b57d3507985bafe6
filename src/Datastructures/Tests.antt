-- ===== src/Datastructures/Tests.antt =====
-- Runs of the classes of starlette/datastructures.py on concrete data.
use starlette.Prelude.{◌≡◌, refl, List, [], ◌∷◌, ◌==◌, nat_eq, if◌then◌else◌, list_beq, ℕ}
use starlette.Prelude.Text.{codes, str_eq, lower}
use starlette.Prelude.Dict.{insert_all, insert}
use starlette.Prelude.Result.{ok, ◌>>=◌}
use starlette.Datastructures.Headers
use starlette.Datastructures.Headers.{RawHeaders, header_key, encode, is_latin1}
use starlette.Datastructures.Headers.Reference
use starlette.Datastructures.Headers.Laws.{setitem-replaced, getlist-setitem}
use starlette.Datastructures.MultiDict.{MultiDict, pairs, init, getlist}
use starlette.Datastructures.MultiDict.Invariant.{
  IsConsistent, do_append, do_popitem, calls, calls-init,
}

abbrev cookies : RawHeaders
cookies =
    (codes "set-cookie", codes "a=1")
    ∷ (codes "vary", codes "Accept")
    ∷ (codes "set-cookie", codes "b=2")
    ∷ (codes "vary", codes "Cookie")
    ∷ []

setitem-replaced_example : Headers.setitem cookies (codes "Set-Cookie") (codes "c=3") ≡ (do
  k ← header_key (codes "Set-Cookie")
  v ← encode (codes "c=3")
  ok (Reference.replaced k v cookies))
setitem-replaced_example = setitem-replaced cookies (codes "Set-Cookie") (codes "c=3")

abbrev one_cookie : RawHeaders
one_cookie =
    (codes "set-cookie", codes "c=3")
    ∷ (codes "vary", codes "Accept")
    ∷ (codes "vary", codes "Cookie")
    ∷ []

getlist-setitem_example : Headers.getlist one_cookie (codes "VARY") ≡ (
    if codes "vary" == codes "set-cookie"
    then ok (codes "c=3" ∷ [])
    else Headers.getlist cookies (codes "VARY"))
unfolding Headers.setitem header_key encode is_latin1 lower list_beq
getlist-setitem_example =
    getlist-setitem cookies (codes "Set-Cookie") (codes "c=3") (codes "VARY") (codes "set-cookie")
      (codes "vary") {h' = one_cookie} refl refl refl

abbrev no_cookie : RawHeaders
no_cookie = (codes "vary", codes "Accept") ∷ (codes "vary", codes "Cookie") ∷ []

abbrev one_vary : RawHeaders
one_vary = (codes "vary", codes "Accept, Origin") ∷ []

abbrev entries : List (ℕ × ℕ)
entries = (1, 10) ∷ (2, 20) ∷ (1, 11) ∷ []

abbrev one : ℕ
one = 1

abbrev two : ℕ
two = 2

abbrev more : MultiDict ℕ ℕ
more = init (pairs ((2, 22) ∷ [])) []

abbrev form : MultiDict ℕ ℕ
form = init (pairs entries) []

calls-init_example : IsConsistent (calls (do_append 2 21 ∷ do_popitem ∷ []) form)
calls-init_example = calls-init (pairs entries) [] (do_append 2 21 ∷ do_popitem ∷ [])

all_values : getlist form 1 ≡ 10 ∷ 11 ∷ []
unfolding getlist init insert_all insert
all_values = refl
