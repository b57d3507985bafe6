-- ===== src/Routing/Path/Template.antt =====
-- The parameters that `PARAM_REGEX` finds in a template, of starlette/routing.py.
use starlette.Prelude.{
  ℕ, zero, suc, ◌+◌, ◌-◌, ◌≤◌, ◌≡◌, ◌⊎◌, inl, inr, refl, sym, ap, ◌∙◌, subst, Bool, true, not, ◌&&◌,
  none, some, List, [], ◌∷◌, ◌++◌, length, take, drop, append_assoc, append-nil, arith, ◌==◌,
  nat_eq, Bool-cases, Option-cases, take-append-drop, length-take, ==_iff, drop-length_append,
  length-append,
}
use starlette.Prelude.Text.{Str, codes, str_eq, starts_with}
use starlette.Convertors.{run_length}
use starlette.Routing.Path.{
  Param, scan_param, scan_convertor, name_length, is_name_char, Found, find_params,
}
use starlette.Routing.Path.Matching.{starts_with-drop}

-- how a parameter is written: `{name}`, which stands for the convertor `str`, or `{name:convertor}`
abbrev pub IsWritten : Param → Str → Type 0
IsWritten p w =
    (w ≡ b'{' ∷ (p.name ++ b'}' ∷ [])) × (p.convertor ≡ codes "str")
    ⊎ (w ≡ b'{' ∷ (p.name ++ b':' ∷ (p.convertor ++ b'}' ∷ [])))

-- no parameter begins in a text before `rest`
abbrev pub IsFree : Str → Str → Type 0
IsFree [] rest = Unit
IsFree (c ∷ t) rest = (scan_param (c ∷ (t ++ rest)) ≡ none) × IsFree t rest

-- A template is, for each parameter, a text in front of it in which none begins, and the parameter,
-- as it is written; and behind the last one a text in which none begins.
abbrev pub IsTemplate : List Found → Str → Str → Type 0
IsTemplate [] tail path = (path ≡ tail) × IsFree tail []
IsTemplate (f ∷ fs) tail path =
    (w : Str) × (rest : Str) × (path ≡ f.before ++ (w ++ rest))
    × IsFree f.before (w ++ rest)
    × IsWritten f.param w
    × (length w ≡ f.param.size)
    × (scan_param (w ++ rest) ≡ some f.param)
    × IsTemplate fs tail rest

run_length-bound : (p : ℕ → Bool) (s : Str) → run_length p s ≤ length s
unfolding run_length
run_length-bound p [] = ground arith
run_length-bound p (c ∷ s) = ground (arith, run_length-bound p s)

name_length-bound : (s : Str) → name_length s ≤ length s
unfolding name_length
name_length-bound [] = ground arith
name_length-bound (c ∷ s) = ground (arith, run_length-bound is_name_char s)

-- a match of `PARAM_REGEX` and the text behind it
abbrev Scanned : Str → Param → Type 0
Scanned s p = (w : Str) × (rest : Str) × (s ≡ w ++ rest) × IsWritten p w × (length w ≡ p.size)

-- what follows the name, and the text behind it
abbrev Ending : Str → Str → Param → Type 0
Ending name s p =
    (v : Str) × (rest : Str) × (s ≡ v ++ rest)
    × ((v ≡ b'}' ∷ []) × (p.convertor ≡ codes "str") ⊎ (v ≡ b':' ∷ (p.convertor ++ b'}' ∷ [])))
    × (length name + length v + 1 ≡ p.size)
    × (p.name ≡ name)

scan_convertor_lem : (name s : Str) (p : Param) → scan_convertor name s ≡ some p → Ending name s p
unfolding scan_convertor
scan_convertor_lem name [] p e = cc
scan_convertor_lem name (c ∷ s) p e = elim (Bool-cases (c == b'}')) [
  | inl closing ↦
      let found : record { name = name; convertor = codes "str"; size = length name + 2 } ≡ p =
        cc (rw closing at e) in
      subst (λ q. Ending name (c ∷ s) q) found
        (
          b'}' ∷ [],
          s,
          ap (λ d. d ∷ s) ((==_iff c b'}').0 closing),
          inl (refl, refl),
          omega arith,
          refl,
        )
  | inr other ↦ elim (Bool-cases test) [
    | inl colon ↦
        let found : with_convertor ≡ p = cc (rw (other, colon) at e) in
        let is_colon : c ≡ b':' = ground arith in
        let closed : starts_with (codes "}") (drop n s) ≡ true = ground arith in
        let whole : length (take n s) ≡ n = omega (arith, length-take n s, name_length-bound s) in
        subst (λ q. Ending name (c ∷ s) q) found
          (
            b':' ∷ (take n s ++ b'}' ∷ []),
            drop 1 (drop n s),
            (λ i.
                is_colon i
                ∷ (sym (take-append-drop n s)
                      ∙ ap (λ r. take n s ++ r) (starts_with-drop (codes "}") (drop n s) closed)
                      ∙ sym (append_assoc (take n s) (codes "}") (drop 1 (drop n s))))
                    i),
            inr refl,
            omega (arith, whole, length-append (take n s) (b'}' ∷ [])),
            refl,
          )
    | inr further ↦ cc (rw (other, further) at e)
  ]
]
  where
    n : ℕ
    n = name_length s

    test : Bool
    test = (c == b':' && not (n == 0)) && starts_with (codes "}") (drop n s)

    with_convertor : Param
    with_convertor = record { name = name; convertor = take n s; size = length name + n + 3 }

scan_param_lem : (s : Str) (p : Param) → scan_param s ≡ some p → Scanned s p
unfolding scan_param
scan_param_lem [] p e = cc
scan_param_lem (c ∷ s) p e = elim (Bool-cases (c == b'{' && not (name_length s == 0))) [
  | inl opening ↦
      let is_brace : c ≡ b'{' = ground arith in
      let (v, rest, cut, written, size, same) =
        scan_convertor_lem (take (name_length s) s) (drop (name_length s) s) p (rw opening at e) in
      (
        b'{' ∷ (take (name_length s) s ++ v),
        rest,
        (λ i.
            is_brace i
            ∷ (sym (take-append-drop (name_length s) s)
                  ∙ ap (λ r. take (name_length s) s ++ r) cut
                  ∙ sym (append_assoc (take (name_length s) s) v rest))
                i),
        elim written [
          | inl (closing, str) ↦ inl ((λ i. b'{' ∷ (sym same i ++ closing i)), str)
          | inr colon ↦ inr (λ i. b'{' ∷ (sym same i ++ colon i))
        ],
        omega (arith, size, length-append (take (name_length s) s) v),
      )
  | inr other ↦ cc (rw other at e)
]

find_params-drop : (n : ℕ) (gap s : Str) → find_params n gap s ≡ find_params zero gap (drop n s)
unfolding find_params
find_params-drop zero gap s = refl
find_params-drop (suc n) gap [] = refl
find_params-drop (suc n) gap (c ∷ s) = find_params-drop n gap s

found_next : Str → Param → List Found × Str → List Found × Str
found_next gap p r = (record { before = gap; param = p } ∷ r.0, r.1)

IsWritten-length : (p : Param) (w : Str) → IsWritten p w → 1 ≤ length w
IsWritten-length p [] (inl (e, str)) = cc
IsWritten-length p [] (inr e) = cc
IsWritten-length p (c ∷ w) h = omega arith

-- where a parameter begins: the search goes on behind it
find_params-some :
    (gap w rest : Str) (p : Param)
    → IsWritten p w
    → scan_param (w ++ rest) ≡ some p
    → length w ≡ p.size
    → find_params zero gap (w ++ rest) ≡ found_next gap p (find_params zero [] rest)
unfolding find_params found_next
find_params-some gap [] rest p written e size =
    absurd (omega (arith, IsWritten-length p [] written))
find_params-some gap (c ∷ w) rest p written e size =
    let behind : drop (p.size - 1) (w ++ rest) ≡ rest =
      ap (λ n. drop n (w ++ rest)) (omega arith) ∙ drop-length_append w rest in
    rw (e, find_params)
      (ap (found_next gap p)
        (find_params-drop (p.size - 1) [] (w ++ rest) ∙ ap (find_params zero []) behind))

find_params-none :
    (gap s : Str) (c : ℕ)
    → scan_param (c ∷ s) ≡ none
    → find_params zero gap (c ∷ s) ≡ find_params zero (gap ++ c ∷ []) s
unfolding find_params
find_params-none gap s c e = rw (e, find_params) refl

IsFree-snoc :
    (gap s : Str) (c : ℕ)
    → IsFree gap (c ∷ s)
    → scan_param (c ∷ s) ≡ none
    → IsFree (gap ++ c ∷ []) s
IsFree-snoc [] s c f e = (e, tt)
IsFree-snoc (d ∷ gap) s c (here, f) e =
    (ap (λ r. scan_param (d ∷ r)) (append_assoc gap (c ∷ []) s) ∙ here, IsFree-snoc gap s c f e)

abbrev Describes : Str → List Found × Str → Type 0
Describes path r = IsTemplate r.0 r.1 path

find_params-Describes :
    (fuel : ℕ) (gap s : Str)
    → length s ≤ fuel
    → IsFree gap s
    → Describes (gap ++ s) (find_params zero gap s)
unfolding find_params found_next
find_params-Describes fuel gap [] l f = (append-nil gap, f)
find_params-Describes zero gap (c ∷ s) l f = absurd (omega arith)
find_params-Describes (suc fuel) gap (c ∷ s) l f = elim (Option-cases (scan_param (c ∷ s))) [
  | inl missed ↦
      let more =
        find_params-Describes fuel (gap ++ c ∷ []) s (omega arith) (IsFree-snoc gap s c f missed) in
      subst (Describes (gap ++ c ∷ s)) (sym (find_params-none gap s c missed)) (
        subst (λ t. Describes t (find_params zero (gap ++ c ∷ []) s)) (append_assoc gap (c ∷ []) s)
          more)
  | inr (p, here) ↦
      let (w, rest, cut, written, size) = scan_param_lem (c ∷ s) p here in
      let here' : scan_param (w ++ rest) ≡ some p = ap scan_param (sym cut) ∙ here in
      let shorter : length rest ≤ fuel =
        omega (arith, IsWritten-length p w written, ap length cut ∙ length-append w rest) in
      let found : find_params zero gap (c ∷ s) ≡ found_next gap p (find_params zero [] rest) =
        ap (find_params zero gap) cut ∙ find_params-some gap w rest p written here' size in
      subst (Describes (gap ++ c ∷ s)) (sym found) (
        w,
        rest,
        ap (λ r. gap ++ r) cut,
        subst (IsFree gap) cut f,
        written,
        size,
        here',
        find_params-Describes fuel [] rest shorter tt,
      )
]

-- What `finditer` finds in a template describes it.
pub find_params-IsTemplate :
    (path : Str) → IsTemplate (find_params 0 [] path).0 (find_params 0 [] path).1 path
find_params-IsTemplate path = find_params-Describes (length path) [] path (omega arith) tt

find_params-IsFree :
    (gap t rest : Str)
    → IsFree t rest
    → find_params zero gap (t ++ rest) ≡ find_params zero (gap ++ t) rest
find_params-IsFree gap [] rest f = ap (λ g. find_params zero g rest) (sym (append-nil gap))
find_params-IsFree gap (c ∷ t) rest (here, f) =
    find_params-none gap (t ++ rest) c here
    ∙ find_params-IsFree (gap ++ c ∷ []) t rest f
    ∙ ap (λ g. find_params zero g rest) (append_assoc gap (c ∷ []) t)

-- A template can be described in one way only, and that is what `finditer` finds.
pub IsTemplate-find_params :
    (fs : List Found) (tail path : Str)
    → IsTemplate fs tail path
    → find_params 0 [] path ≡ (fs, tail)
unfolding find_params found_next
IsTemplate-find_params [] tail path (e, f) =
    ap (find_params zero []) (e ∙ sym (append-nil tail)) ∙ find_params-IsFree [] tail [] f
IsTemplate-find_params (f ∷ fs) tail path (w, rest, cut, free, written, size, here, t) =
    ap (find_params zero []) cut
    ∙ find_params-IsFree [] f.before (w ++ rest) free
    ∙ find_params-some f.before w rest f.param written here size
    ∙ ap (found_next f.before f.param) (IsTemplate-find_params fs tail rest t)
