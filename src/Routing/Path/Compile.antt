-- ===== src/Routing/Path/Compile.antt =====
-- What the regular expression of `compile_path` matches, in starlette/routing.py.
use starlette.Prelude.{
  ℕ, ◌≤◌, ◌≡◌, refl, sym, ap, ◌∙◌, subst, Bool, true, false, not, some, List, [], ◌∷◌, ◌++◌, length,
  append_assoc, append-nil, All, Elem, arith, if◌then◌else◌, ◌==◌, Bool-cases, Option-cases, ◌||◌,
  inl, inr, ==_iff,
}
use starlette.Prelude.Text.{Str, codes, str_eq, starts_with, before}
use starlette.Prelude.Dict.{Dict, lookup, insert, is_some, lookup-insert}
use starlette.Prelude.Result.{ok, value_error, ensure, ◌>>◌, >>=-eq-ok}
use starlette.Convertors.{Convertor}
use starlette.Routing.Path.{
  Found, find_params, Part, literal, group, Compiled, Compiling, placeholder, Groups, at_end,
  add_params, compile_path, match_parts,
}
use starlette.Routing.Path.Template.{IsTemplate, find_params-IsTemplate}
use starlette.Routing.Path.Matching.{IsMatch, IsBounded, match_parts-IsMatch}

module _ {O : Type 0} (types : Dict Str (Convertor O)) where
  -- no convertor takes more than there is
  abbrev pub AreBounded : Type 0
  AreBounded =
      All (λ (t : Str × Convertor O). (s : Str) (n : ℕ) → Elem n (t.1.prefixes s) → n ≤ length s)
        types

  -- The text is, for each parameter of the template, the text in front of it and a value, which the
  -- convertor that the parameter names can take there and which stands under the parameter's name;
  -- then the tail; and then nothing or a line feed. `convertors` has that convertor for that name.
  abbrev pub Fits : Dict Str (Convertor O) → List Found → Str → Str → Groups → Type 0
  Fits convertors [] tail s [] = (rest : Str) × (s ≡ tail ++ rest) × (at_end rest ≡ true)
  Fits convertors [] tail s (g ∷ gs) = ⊥
  Fits convertors (f ∷ fs) tail s [] = ⊥
  Fits convertors (f ∷ fs) tail s ((key, w) ∷ gs) =
      (rest : Str) × (c : Convertor O) × (s ≡ f.before ++ (w ++ rest))
      × (key ≡ f.param.name)
      × (lookup f.param.convertor types ≡ some c)
      × (lookup key convertors ≡ some c)
      × Elem (length w) (c.prefixes (w ++ rest))
      × Fits convertors fs tail rest gs

  parts_of : List Found → List (Convertor O) → List (Part O)
  parts_of [] cs = []
  parts_of (f ∷ fs) [] = []
  parts_of (f ∷ fs) (c ∷ cs) = literal f.before ∷ group f.param.name c ∷ parts_of fs cs

  abbrev Typed : Dict Str (Convertor O) → List Found → List (Convertor O) → Type 0
  Typed convertors [] [] = Unit
  Typed convertors [] (c ∷ cs) = ⊥
  Typed convertors (f ∷ fs) [] = ⊥
  Typed convertors (f ∷ fs) (c ∷ cs) =
      (lookup f.param.convertor types ≡ some c)
      × (lookup f.param.name convertors ≡ some c)
      × Typed convertors fs cs

  -- one turn of the loop
  abbrev added : Found → Convertor O → Compiling O → Compiling O
  added f convertor st = record {
    regex = st.regex ++ literal f.before ∷ group f.param.name convertor ∷ [];
    format = st.format ++ (f.before ++ placeholder f.param.name);
    convertors = insert f.param.name convertor st.convertors;
    duplicated = st.duplicated || is_some (lookup f.param.name st.convertors);
  }

  add_params-cons :
      (f : Found) (fs : List Found) (st st' : Compiling O)
      → add_params types (f ∷ fs) st ≡ ok st'
      → (c : Convertor O) × (lookup f.param.convertor types ≡ some c)
        × (add_params types fs (added f c st) ≡ ok st')
  unfolding add_params
  add_params-cons f fs st st' e = elim (Option-cases (lookup f.param.convertor types)) [
    | inl missing ↦ cc (rw (missing, add_params) at e)
    | inr (c, here) ↦ (c, here, rw (here, add_params) at e)
  ]

  duplicated-kept :
      (fs : List Found) (st st' : Compiling O)
      → add_params types fs st ≡ ok st'
      → st'.duplicated ≡ false
      → st.duplicated ≡ false
  unfolding add_params
  duplicated-kept [] st st' e d = ground (arith, e)
  duplicated-kept (f ∷ fs) st st' e d =
      let (c, here, later) = add_params-cons f fs st st' e in
      let before_it = duplicated-kept fs (added f c st) st' later d in ground arith

  -- a name keeps its convertor, since a second one of that name is an error
  convertor-kept :
      (fs : List Found) (st st' : Compiling O) (k : Str) (c : Convertor O)
      → add_params types fs st ≡ ok st'
      → st'.duplicated ≡ false
      → lookup k st.convertors ≡ some c
      → lookup k st'.convertors ≡ some c
  unfolding add_params
  convertor-kept [] st st' k c e d l = ground (arith, e, l)
  convertor-kept (f ∷ fs) st st' k c e d l =
      let (c', here, later) = add_params-cons f fs st st' e in
      let once = duplicated-kept fs (added f c' st) st' later d in
      convertor-kept fs (added f c' st) st' k c later d (
        ground
          (arith, once, l, lookup-insert f.param.name k c' st.convertors, ==_iff f.param.name k))

  add_params-Typed :
      (fs : List Found) (st st' : Compiling O)
      → add_params types fs st ≡ ok st'
      → st'.duplicated ≡ false
      → (cs : List (Convertor O)) × (st'.regex ≡ st.regex ++ parts_of fs cs)
        × Typed st'.convertors fs cs
  unfolding add_params parts_of
  add_params-Typed [] st st' e d = ([], ground (arith, e, append-nil st.regex), tt)
  add_params-Typed (f ∷ fs) st st' e d =
      let (c, here, later) = add_params-cons f fs st st' e in
      let (cs, regex, typed) = add_params-Typed fs (added f c st) st' later d in
      (
        c ∷ cs,
        regex
            ∙ append_assoc st.regex (literal f.before ∷ group f.param.name c ∷ []) (parts_of fs cs),
        (
          here,
          convertor-kept fs (added f c st) st' f.param.name c later d (
              ground (
                arith,
                lookup-insert f.param.name f.param.name c st.convertors,
                ==_iff f.param.name f.param.name,
              )),
          typed,
        ),
      )

  lookup-bounded :
      (ts : Dict Str (Convertor O)) (k : Str) (c : Convertor O)
      → All
          (λ (t : Str × Convertor O). (s : Str) (n : ℕ) → Elem n (t.1.prefixes s) → n ≤ length s)
          ts
      → lookup k ts ≡ some c
      → (s : Str) (n : ℕ) → Elem n (c.prefixes s)
      → n ≤ length s
  unfolding lookup
  lookup-bounded [] k c b e = cc
  lookup-bounded ((j, c') ∷ ts) k c (here, later) e = elim (Bool-cases (j == k)) [
    | inl same ↦
        let e' : c' ≡ c = cc (rw same at e) in
        subst (λ x. (s : Str) (n : ℕ) → Elem n (x.prefixes s) → n ≤ length s) e' here
    | inr other ↦ lookup-bounded ts k c later (rw other at e)
  ]

  parts_of-IsBounded :
      (convertors : Dict Str (Convertor O)) (fs : List Found) (cs : List (Convertor O)) (tail : Str)
      → AreBounded
      → Typed convertors fs cs
      → IsBounded (parts_of fs cs ++ literal tail ∷ [])
  unfolding parts_of
  parts_of-IsBounded convertors [] [] tail b t = tt
  parts_of-IsBounded convertors [] (c ∷ cs) tail b t = absurd t
  parts_of-IsBounded convertors (f ∷ fs) [] tail b t = absurd t
  parts_of-IsBounded convertors (f ∷ fs) (c ∷ cs) tail b (l, k, t) =
      (lookup-bounded types f.param.convertor c b l, parts_of-IsBounded convertors fs cs tail b t)

  IsMatch-Fits :
      (convertors : Dict Str (Convertor O)) (fs : List Found) (cs : List (Convertor O))
      (tail s : Str) (gs : Groups)
      → Typed convertors fs cs
      → IsMatch (parts_of fs cs ++ literal tail ∷ []) s gs
      → Fits convertors fs tail s gs
  unfolding parts_of
  IsMatch-Fits convertors [] [] tail s [] t (rest, cut, end) = (rest, cut, end)
  IsMatch-Fits convertors [] [] tail s (g ∷ gs) t (rest, cut, m) = absurd m
  IsMatch-Fits convertors [] (c ∷ cs) tail s gs t m = absurd t
  IsMatch-Fits convertors (f ∷ fs) [] tail s gs t m = absurd t
  IsMatch-Fits convertors (f ∷ fs) (c ∷ cs) tail s [] t (rest, cut, m) = absurd m
  IsMatch-Fits convertors (f ∷ fs) (c ∷ cs) tail s ((key, w) ∷ gs) (l, k, t)
        (rest, cut, (rest', cut', same, takes, m)) =
      (
        rest',
        c,
        cut ∙ ap (λ r. f.before ++ r) cut',
        same,
        l,
        ap (λ n. lookup n convertors) same ∙ k,
        subst (λ r. Elem (length w) (c.prefixes r)) cut' takes,
        IsMatch-Fits convertors fs cs tail rest' gs t m,
      )

  -- the text behind the last parameter, without the port where the template is that of a host
  abbrev pub tail_text : Str → Str → Str
  tail_text path tail = if starts_with (codes "/") path then tail else before b':' tail

  abbrev fresh : Compiling O
  fresh = record { regex = []; format = []; convertors = []; duplicated = false }

  ensured :
      (b : Bool) (v c : Compiled O)
      → (ensure (not b) value_error >> ok v) ≡ ok c
      → (b ≡ false) × (c ≡ v)
  ensured false v c e = (refl, cc)
  ensured true v c e = cc

  flipped : (b : Bool) (x y : Str) → (if not b then x else y) ≡ (if b then y else x)
  flipped false x y = refl
  flipped true x y = refl

  compile_path-Typed :
      (path : Str) (c : Compiled O)
      → compile_path types path ≡ ok c
      → (cs : List (Convertor O)) × (c.regex
          ≡ parts_of (find_params 0 [] path).0 cs
            ++ literal (tail_text path (find_params 0 [] path).1) ∷ [])
        × Typed c.convertors (find_params 0 [] path).0 cs
  unfolding compile_path
  compile_path-Typed path c e =
      let (st, called, rest) = >>=-eq-ok (add_params types (find_params 0 [] path).0 fresh) _ e in
      let (once, made) = ensured st.duplicated _ c rest in
      let (cs, regex, typed) = add_params-Typed (find_params 0 [] path).0 fresh st called once in
      (
        cs,
        ap (λ (x : Compiled O). x.regex) made
            ∙ ap (λ r. r ++ literal (end_of (not (starts_with (codes "/") path))) ∷ []) regex
            ∙ ap (λ t. parts_of (find_params 0 [] path).0 cs ++ literal t ∷ [])
                (flipped (starts_with (codes "/") path) (end_of true) (end_of false)),
        subst (λ x. Typed x (find_params 0 [] path).0 cs)
            (sym (ap (λ (x : Compiled O). x.convertors) made)) typed,
      )
    where
      end_of : Bool → Str
      end_of is_host =
          if is_host then before b':' (find_params 0 [] path).1 else (find_params 0 [] path).1

  -- Let no convertor take more of a text than there is. A template that `compile_path` accepts can be
  -- described by its parameters, as they are written in it, with texts between in which no parameter
  -- begins; and whatever text the regular expression matches, the groups cut it accordingly: the
  -- texts between stand as they are, each value is one that the convertor which its parameter names
  -- takes there, and the compiled path has this convertor under the name of the parameter, whatever
  -- the other parameters are.
  pub compile_path-Fits :
      (path : Str) (c : Compiled O) (s : Str) (gs : Groups)
      → AreBounded
      → compile_path types path ≡ ok c
      → match_parts c.regex s ≡ some gs
      → (fs : List Found) × (tail : Str) × IsTemplate fs tail path
        × Fits c.convertors fs (tail_text path tail) s gs
  compile_path-Fits path c s gs b e m =
      let (cs, regex, typed) = compile_path-Typed path c e in
      let (fs, tail) = find_params 0 [] path in
      let text = tail_text path tail in
      let m' : match_parts (parts_of fs cs ++ literal text ∷ []) s ≡ some gs =
        ap (λ r. match_parts r s) (sym regex) ∙ m in
      (
        fs,
        tail,
        find_params-IsTemplate path,
        IsMatch-Fits c.convertors fs cs text s gs typed
            (match_parts-IsMatch _ s (parts_of-IsBounded c.convertors fs cs text b typed) m'),
      )
