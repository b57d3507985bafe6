-- ===== src/Routing/Path/Matching.antt =====
-- The matcher of a compiled path against a description of what matches.
use starlette.Prelude.{
  ℕ, ◌≤◌, ◌≡◌, refl, subst, sym, inl, inr, true, Option, some, List, [], ◌∷◌, ◌++◌, arith, length,
  take, drop, Elem, nat_eq, Bool-cases, Option-cases, take-append-drop, drop-length_append,
  length-take,
}
use starlette.Prelude.Text.{Str, str_eq, starts_with}
use starlette.Routing.Path.{Part, literal, group, Groups, first_match, at_end, match_parts}

pub starts_with-append : (t s : Str) → starts_with t (t ++ s) ≡ true
unfolding starts_with
starts_with-append [] s = refl
starts_with-append (c ∷ t) s = ground (arith, starts_with-append t s)

pub starts_with-drop : (t s : Str) → starts_with t s ≡ true → s ≡ t ++ drop (length t) s
unfolding starts_with
starts_with-drop [] s h = refl
starts_with-drop (c ∷ t) [] h = cc
starts_with-drop (c ∷ t) (d ∷ s) h = ground (arith, starts_with-drop t s)

first_match-Elem {ℓ} :
    {A : Type ℓ} (try : ℕ → Option A) (ns : List ℕ) {a : A}
    → first_match try ns ≡ some a
    → (n : ℕ) × Elem n ns × (try n ≡ some a)
unfolding first_match
first_match-Elem try [] e = cc
first_match-Elem try (n ∷ ns) e = elim (Option-cases (try n)) [
  | inl missed ↦
      let (k, m, ek) = first_match-Elem try ns (rw (missed, first_match) at e) in (k, inr m, ek)
  | inr (b, hit) ↦ (n, inl refl, cc (hit, rw (hit, first_match) at e))
]

first_match-some {ℓ} :
    {A : Type ℓ} (try : ℕ → Option A) (ns : List ℕ) (n : ℕ) {a : A}
    → Elem n ns
    → try n ≡ some a
    → (b : A) × (first_match try ns ≡ some b)
unfolding first_match
first_match-some try [] n m e = elim m [ ]
first_match-some try (k ∷ ns) n {a} (inl same) e =
    let hit : try k ≡ some a = rw (← same) e in (a, rw (hit, first_match))
first_match-some try (k ∷ ns) n (inr m) e =
    let (b, later) = first_match-some try ns n m e in
    elim (Option-cases (try k)) [
      | inl missed ↦ (b, rw (missed, first_match) later)
      | inr (d, hit) ↦ (d, rw (hit, first_match))
    ]

module _ {O : Type 0} where
  -- A text is cut into the literals of a path and one piece for each group, which the expression of
  -- the group can take where it stands; what is left is nothing, or one line feed.
  abbrev pub IsMatch : List (Part O) → Str → Groups → Type 0
  IsMatch [] s [] = at_end s ≡ true
  IsMatch [] s (g ∷ gs) = ⊥
  IsMatch (literal t ∷ ps) s gs = (rest : Str) × (s ≡ t ++ rest) × IsMatch ps rest gs
  IsMatch (group name c ∷ ps) s [] = ⊥
  IsMatch (group name c ∷ ps) s ((key, w) ∷ gs) =
      (rest : Str) × (s ≡ w ++ rest)
      × (key ≡ name)
      × Elem (length w) (c.prefixes s)
      × IsMatch ps rest gs

  -- the expression of a group takes no more than there is
  abbrev pub IsBounded : List (Part O) → Type 0
  IsBounded [] = Unit
  IsBounded (literal t ∷ ps) = IsBounded ps
  IsBounded (group name c ∷ ps) =
      ((s : Str) (n : ℕ) → Elem n (c.prefixes s) → n ≤ length s) × IsBounded ps

  -- Where the expressions of the groups take no more than there is, the groups that the matcher
  -- returns cut the text as the path says.
  pub match_parts-IsMatch :
      (ps : List (Part O)) (s : Str) {gs : Groups}
      → IsBounded ps
      → match_parts ps s ≡ some gs
      → IsMatch ps s gs
  unfolding match_parts
  match_parts-IsMatch [] s {gs} b e = elim (Bool-cases (at_end s)) [
    | inl end ↦
        let none_left : ◌≡◌ {A = Groups} [] gs = cc (rw end at e) in
        subst (λ g. IsMatch [] s g) none_left end
    | inr more ↦ cc (rw more at e)
  ]
  match_parts-IsMatch (literal t ∷ ps) s b e = elim (Bool-cases (starts_with t s)) [
    | inl h ↦ (drop (length t) s, starts_with-drop t s h, match_parts-IsMatch ps _ b (rw h at e))
    | inr other ↦ cc (rw other at e)
  ]
  match_parts-IsMatch (group name c ∷ ps) s {gs} b e =
      let (n, m, hit) = first_match-Elem _ (c.prefixes s) e in
      elim (Option-cases (match_parts ps (drop n s))) [
        | inl missed ↦ cc (rw missed at hit)
        | inr (later, found) ↦
            let fits : n ≤ length s = b.0 s n m in
            let whole : length (take n s) ≡ n = omega (arith, length-take n s) in
            let cut : ◌≡◌ {A = Groups} ((name, take n s) ∷ later) gs = cc (rw found at hit) in
            subst (λ g. IsMatch (group name c ∷ ps) s g) cut
              (
                drop n s,
                sym (take-append-drop n s),
                refl,
                rw whole m,
                match_parts-IsMatch ps (drop n s) b.1 found,
              )
      ]

  -- Where some cut of the text fits the path, the matcher finds one.
  pub match_complete :
      (ps : List (Part O)) (s : Str) (gs : Groups)
      → IsMatch ps s gs
      → (found : Groups) × (match_parts ps s ≡ some found)
  unfolding match_parts
  match_complete [] s [] m = ([], rw m)
  match_complete [] s (g ∷ gs) m = elim m [ ]
  match_complete (literal t ∷ ps) s gs (rest, cut, m) =
      let (found, e) = match_complete ps rest gs m in
      (found, rw (cut, starts_with-append, drop-length_append) e)
  match_complete (group name c ∷ ps) s [] m = elim m [ ]
  match_complete (group name c ∷ ps) s ((key, w) ∷ gs) (rest, cut, same, takes, m) =
      let (found, e) = match_complete ps rest gs m in
      let behind : drop (length w) s ≡ rest = rw cut (drop-length_append w rest) in
      first_match-some _ (c.prefixes s) (length w) {a = (name, take (length w) s) ∷ found} takes
        (rw (behind, e) refl)
