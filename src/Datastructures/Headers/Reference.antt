-- ===== src/Datastructures/Headers/Reference.antt =====
-- `__setitem__` and `__delitem__` of `MutableHeaders` work on indexes, from the last to the first.
-- Here they are compared with one pass over the list.
use mathlib.Core.List.{reverse, reverse-cons}
use starlette.Prelude.{
  ℕ, ◌+◌, ◌≡◌, refl, sym, ap, ◌∙◌, inl, inr, List, [], ◌∷◌, ◌++◌, append-nil, append_assoc, arith,
  length, length-append, ◌==◌, if◌then◌else◌, Bool-cases,
}
use starlette.Prelude.Text.{Str, str_eq}
use starlette.Datastructures.Headers.{
  RawHeaders, indexes, delete_at, delete_each, assign_at, set_at_indexes,
}

-- the list with every entry of a key left out
unfoldable pub without : Str → RawHeaders → RawHeaders
without k [] = []
without k ((j, v) ∷ h) = if j == k then without k h else (j, v) ∷ without k h

-- the first entry of a key takes the new value and the later ones go; a new key goes to the end
unfoldable pub replaced : Str → Str → RawHeaders → RawHeaders
unfolding without
replaced k v [] = (k, v) ∷ []
replaced k v ((j, w) ∷ h) = if j == k then (k, v) ∷ without k h else (j, w) ∷ replaced k v h

delete_each-append :
    (is : List ℕ) (i : ℕ) (h : RawHeaders)
    → delete_each (is ++ i ∷ []) h ≡ delete_at i (delete_each is h)
unfolding delete_each
delete_each-append [] i h = refl
delete_each-append (j ∷ is) i h = delete_each-append is i (delete_at j h)

delete_at-append :
    (pre : RawHeaders) (x : Str × Str) (h : RawHeaders)
    → delete_at (length pre) (pre ++ x ∷ h) ≡ pre ++ h
unfolding delete_at
delete_at-append [] x h = refl
delete_at-append (y ∷ pre) x h = ap (λ r. y ∷ r) (delete_at-append pre x h)

assign_at-append :
    (pre : RawHeaders) (item x : Str × Str) (h : RawHeaders)
    → assign_at (length pre) item (pre ++ x ∷ h) ≡ pre ++ item ∷ h
unfolding assign_at
assign_at-append [] item x h = refl
assign_at-append (y ∷ pre) item x h = ap (λ r. y ∷ r) (assign_at-append pre item x h)

snoc : (pre : RawHeaders) (x : Str × Str) (h : RawHeaders) → pre ++ x ∷ h ≡ (pre ++ x ∷ []) ++ h
snoc pre x h = sym (append_assoc pre (x ∷ []) h)

length-snoc : (pre : RawHeaders) (x : Str × Str) → length pre + 1 ≡ length (pre ++ x ∷ [])
length-snoc pre x = omega (arith, length-append pre (x ∷ []))

-- Deleting the collected indexes from the last to the first leaves the key out.
delete_each-indexes :
    (k : Str) (pre h : RawHeaders) (n : ℕ)
    → n ≡ length pre
    → delete_each (reverse (indexes k n h)) (pre ++ h) ≡ pre ++ without k h
unfolding indexes without delete_each
delete_each-indexes k pre [] n e = refl
delete_each-indexes k pre ((j, w) ∷ h) n e =
    let rest =
      delete_each-indexes k (pre ++ (j, w) ∷ []) h (n + 1)
        (ap (λ m. m + 1) e ∙ length-snoc pre (j, w)) in
    elim (Bool-cases (j == k)) [
      | inl same ↦
          rw (same, reverse-cons, delete_each-append, snoc pre (j, w) h, rest, e)
            (rw (← snoc pre (j, w) (without k h)) (delete_at-append pre (j, w) (without k h)))
      | inr other ↦ rw (other, snoc pre (j, w) h, rest) (sym (snoc pre (j, w) (without k h)))
    ]

set_at_indexes-indexes :
    (k v : Str) (pre h : RawHeaders) (n : ℕ)
    → n ≡ length pre
    → set_at_indexes (indexes k n h) (k, v) (pre ++ h) ≡ pre ++ replaced k v h
unfolding set_at_indexes indexes replaced
set_at_indexes-indexes k v pre [] n e = rw append-nil
set_at_indexes-indexes k v pre ((j, w) ∷ h) n e =
    let e' : n + 1 ≡ length (pre ++ (j, w) ∷ []) = ap (λ m. m + 1) e ∙ length-snoc pre (j, w) in
    elim (Bool-cases (j == k)) [
      | inl same ↦
          rw (same, snoc pre (j, w) h, delete_each-indexes k (pre ++ (j, w) ∷ []) h (n + 1) e', e)
            (rw (← snoc pre (j, w) (without k h))
              (assign_at-append pre (k, v) (j, w) (without k h)))
      | inr other ↦
          rw
            (other, snoc pre (j, w) h, set_at_indexes-indexes k v (pre ++ (j, w) ∷ []) h (n + 1) e')
            (sym (snoc pre (j, w) (replaced k v h)))
    ]

-- The two index loops of `__setitem__` make the one pass of `replaced`.
pub set_at_indexes_lem :
    (k v : Str) (h : RawHeaders) → set_at_indexes (indexes k 0 h) (k, v) h ≡ replaced k v h
set_at_indexes_lem k v h = set_at_indexes-indexes k v [] h 0 refl

-- The index loop of `__delitem__` leaves every entry of the key out.
pub delete_each_lem :
    (k : Str) (h : RawHeaders) → delete_each (reverse (indexes k 0 h)) h ≡ without k h
delete_each_lem k h = delete_each-indexes k [] h 0 refl
