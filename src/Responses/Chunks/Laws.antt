-- ===== src/Responses/Chunks/Laws.antt =====
-- What the reading loops of FileResponse send.
use starlette.Prelude.{
  ℕ, zero, suc, ◌+◌, ◌-◌, ◌≤◌, ◌<◌, min, true, false, ◌&&◌, some, List, [], ◌∷◌, ◌++◌, ltb, ◌==◌,
  nat_eq, length, take, drop, ◌≡◌, refl, sym, ◌∙◌, ap, arith, length-take, length-drop,
  take-append-drop, Bool-cases, inl, inr,
}
use starlette.Prelude.Text.{Str}
use starlette.Responses.Chunks.{
  Message, simple_chunks, range_chunks, part_chunks, bodies, announced, all_more,
}

abbrev empty : Str
empty = []

take_nil : (n : ℕ) → take n empty ≡ []
take_nil zero = refl
take_nil (suc n) = refl

take-append-take : (j n : ℕ) (s : Str) → j ≤ n → take j s ++ take (n - j) (drop j s) ≡ take n s
take-append-take zero n s h = ap (λ m. take m s) (omega arith)
take-append-take (suc j) zero s h = absurd (omega arith)
take-append-take (suc j) (suc n) [] h = take_nil (suc n - suc j)
take-append-take (suc j) (suc n) (c ∷ s) h =
    ap (λ r. c ∷ r)
      (ap (λ m. take j s ++ take m (drop j s)) (omega arith) ∙ take-append-take j n s (omega arith))

drop_nil : (n : ℕ) → [] ≡ drop n empty
drop_nil zero = refl
drop_nil (suc n) = refl

drop-drop : (a b : ℕ) (s : Str) → drop a (drop b s) ≡ drop (b + a) s
drop-drop a zero s = ap (λ n. drop n s) (omega arith)
drop-drop zero (suc b) [] = drop_nil (suc b + 0)
drop-drop (suc a) (suc b) [] = drop_nil (suc b + suc a)
drop-drop a (suc b) (c ∷ s) = drop-drop a b s ∙ ap (λ n. drop n (c ∷ s)) (suc_add b a)
  where
    suc_add : (m n : ℕ) → suc (m + n) ≡ suc m + n
    suc_add m n = omega arith

-- the bytes of a range
abbrev pub slice : Str → ℕ → ℕ → Str
slice file start end = take (end - start) (drop start file)

pub length-slice :
    (file : Str) (start end : ℕ) → end ≤ length file → length (slice file start end) ≡ end - start
length-slice file start end h =
    omega (arith, length-take (end - start) (drop start file), length-drop start file)

module _ (chunk_size : ℕ) (file : Str) where
  abbrev chunk_at : ℕ → ℕ → Str
  chunk_at start end = take (min chunk_size (end - start)) (drop start file)

  length-chunk_at :
      (start end : ℕ)
      → end ≤ length file
      → length (chunk_at start end) ≡ min chunk_size (end - start)
  length-chunk_at start end h =
      omega (
        arith,
        length-take (min chunk_size (end - start)) (drop start file),
        length-drop start file,
      )

  chunk_at-append-slice :
      (start end : ℕ)
      → end ≤ length file
      → chunk_at start end ++ slice file (start + length (chunk_at start end)) end
        ≡ slice file start end
  chunk_at-append-slice start end h =
      let k : length (chunk_at start end) ≡ min chunk_size (end - start) =
        length-chunk_at start end h in
      let rest : slice file (start + length (chunk_at start end)) end
          ≡ take (end - start - min chunk_size (end - start))
              (drop (min chunk_size (end - start)) (drop start file)) =
        rw (k, drop-drop (min chunk_size (end - start)) start file)
          (ap (λ m. take m (drop (start + min chunk_size (end - start)) file)) (omega arith)) in
      rw rest (
        take-append-take (min chunk_size (end - start)) (end - start) (drop start file)
          (omega arith))

announced-cons :
    (body : Str) (ms : List Message) → announced ms ≡ true → announced ((body, true) ∷ ms) ≡ true
unfolding announced
announced-cons body [] h = cc
announced-cons body (m ∷ ms) h = h

slice_empty : (file : Str) (start end : ℕ) → end ≤ start → slice file start end ≡ []
slice_empty file start end h = let none_left : end - start ≡ 0 = omega arith in rw none_left refl

module _ (chunk_size : ℕ) (file : Str) where
  -- Where a chunk has a byte, the loop over a range of the file ends after at most
  -- `end - start + 1` turns: the bodies are the bytes of the range, and only the last message says
  -- that no other follows.
  pub range_chunks_lem :
      (fuel start end : ℕ)
      → 1 ≤ chunk_size
      → end ≤ length file
      → end - start < fuel
      → (ms : List Message) × (range_chunks chunk_size file fuel start end ≡ some ms)
        × (bodies ms ≡ slice file start end)
        × (announced ms ≡ true)
  unfolding range_chunks bodies announced
  range_chunks_lem zero start end c h f = absurd (omega arith)
  range_chunks_lem (suc fuel) start end c h f =
      let k : length (chunk_at chunk_size file start end) ≡ min chunk_size (end - start) =
        length-chunk_at chunk_size file start end h in
      let whole : chunk_at chunk_size file start end
            ++ slice file (start + length (chunk_at chunk_size file start end)) end
          ≡ slice file start end =
        chunk_at-append-slice chunk_size file start end h in
      elim (Bool-cases (
        (length (chunk_at chunk_size file start end) == chunk_size)
        && ltb (start + length (chunk_at chunk_size file start end)) end)) [
          | inl more ↦
              let (ms, e, b, a) =
                range_chunks_lem fuel (start + length (chunk_at chunk_size file start end)) end c h
                  (ground arith) in
              (
                (chunk_at chunk_size file start end, true) ∷ ms,
                rw (more, e) refl,
                rw b whole,
                announced-cons (chunk_at chunk_size file start end) ms a,
              )
          | inr last ↦ (
            (chunk_at chunk_size file start end, false) ∷ [],
            rw last refl,
            ap (λ r. chunk_at chunk_size file start end ++ r)
                  (sym (
                    slice_empty file (start + length (chunk_at chunk_size file start end)) end
                      (ground arith)))
                ∙ whole,
            refl,
          )
        ]

  -- Where a chunk has a byte, the inner loop of a response with several ranges ends after at most
  -- `end - start + 1` turns on a range of the file: the bodies are the bytes of the range, and
  -- every message says that another one follows.
  pub part_chunks_lem :
      (fuel start end : ℕ)
      → 1 ≤ chunk_size
      → end ≤ length file
      → end - start < fuel
      → (ms : List Message) × (part_chunks chunk_size file fuel start end ≡ some ms)
        × (bodies ms ≡ slice file start end)
        × (all_more ms ≡ true)
  unfolding part_chunks bodies all_more
  part_chunks_lem zero start end c h f = absurd (omega arith)
  part_chunks_lem (suc fuel) start end c h f = elim (Bool-cases (ltb start end)) [
    | inl more ↦
        let k : length (chunk_at chunk_size file start end) ≡ min chunk_size (end - start) =
          length-chunk_at chunk_size file start end h in
        let (ms, e, b, a) =
          part_chunks_lem fuel (start + length (chunk_at chunk_size file start end)) end c h
            (ground arith) in
        (
          (chunk_at chunk_size file start end, true) ∷ ms,
          rw (more, e) refl,
          rw b (chunk_at-append-slice chunk_size file start end h),
          a,
        )
    | inr last ↦ ([], rw last refl, sym (slice_empty file start end (ground arith)), refl)
  ]

take-append-drop_at :
    (n p : ℕ) (file : Str) → take n (drop p file) ++ drop (p + n) file ≡ drop p file
take-append-drop_at n p file = rw (sym (drop-drop n p file)) (take-append-drop n (drop p file))

drop_all : (s : Str) (n : ℕ) → length s ≤ n → drop n s ≡ []
drop_all [] n h = sym (drop_nil n)
drop_all (c ∷ s) zero h = absurd (omega arith)
drop_all (c ∷ s) (suc n) h = drop_all s n (omega arith)

module _ (chunk_size : ℕ) (file : Str) where
  abbrev read_at : ℕ → Str
  read_at position = take chunk_size (drop position file)

  read_at-append :
      (ms : List Message) (position : ℕ)
      → bodies ms ≡ drop (position + chunk_size) file
      → read_at position ++ bodies ms ≡ drop position file
  read_at-append ms position e = rw e (take-append-drop_at chunk_size position file)

  drop-add : (position : ℕ) {m n : ℕ} → m ≡ n → drop (position + m) file ≡ drop (position + n) file
  drop-add position e = ap (λ k. drop (position + k) file) e

  -- Where a chunk has a byte, the loop over the whole file ends: the bodies are the bytes of the
  -- file from the position on, and only the last message says that no other follows.
  pub simple_chunks_lem :
      (fuel position : ℕ)
      → 1 ≤ chunk_size
      → length file - position < fuel
      → (ms : List Message) × (simple_chunks chunk_size file fuel position ≡ some ms)
        × (bodies ms ≡ drop position file)
        × (announced ms ≡ true)
  unfolding simple_chunks bodies announced
  simple_chunks_lem zero position c f = absurd (omega arith)
  simple_chunks_lem (suc fuel) position c f =
      let k : length (read_at position) ≡ min chunk_size (length file - position) =
        omega (arith, length-take chunk_size (drop position file), length-drop position file) in
      elim (Bool-cases (length (read_at position) == chunk_size)) [
        | inl more ↦
            let full : length (read_at position) ≡ chunk_size = ground arith in
            let (ms, e, b, a) =
              simple_chunks_lem fuel (position + length (read_at position)) c (ground arith) in
            (
              (read_at position, true) ∷ ms,
              rw (more, e) refl,
              read_at-append ms position (b ∙ drop-add position full),
              announced-cons (read_at position) ms a,
            )
        | inr last ↦ (
          (read_at position, false) ∷ [],
          rw last refl,
          read_at-append [] position (sym (drop_all file (position + chunk_size) (ground arith))),
          refl,
        )
      ]
