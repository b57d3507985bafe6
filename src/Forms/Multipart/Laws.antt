-- ===== src/Forms/Multipart/Laws.antt =====
-- What `MultiPartParser` keeps to, whatever the tokenizer calls back: its limits, and the files that
-- it closes.
use starlette.Prelude.{
  ℕ, zero, suc, ◌≤◌, ◌≡◌, ◌≢◌, refl, ap, ◌∙◌, true, false, Option, none, some, List, [], ◌∷◌, map,
  length, length-map, All, arith,
}
use starlette.Prelude.Text.{Str, codes, str_eq}
use starlette.Prelude.Dict.{Dict, lookup}
use starlette.Prelude.Result.{Error, Result, raise, ok, multipart_exception}
use starlette.Datastructures.Headers
use starlette.Datastructures.Headers.{RawHeaders}
use starlette.Forms.{Tokenizer, Stream}
use starlette.Forms.Multipart.{
  Upload, write, seek, close, Limits, State, init, Callback, Step, next, stop, empty_part, Packages,
  calls, update, write_parts, finish_parts, write_files, tokenize, read_chunks, close_files,
  parse_stream, parse,
}
use starlette.Forms.Multipart.Callbacks.{
  IsValid, IsStopped, Keeps, IsValid-IsStopped, Keeps-option, calls-Keeps,
}

-- writing to files opens and closes none
abbrev Same : List Upload → List Upload → Type 0
Same us vs =
    (length vs ≡ length us) × (All (λ u. u.closed ≡ false) us → All (λ u. u.closed ≡ false) vs)

update-Same :
    (i : ℕ) (f : Upload → Upload) (us : List Upload)
    → ((u : Upload) → (f u).closed ≡ u.closed)
    → Same us (update i f us)
update-Same i f [] h = (refl, λ o. o)
update-Same zero f (u ∷ us) h = (refl, λ (o, os). (h u ∙ o, os))
update-Same (suc i) f (u ∷ us) h =
    let (l, k) = update-Same i f us h in (ap suc l, λ (o, os). (o, k os))

write_parts-Same : (ws : List (ℕ × Str)) (us : List Upload) → Same us (write_parts ws us)
unfolding write_parts write
write_parts-Same [] us = (refl, λ o. o)
write_parts-Same ((i, bytes) ∷ ws) us =
    let (l, k) = update-Same i (write bytes) us (λ u. refl) in
    let (m, j) = write_parts-Same ws (update i (write bytes) us) in (m ∙ l, λ o. j (k o))

finish_parts-Same : (is : List ℕ) (us : List Upload) → Same us (finish_parts is us)
unfolding finish_parts seek
finish_parts-Same [] us = (refl, λ o. o)
finish_parts-Same (i ∷ is) us =
    let (l, k) = update-Same i (seek 0) us (λ u. refl) in
    let (m, j) = finish_parts-Same is (update i (seek 0) us) in (m ∙ l, λ o. j (k o))

write_files-IsValid :
    (limits : Limits) (s : State) → IsValid limits s → IsValid limits (write_files s)
unfolding write_files
write_files-IsValid limits s v =
    let (l, k) = write_parts-Same s.parts_to_write s.files in
    let (m, j) = finish_parts-Same s.parts_to_finish (write_parts s.parts_to_write s.files) in
    record {
      files_counted = m ∙ l ∙ v.files_counted;
      files_limit = v.files_limit;
      fields_limit = v.fields_limit;
      part_limit = v.part_limit;
      files_open = j (k v.files_open);
    }

module _ (packages : Packages) (limits : Limits) {P : Type 0}
    (tokenizer : Tokenizer P Callback) where
  tokenize-Keeps :
      (called : List Callback × (Option Error × P)) (s : State)
      → IsValid limits s
      → Keeps limits (tokenize packages limits tokenizer called s)
  unfolding tokenize
  tokenize-Keeps (cs, (failure, parser)) s v =
      on_step (calls packages limits cs s) (calls-Keeps limits packages cs s v)
    where
      on_step :
          (step : Step)
          → Keeps limits step
          → Keeps limits (elim step [
            | stop exc s' ↦ stop exc s'
            | next s' ↦ elim failure [ none ↦ next s' | some exc ↦ stop exc s' ]
          ])
      on_step (stop exc s') k = k
      on_step (next s') k = Keeps-option limits failure _ _ k (λ exc. IsValid-IsStopped limits s' k)

  read_chunks-Keeps :
      (chunks : List Str) (end : Option Error) (parser : P) (s : State)
      → IsValid limits s
      → Keeps limits (read_chunks packages limits tokenizer chunks end parser s).0
  unfolding read_chunks
  read_chunks-Keeps [] none parser s v = v
  read_chunks-Keeps [] (some exc) parser s v = IsValid-IsStopped limits s v
  read_chunks-Keeps (chunk ∷ chunks) end parser s v =
      on_step (tokenize packages limits tokenizer (tokenizer.write parser chunk) s)
        (tokenize-Keeps (tokenizer.write parser chunk) s v)
        (λ s' k.
          read_chunks-Keeps chunks end (tokenizer.write parser chunk).1.1 (write_files s')
            (write_files-IsValid limits s' k))
    where
      after : P
      after = (tokenizer.write parser chunk).1.1

      go : State → Step × P
      go s' = read_chunks packages limits tokenizer chunks end after (write_files s')

      on_step :
          (step : Step)
          → Keeps limits step
          → ((s' : State) → IsValid limits s' → Keeps limits (go s').0)
          → Keeps limits
              (elim step as (λ x. Step × P) [
                | stop exc s' ↦ (stop exc s', after)
                | next s' ↦ go s'
              ]).0
      on_step (stop exc s') k rest = k
      on_step (next s') k rest = rest s' k

close-All : (us : List Upload) → All (λ u. u.closed ≡ true) (map close us)
unfolding close
close-All [] = tt
close-All (u ∷ us) = (refl, close-All us)

-- the parser as a call left it
abbrev pub left : Step → State
left (next s) = s
left (stop exc s) = s

-- after a `MultiPartException` every file is closed, and else none
abbrev pub Closed : Step → Type 0
Closed (stop (multipart_exception message) s) = All (λ u. u.closed ≡ true) s.files
Closed step = All (λ u. u.closed ≡ false) (left step).files

-- the limits as they hold for what a call left
abbrev pub Limited : Limits → Step → Type 0
Limited limits step =
    (length (left step).files ≤ limits.max_files)
    × (length (left step).part.bytes ≤ limits.max_part_size)

Keeps-Limited : (limits : Limits) (step : Step) → Keeps limits step → Limited limits step
Keeps-Limited limits (next s) v = (ground (arith, v.files_counted, v.files_limit), v.part_limit)
Keeps-Limited limits (stop exc s) v = (v.files_limit, v.part_limit)

module _ (packages : Packages) (limits : Limits) {P : Type 0}
    (tokenizer : Tokenizer P Callback) where
  close_files-Limited :
      (exc : Error) (s : State)
      → IsStopped limits s
      → Limited limits (stop exc (close_files packages limits tokenizer exc s))
        × Closed (stop exc (close_files packages limits tokenizer exc s))
  unfolding close_files
  close_files-Limited (multipart_exception m) s v =
      ((rw (length-map s.files close) v.files_limit, v.part_limit), close-All s.files)
  close_files-Limited _ s v = ((v.files_limit, v.part_limit), v.files_open)

  -- The last call of the tokenizer only ends it: it makes no callback, and raises no exception of
  -- this module.
  abbrev pub OnlyEnds : Type 0
  OnlyEnds =
      (parser : P)
      → ((tokenizer.finalize parser).0 ≡ [])
        × ((m : Str) → (tokenizer.finalize parser).1.0 ≢ some (multipart_exception m))

  ended :
      (cs : List Callback) (failure : Option Error) (parser : P) (s : State)
      → cs ≡ []
      → ((m : Str) → failure ≢ some (multipart_exception m))
      → IsValid limits s
      → Closed (tokenize packages limits tokenizer (cs, (failure, parser)) s)
  unfolding tokenize calls
  ended [] none parser s e q v = v.files_open
  ended [] (some (multipart_exception m)) parser s e q v = absurd (q m refl)
  ended [] (some _) parser s e q v = v.files_open
  ended (c ∷ cs) failure parser s e q v = absurd cc

  parse_stream-Limited :
      (stream : Stream) (parser : P) (s : State)
      → IsValid limits s
      → Limited limits (parse_stream packages limits tokenizer stream parser s)
        × (OnlyEnds → Closed (parse_stream packages limits tokenizer stream parser s))
  unfolding parse_stream
  parse_stream-Limited stream parser s v =
      on_step read.0
        (read_chunks-Keeps packages limits tokenizer stream.chunks stream.end parser s v)
    where
      read : Step × P
      read = read_chunks packages limits tokenizer stream.chunks stream.end parser s

      handled : Step → Step
      handled step = elim step [
        | stop exc s' ↦ stop exc (close_files packages limits tokenizer exc s')
        | next s' ↦ tokenize packages limits tokenizer (tokenizer.finalize read.1) s'
      ]

      on_step :
          (step : Step)
          → Keeps limits step
          → Limited limits (handled step) × (OnlyEnds → Closed (handled step))
      on_step (stop exc s') k = let (l, c) = close_files-Limited exc s' k in (l, λ q. c)
      on_step (next s') k = (
        Keeps-Limited limits _
            (tokenize-Keeps packages limits tokenizer (tokenizer.finalize read.1) s' k),
        λ q.
            ended (tokenizer.finalize read.1).0 (tokenizer.finalize read.1).1.0
              (tokenizer.finalize read.1).1.1 s' (q read.1).0 (q read.1).1 k,
      )

  init-IsValid : (charset : Str) → IsValid limits (init charset)
  unfolding init empty_part
  init-IsValid charset = record {
    files_counted = refl;
    files_limit = omega arith;
    fields_limit = omega arith;
    part_limit = omega arith;
    files_open = tt;
  }

  -- What a call may come to: within the limits, with its files closed or open as they should be.
  abbrev pub IsGood : Step → Type 0
  IsGood step = Limited limits step × (OnlyEnds → Closed step)

  init-IsGood : (exc : Error) (charset : Str) → IsGood (stop exc (init charset))
  unfolding init empty_part
  init-IsGood (multipart_exception m) charset = ((omega arith, omega arith), λ q. tt)
  init-IsGood _ charset = ((omega arith, omega arith), λ q. tt)

  module _ (create : Str → P) (headers : RawHeaders) (stream : Stream) where
    parse-IsGood : IsGood (parse packages limits tokenizer create headers stream)
    unfolding parse
    parse-IsGood = by_type (Headers.getitem headers (codes "Content-Type"))
      where
        params : Str → Dict Str Str
        params content_type = (packages.parse_options_header (some content_type)).1

        charset : Str → Str
        charset content_type = elim (lookup (codes "charset") (params content_type)) [
          | none ↦ codes "utf-8"
          | some c ↦ c
        ]

        with_boundary : Str → Option Str → Step
        with_boundary content_type boundary = elim boundary [
          | none ↦
              stop (multipart_exception (codes "Missing boundary in multipart."))
                (init (charset content_type))
          | some b ↦
              parse_stream packages limits tokenizer stream (create b) (init (charset content_type))
        ]

        by_boundary :
            (content_type : Str) (boundary : Option Str)
            → IsGood (with_boundary content_type boundary)
        by_boundary content_type none =
            init-IsGood (multipart_exception (codes "Missing boundary in multipart."))
              (charset content_type)
        by_boundary content_type (some b) =
            parse_stream-Limited stream (create b) (init (charset content_type))
              (init-IsValid (charset content_type))

        by_type :
            (r : Result Str)
            → IsGood (elim r [
              | raise exc ↦ stop exc (init [])
              | ok content_type ↦
                  with_boundary content_type (lookup (codes "boundary") (params content_type))
            ])
        by_type (raise exc) = init-IsGood exc []
        by_type (ok content_type) = by_boundary content_type _

    -- Whatever the body, the tokenizer and its callbacks are, and whether `parse` returns or raises:
    -- it has not opened more temporary files than `max_files`, and the field that it collects is not
    -- longer than `max_part_size`.
    pub parse-Limited : Limited limits (parse packages limits tokenizer create headers stream)
    parse-Limited = parse-IsGood.0

    -- If the tokenizer's last call makes no callback and raises no `MultiPartException`: every file
    -- that was opened is closed when `parse` raises a `MultiPartException`, and none of them when it
    -- returns or raises any other exception.
    pub parse-Closed : OnlyEnds → Closed (parse packages limits tokenizer create headers stream)
    parse-Closed = parse-IsGood.1
