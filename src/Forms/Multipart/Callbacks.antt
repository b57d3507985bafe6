-- ===== src/Forms/Multipart/Callbacks.antt =====
-- The limits of `MultiPartParser`, which every callback keeps to.
use starlette.Prelude.{
  ◌+◌, ◌≤◌, ◌≡◌, refl, ap, ◌∙◌, Bool, true, false, Option, none, some, List, [], ◌∷◌, ◌++◌, length,
  length-append, All, arith, if◌then◌else◌, ltb,
}
use starlette.Prelude.Text.{Str, codes, str_eq}
use starlette.Prelude.Dict.{lookup}
use starlette.Prelude.Result.{Error}
use starlette.Forms.{slice}
use starlette.Forms.Multipart.{
  Limits, State, Callback, on_part_begin, on_part_end, on_header_end, on_headers_finished, on_end,
  on_part_data, on_header_field, on_header_value, Step, next, stop, part_data, header_end, Packages,
  user_safe_decode, part_end, open_file, file_part, field_part, headers_finished, call, calls,
}

-- the limits, as they hold between two callbacks, with every file open
pub record IsValid (limits : Limits) (s : State) : Type 0 where
  pub files_counted : length s.files ≡ s.current_files
  pub files_limit : s.current_files ≤ limits.max_files
  pub fields_limit : s.current_fields ≤ limits.max_fields
  pub part_limit : length s.part.bytes ≤ limits.max_part_size
  pub files_open : All (λ u. u.closed ≡ false) s.files

-- an exception leaves no more files than allowed, all open
pub record IsStopped (limits : Limits) (s : State) : Type 0 where
  pub files_limit : length s.files ≤ limits.max_files
  pub part_limit : length s.part.bytes ≤ limits.max_part_size
  pub files_open : All (λ u. u.closed ≡ false) s.files

abbrev pub Keeps : Limits → Step → Type 0
Keeps limits (next s) = IsValid limits s
Keeps limits (stop exc s) = IsStopped limits s

pub IsValid-IsStopped : (limits : Limits) (s : State) → IsValid limits s → IsStopped limits s
IsValid-IsStopped limits s v = record {
  files_limit = ground (arith, v.files_counted, v.files_limit);
  part_limit = v.part_limit;
  files_open = v.files_open;
}

All-append :
    {A : Type 0} (Q : A → Type 0) (xs : List A) (a : A) → All Q xs → Q a → All Q (xs ++ a ∷ [])
All-append Q [] a h q = (q, tt)
All-append Q (x ∷ xs) a (p, h) q = (p, All-append Q xs a h q)

-- a test on a part that decides between an exception and the next state
Keeps-if :
    (limits : Limits) (test : Bool) (exc : Error) (stopped s : State)
    → IsStopped limits stopped
    → (test ≡ false → IsValid limits s)
    → Keeps limits (if test then stop exc stopped else next s)
Keeps-if limits true exc stopped s h k = h
Keeps-if limits false exc stopped s h k = k refl

pub Keeps-option :
    {A : Type 0} (limits : Limits) (o : Option A) (step : Step) (f : A → Step)
    → Keeps limits step
    → ((a : A) → Keeps limits (f a))
    → Keeps limits (elim o [ none ↦ step | some a ↦ f a ])
Keeps-option limits none step f h k = h
Keeps-option limits (some a) step f h k = k a

length-snoc : {A : Type 0} (xs : List A) (a : A) → length (xs ++ a ∷ []) ≡ length xs + 1
length-snoc xs a = length-append xs (a ∷ [])

module _ (limits : Limits) where
  part_data-Keeps :
      (bytes : Str) (s : State) → IsValid limits s → Keeps limits (part_data limits bytes s)
  unfolding part_data
  part_data-Keeps bytes s v =
      Keeps-option limits s.part.file _ _
        (Keeps-if limits (ltb limits.max_part_size (length s.part.bytes + length bytes)) _ _ _
          (IsValid-IsStopped limits s v)
          (λ e. record {
            files_counted = v.files_counted;
            files_limit = v.files_limit;
            fields_limit = v.fields_limit;
            part_limit = ground (arith, length-append s.part.bytes bytes, e);
            files_open = v.files_open;
          }))
        (λ file. record {
          files_counted = v.files_counted;
          files_limit = v.files_limit;
          fields_limit = v.fields_limit;
          part_limit = v.part_limit;
          files_open = v.files_open;
        })

  -- what a callback may change without care for the limits
  IsValid-of_same :
      (s s' : State)
      → s'.files ≡ s.files
      → s'.current_files ≡ s.current_files
      → s'.current_fields ≡ s.current_fields
      → s'.part.bytes ≡ s.part.bytes
      → IsValid limits s
      → IsValid limits s'
  IsValid-of_same s s' f n m b v = record {
    files_counted = rw (f, n) v.files_counted;
    files_limit = rw n v.files_limit;
    fields_limit = rw m v.fields_limit;
    part_limit = rw b v.part_limit;
    files_open = rw f v.files_open;
  }

  module _ (packages : Packages) where
    file_part-Keeps :
        (filename : Str) (s : State)
        → IsValid limits s
        → Keeps limits (file_part packages limits filename s)
    unfolding file_part open_file
    file_part-Keeps filename s v =
        Keeps-if limits (ltb limits.max_files (s.current_files + 1)) _ _ _
          (record {
            files_limit = ground (arith, v.files_counted, v.files_limit);
            part_limit = v.part_limit;
            files_open = v.files_open;
          })
          (λ e. record {
            files_counted = length-snoc s.files _ ∙ ap (λ n. n + 1) v.files_counted;
            files_limit = ground (arith, e);
            fields_limit = v.fields_limit;
            part_limit = v.part_limit;
            files_open = All-append (λ u. u.closed ≡ false) s.files _ v.files_open refl;
          })

    field_part-Keeps : (s : State) → IsValid limits s → Keeps limits (field_part packages limits s)
    unfolding field_part
    field_part-Keeps s v =
        Keeps-if limits (ltb limits.max_fields (s.current_fields + 1)) _ _ _
          (record {
            files_limit = ground (arith, v.files_counted, v.files_limit);
            part_limit = v.part_limit;
            files_open = v.files_open;
          })
          (λ e. record {
            files_counted = v.files_counted;
            files_limit = v.files_limit;
            fields_limit = ground (arith, e);
            part_limit = v.part_limit;
            files_open = v.files_open;
          })

    headers_finished-Keeps :
        (s : State) → IsValid limits s → Keeps limits (headers_finished packages limits s)
    unfolding headers_finished
    headers_finished-Keeps s v =
        Keeps-option limits
          (lookup (codes "name") (packages.parse_options_header s.part.content_disposition).1) _ _
          (IsValid-IsStopped limits s v)
          (λ name.
            let w = IsValid-of_same s (named name) refl refl refl refl v in
            Keeps-option limits
              (lookup (codes "filename")
                (packages.parse_options_header s.part.content_disposition).1)
              _ _ (field_part-Keeps (named name) w)
              (λ filename. file_part-Keeps filename (named name) w))
      where
        named : Str → State
        named name = record s {
          part = record (State.part s) { field_name = user_safe_decode packages name s.charset };
        }

    call-Keeps :
        (c : Callback) (s : State) → IsValid limits s → Keeps limits (call packages limits c s)
    unfolding call header_end part_end
    call-Keeps on_part_begin s v = record {
      files_counted = v.files_counted;
      files_limit = v.files_limit;
      fields_limit = v.fields_limit;
      part_limit = omega arith;
      files_open = v.files_open;
    }
    call-Keeps (on_part_data bytes start end) s v = part_data-Keeps (slice bytes start end) s v
    call-Keeps on_part_end s v =
        IsValid-of_same s _ (ground arith) (ground arith) (ground arith) (ground arith) v
    call-Keeps (on_header_field bytes start end) s v = IsValid-of_same s _ refl refl refl refl v
    call-Keeps (on_header_value bytes start end) s v = IsValid-of_same s _ refl refl refl refl v
    call-Keeps on_header_end s v = IsValid-of_same s _ refl refl refl (ground arith) v
    call-Keeps on_headers_finished s v = headers_finished-Keeps s v
    call-Keeps on_end s v = v

    pub calls-Keeps :
        (cs : List Callback) (s : State)
        → IsValid limits s
        → Keeps limits (calls packages limits cs s)
    unfolding calls
    calls-Keeps [] s v = v
    calls-Keeps (c ∷ cs) s v =
        on_step (call packages limits c s) (call-Keeps c s v) (calls-Keeps cs)
      where
        on_step :
            (step : Step)
            → Keeps limits step
            → ((s : State) → IsValid limits s → Keeps limits (calls packages limits cs s))
            → Keeps limits
                (elim step [ next s' ↦ calls packages limits cs s' | stop e s' ↦ stop e s' ])
        on_step (next s') k rest = rest s' k
        on_step (stop exc s') k rest = k
