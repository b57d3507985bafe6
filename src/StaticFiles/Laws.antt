-- ===== src/StaticFiles/Laws.antt =====
-- `StaticFiles` serves files from its directories only.
use starlette.Prelude.{
  ◌≡◌, refl, ap, ◌∙◌, Bool, true, false, not, ◌||◌, ◌⊎◌, Option, none, some, List, [], ◌∷◌, ◌==◌,
  Elem, inl, inr, if◌then◌else◌, ==_iff, Bool-cases,
}
use starlette.Prelude.Text.{Str, codes, str_eq, ends_with}
use starlette.Prelude.Result.{http_exception, value_error, os_error}
use starlette.StaticFiles.{
  Kind, regular, directory, other_kind, Stat, is, missing, denied, too_long, failing, Os, Found,
  found, nothing, bad_value, StaticFiles, resolve, found_at, lookup_in, lookup_path, Answer, file,
  not_found_page, redirect, raises, not_found, index_response, found_response, get_response,
}

module _ (os : Os) (files : StaticFiles) where
  -- the path without `..`, and also without symbolic links unless they are followed
  abbrev pub resolved : Str → Str
  resolved path = if files.follow_symlink then os.abspath path else os.realpath path

  -- The file is `path` below one of the directories, resolved; it is that directory, resolved, or
  -- below it; and a file of the kind is there.
  abbrev pub Within : List Str → Str → Str → Kind → Type 0
  Within dirs path full_path kind =
      (dir : Str) × Elem dir dirs
      × (full_path ≡ resolved (os.path_join dir path))
      × (os.commonpath full_path (resolved dir) ≡ some (resolved dir))
      × (os.stat full_path ≡ is kind)

  abbrev pub IsSafe : List Str → Str → Found → Type 0
  IsSafe dirs path (found full_path kind) = Within dirs path full_path kind
  IsSafe dirs path f = Unit

  IsSafe-cons :
      (dir : Str) (dirs : List Str) (path : Str) (f : Found)
      → IsSafe dirs path f
      → IsSafe (dir ∷ dirs) path f
  IsSafe-cons dir dirs path (found full_path kind) (d, m, r, c, s) = (d, inr m, r, c, s)
  IsSafe-cons dir dirs path _ h = tt

  found_at-IsSafe :
      (dir : Str) (dirs : List Str) (path : Str) (s : Stat) (rest : Found)
      → os.stat (resolved (os.path_join dir path)) ≡ s
      → os.commonpath (resolved (os.path_join dir path)) (resolved dir) ≡ some (resolved dir)
      → IsSafe dirs path rest
      → IsSafe (dir ∷ dirs) path (found_at os files (resolved (os.path_join dir path)) s rest)
  unfolding found_at
  found_at-IsSafe dir dirs path (is kind) rest e c h = (dir, inl refl, refl, c, e)
  found_at-IsSafe dir dirs path missing rest e c h = IsSafe-cons dir dirs path rest h
  found_at-IsSafe dir dirs path denied rest e c h = tt
  found_at-IsSafe dir dirs path too_long rest e c h = tt
  found_at-IsSafe dir dirs path failing rest e c h = tt

  lookup_in-IsSafe :
      (dirs : List Str) (path : Str) → IsSafe dirs path (lookup_in os files dirs path)
  unfolding lookup_in resolve
  lookup_in-IsSafe [] path = tt
  lookup_in-IsSafe (dir ∷ dirs) path =
      by_common (os.commonpath full (resolved dir)) refl (lookup_in-IsSafe dirs path)
    where
      full : Str
      full = resolved (os.path_join dir path)

      rest : Found
      rest = lookup_in os files dirs path

      by_common :
          (o : Option Str)
          → os.commonpath full (resolved dir) ≡ o
          → IsSafe dirs path rest
          → IsSafe (dir ∷ dirs) path (elim o [
            | none ↦ bad_value
            | some common ↦
                if not (common == resolved dir)
                then rest
                else found_at os files full (os.stat full) rest
          ])
      by_common none e h = tt
      by_common (some common) e h = elim (Bool-cases (common == resolved dir)) [
        | inl same ↦ rw same (
            found_at-IsSafe dir dirs path (os.stat full) rest refl
              (e ∙ ap some ((==_iff common (resolved dir)).0 same)) h)
        | inr other ↦ rw other (IsSafe-cons dir dirs path rest h)
      ]

  -- what an answer to a path may be
  abbrev pub Serves : Str → Answer → Type 0
  Serves path (file full_path) =
      Within files.all_directories path full_path regular
      ⊎ (files.html ≡ true)
        × Within files.all_directories (os.path_join path (codes "index.html")) full_path regular
  Serves path (not_found_page full_path) =
      (files.html ≡ true) × Within files.all_directories (codes "404.html") full_path regular
  Serves path answer = Unit

  lookup_path-IsSafe : (path : Str) → IsSafe files.all_directories path (lookup_path os files path)
  unfolding lookup_path
  lookup_path-IsSafe path = lookup_in-IsSafe files.all_directories path

  not_found-Serves : (path : Str) → Serves path (not_found os files)
  unfolding not_found
  not_found-Serves path =
      by_html files.html (lookup_path os files (codes "404.html")) refl
        (lookup_path-IsSafe (codes "404.html"))
    where
      page : Found → Answer
      page f = elim f [
        | found full_path kind ↦ elim kind [
          | regular ↦ not_found_page full_path
          | other ↦ raises (http_exception 404 [])
        ]
        | nothing ↦ raises (http_exception 404 [])
        | bad_value ↦ raises value_error
        | other ↦ raises os_error
      ]

      by_html :
          (b : Bool) (f : Found)
          → files.html ≡ b
          → IsSafe files.all_directories (codes "404.html") f
          → Serves path (if b then page f else raises (http_exception 404 []))
      by_html false f e h = tt
      by_html true (found full_path regular) e h = (e, h)
      by_html true (found full_path directory) e h = tt
      by_html true (found full_path other_kind) e h = tt
      by_html true _ e h = tt

  index_response-Serves :
      (path : Str) (has_slash : Bool)
      → files.html ≡ true
      → Serves path (index_response os files path has_slash)
  unfolding index_response
  index_response-Serves path has_slash html =
      by_found has_slash (lookup_path os files (os.path_join path (codes "index.html")))
        (lookup_path-IsSafe (os.path_join path (codes "index.html")))
    where
      index : Bool → Found → Answer
      index b f = elim f [
        | found full_path kind ↦ elim kind [
          | regular ↦ if not b then redirect else file full_path
          | other ↦ not_found os files
        ]
        | nothing ↦ not_found os files
        | bad_value ↦ raises value_error
        | other ↦ raises os_error
      ]

      by_found :
          (b : Bool) (f : Found)
          → IsSafe files.all_directories (os.path_join path (codes "index.html")) f
          → Serves path (index b f)
      by_found true (found full_path regular) h = inr (html, h)
      by_found false (found full_path regular) h = tt
      by_found b (found full_path directory) h = not_found-Serves path
      by_found b (found full_path other_kind) h = not_found-Serves path
      by_found b nothing h = not_found-Serves path
      by_found b _ h = tt

  found_response-Serves :
      (path : Str) (has_slash : Bool) (f : Found)
      → IsSafe files.all_directories path f
      → Serves path (found_response os files path has_slash f)
  unfolding found_response
  found_response-Serves path has_slash (found full_path regular) h = inl h
  found_response-Serves path has_slash (found full_path directory) h = by_html files.html refl
    where
      by_html :
          (b : Bool)
          → files.html ≡ b
          → Serves path (if b then index_response os files path has_slash else not_found os files)
      by_html true e = index_response-Serves path has_slash e
      by_html false e = not_found-Serves path
  found_response-Serves path has_slash (found full_path other_kind) h = not_found-Serves path
  found_response-Serves path has_slash nothing h = not_found-Serves path
  found_response-Serves path has_slash _ h = tt

  -- Whatever the path, the method and the file system are: a file that is served is the path below
  -- one of the configured directories, with `abspath` applied to it, or `realpath` where symbolic
  -- links are not followed; or, in HTML mode, `index.html` below that path; or, for status 404 in
  -- HTML mode, `404.html`. In each case it is a regular file, and the directory, resolved in the same
  -- way, is the common path of both.
  pub get_response-Serves :
      (path method scope_path : Str) → Serves path (get_response os files path method scope_path)
  unfolding get_response
  get_response-Serves path method scope_path =
      by_method (not ((method == codes "GET") || (method == codes "HEAD")))
    where
      response : Answer
      response =
          found_response os files path (ends_with (codes "/") scope_path)
            (lookup_path os files path)

      by_method : (b : Bool) → Serves path (if b then raises (http_exception 405 []) else response)
      by_method true = tt
      by_method false =
          found_response-Serves path _ (lookup_path os files path) (lookup_path-IsSafe path)
