-- ===== src/StaticFiles.antt =====
-- starlette/staticfiles.py: which file `StaticFiles` answers with.
--
-- The functions of `os` and of email.utils are parameters. The headers of a `FileResponse` are given
-- by its path, and the target of a redirect is left out. The search for directories in packages and
-- the check of the configuration are not modelled.
pub mod Laws
pub mod Cached
mod Tests
use starlette.Prelude.{
  ℕ, Bool, true, false, not, ◌&&◌, ◌||◌, Option, none, some, List, [], ◌∷◌, ◌++◌, map, contains,
  ◌==◌, nat_eq, if◌then◌else◌,
}
use starlette.Prelude.Text.{Str, codes, str_eq, split, join, ends_with}
use starlette.Prelude.Result.{Error, Result, ok, raise, http_exception, os_error, value_error}

pub data Kind : Type 0 where
  regular directory other_kind : Kind

-- what `os.stat` comes to
pub data Stat : Type 0 where
  is : Kind → Stat
  -- `FileNotFoundError` and `NotADirectoryError`
  missing : Stat
  -- `PermissionError`, an `OSError` with `ENAMETOOLONG`, and any other
  denied too_long failing : Stat

pub record Os : Type 0 where
  pub path_join : Str → Str → Str
  pub realpath : Str → Str
  pub abspath : Str → Str
  -- of two paths; `none` where it raises `ValueError`
  pub commonpath : Str → Str → Option Str
  pub normpath : Str → Str
  pub stat : Str → Stat

-- what `lookup_path` comes to
pub data Found : Type 0 where
  found : Str → Kind → Found
  nothing : Found
  not_permitted name_too_long os_fails bad_value : Found

pub record StaticFiles : Type 0 where
  pub all_directories : List Str
  pub html : Bool
  pub follow_symlink : Bool

module _ (os : Os) (files : StaticFiles) where
  -- `abspath` or `realpath`
  unfoldable pub resolve : Str → Str
  resolve path = if files.follow_symlink then os.abspath path else os.realpath path

  -- the `try` around `os.stat`, with what the loop gives for the other directories
  unfoldable pub found_at : Str → Stat → Found → Found
  found_at full_path (is kind) rest = found full_path kind
  found_at full_path missing rest = rest
  found_at full_path denied rest = not_permitted
  found_at full_path too_long rest = name_too_long
  found_at full_path failing rest = os_fails

  unfoldable pub lookup_in : List Str → Str → Found
  unfolding resolve found_at
  lookup_in [] path = nothing
  lookup_in (dir ∷ dirs) path =
      let full_path = resolve (os.path_join dir path) in
      let rest = lookup_in dirs path in
      elim (os.commonpath full_path (resolve dir)) [
        | none ↦ bad_value
        | some common ↦
            if not (common == resolve dir)
            then rest
            else found_at full_path (os.stat full_path) rest
      ]

  -- `lookup_path`
  unfoldable pub lookup_path : Str → Found
  unfolding lookup_in
  lookup_path path = lookup_in files.all_directories path

  -- `get_path`, of the route path: the parts between its slashes, joined and normalised
  unfoldable pub join_to : Str → List Str → Str
  join_to path [] = path
  join_to path (part ∷ parts) = join_to (os.path_join path part) parts

  unfoldable pub get_path : Str → Str
  unfolding join_to split
  get_path route_path = elim (split b'/' route_path) [
    | [] ↦ os.normpath []
    | part ∷ parts ↦ os.normpath (join_to part parts)
  ]

-- what `get_response` comes to
pub data Answer : Type 0 where
  -- `file_response(full_path)`, and `FileResponse(full_path, status_code=404)`
  file : Str → Answer
  not_found_page : Str → Answer
  -- a `RedirectResponse` to the path with a slash
  redirect : Answer
  raises : Error → Answer

module _ (os : Os) (files : StaticFiles) where
  -- the end of `get_response`
  unfoldable pub not_found : Answer
  unfolding lookup_path
  not_found =
      if files.html
      then (elim (lookup_path os files (codes "404.html")) [
        | found full_path kind ↦ elim kind [
          | regular ↦ not_found_page full_path
          | other ↦ raises (http_exception 404 [])
        ]
        | nothing ↦ raises (http_exception 404 [])
        | bad_value ↦ raises value_error
        | other ↦ raises os_error
      ])
      else raises (http_exception 404 [])

  -- a directory in HTML mode; `has_slash` says that the path of the scope ends with one
  unfoldable pub index_response : Str → Bool → Answer
  unfolding lookup_path not_found
  index_response path has_slash =
      elim (lookup_path os files (os.path_join path (codes "index.html"))) [
        | found full_path kind ↦ elim kind [
          | regular ↦ if not has_slash then redirect else file full_path
          | other ↦ not_found
        ]
        | nothing ↦ not_found
        | bad_value ↦ raises value_error
        | other ↦ raises os_error
      ]

  -- the file, the directory or the error that the path gives
  unfoldable pub found_response : Str → Bool → Found → Answer
  unfolding index_response not_found
  found_response path has_slash (found full_path regular) = file full_path
  found_response path has_slash (found full_path directory) =
      if files.html then index_response path has_slash else not_found
  found_response path has_slash (found full_path other_kind) = not_found
  found_response path has_slash nothing = not_found
  found_response path has_slash not_permitted = raises (http_exception 401 [])
  found_response path has_slash name_too_long = raises (http_exception 404 [])
  found_response path has_slash os_fails = raises os_error
  found_response path has_slash bad_value = raises value_error

  -- `get_response`
  unfoldable pub get_response : Str → (method scope_path : Str) → Answer
  unfolding found_response lookup_path ends_with
  get_response path method scope_path =
      if not ((method == codes "GET") || (method == codes "HEAD"))
      then raises (http_exception 405 [])
      else found_response path (ends_with (codes "/") scope_path) (lookup_path os files path)
