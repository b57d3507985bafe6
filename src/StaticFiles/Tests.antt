-- ===== src/StaticFiles/Tests.antt =====
-- A small file system.
use starlette.Prelude.{true, false, some, [], ◌∷◌, ◌++◌, ◌==◌, if◌then◌else◌, nat_eq}
use starlette.Prelude.Text.{codes, str_eq, starts_with}
use starlette.StaticFiles.{Os, StaticFiles, is, missing, regular, get_response}
use starlette.StaticFiles.Laws.{Serves, get_response-Serves}

abbrev os : Os
os = record {
  path_join = λ a b. a ++ codes "/" ++ b;
  realpath = λ p. codes "/srv" ++ p;
  abspath = λ p. p;
  commonpath = λ a b. if starts_with b a then some b else some (codes "/");
  normpath = λ p. p;
  stat = λ p. if p == codes "/srv/static/a.css" then is regular else missing;
}

abbrev files : StaticFiles
files = record { all_directories = codes "/static" ∷ []; html = true; follow_symlink = false }

get_response-Serves_example :
    Serves os files
      (codes "a.css")
      (get_response os files (codes "a.css") (codes "GET") (codes "/a.css"))
get_response-Serves_example =
    get_response-Serves os files (codes "a.css") (codes "GET") (codes "/a.css")
