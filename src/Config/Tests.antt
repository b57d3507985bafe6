-- ===== src/Config/Tests.antt =====
-- Runs of the environment and the configuration of starlette/config.py.
use starlette.Prelude.{◌≡◌, refl, [], ◌∷◌, none, Bool, true, list_beq}
use starlette.Prelude.Text.{codes, lower, str_eq}
use starlette.Prelude.Dict.{lookup}
use starlette.Prelude.Result.{ok}
use starlette.Config.{
  Environ, getitem, write, delete, after_all, after_all-getitem, Config, get, to_bool, boolean,
  read_lines,
}

abbrev environ : Environ
environ = record { environ = (codes "DEBUG", codes "true") ∷ []; has_been_read = [] }

after_all-getitem_example :
    lookup
      (codes "DEBUG")
      (after_all
        (write (codes "DEBUG") (codes "false") ∷ delete (codes "DEBUG") ∷ [])
        (getitem environ (codes "DEBUG")).1).environ
    ≡ lookup (codes "DEBUG") environ.environ
after_all-getitem_example =
    after_all-getitem (write (codes "DEBUG") (codes "false") ∷ delete (codes "DEBUG") ∷ []) environ
      (codes "DEBUG")

quoted_line :
    read_lines (codes " KEY = \"a=b\" \n" ∷ codes "# X=1\n" ∷ []) []
    ≡ (codes "KEY", codes "a=b") ∷ []
unfolding read_lines
quoted_line = refl

abbrev config : Config
config = record {
  environ = (codes "APP_DEBUG", codes "True") ∷ [];
  env_prefix = codes "APP_";
  file_values = [];
}

prefixed : get {D = Bool} (λ d. d) config (codes "DEBUG") to_bool none ≡ ok (boolean true)
unfolding get lookup list_beq lower
prefixed = refl
