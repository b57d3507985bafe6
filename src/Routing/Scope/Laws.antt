-- ===== src/Routing/Scope/Laws.antt =====
-- The path that a route sees under a root.
use starlette.Prelude.{◌≡◌, refl, [], ◌∷◌, ◌++◌, arith, nat_eq, drop-length_append, true}
use starlette.Prelude.Text.{Str, starts_with}
use starlette.Routing.Scope.{get_route_path}

starts_with-append : (t s : Str) → starts_with t (t ++ s) ≡ true
unfolding starts_with
starts_with-append [] s = refl
starts_with-append (c ∷ t) s = ground (arith, starts_with-append t s)

-- Below a root, `get_route_path` is what follows the root, if that begins with a slash.
pub get_route_path-append :
    (root rest : Str) → get_route_path (root ++ b'/' ∷ rest) root ≡ b'/' ∷ rest
unfolding get_route_path
get_route_path-append [] rest = refl
get_route_path-append (c ∷ root) rest =
    rw (starts_with-append (c ∷ root) (b'/' ∷ rest))
      (rw (drop-length_append root (b'/' ∷ rest)) refl)
