-- ===== src/Routing/Scope.antt =====
-- The ASGI scope, as the routing reads and changes it, and `get_route_path` of
-- starlette/_utils.py.
pub mod Laws
use starlette.Prelude.{
  ℕ, Bool, Option, none, some, List, [], ◌∷◌, length, drop, ◌==◌, nat_eq, if◌then◌else◌,
}
use starlette.Prelude.Text.{Str, codes, str_eq, starts_with}
use starlette.Prelude.Dict.{Dict}
use starlette.Datastructures.Headers.{RawHeaders}
use starlette.Datastructures.Url.{UrlScope}
use starlette.Convertors.{Value}
use starlette.Routing.Routes.{App}

-- `scope["type"]`
pub data Kind : Type 0 where
  http websocket lifespan : Kind

-- what stands under `scope["endpoint"]`
pub data Target (O : Type 0) : Type 0 where
  endpoint : ℕ → Target O
  application : App O → Target O

pub record Scope (O : Type 0) : Type 0 where
  pub kind : Kind
  -- `scheme`, `server`, `path`, `query_string` and `headers`
  pub url : UrlScope
  pub open url use *
  pub method : Str
  -- the empty text where the key is missing
  pub root_path : Str
  pub app_root_path : Option Str
  -- empty where the key is missing
  pub path_params : Dict Str (Value O)
  pub target : Option (Target O)
  -- `"app" in scope`
  pub in_app : Bool
  -- `scope["router"]`
  pub router : Option (App O)

-- the keys that a match hands to `scope.update`
pub record ChildScope (O : Type 0) : Type 0 where
  pub target : Target O
  pub path_params : Dict Str (Value O)
  -- `app_root_path` and `root_path`, which only a mount sets
  pub roots : Option (Str × Str)

-- the path behind a root that it starts with
behind_root : Str → Str → Str
behind_root path [] = []
behind_root path (d ∷ rest) = if d == b'/' then d ∷ rest else path

-- `get_route_path`, of `path` and `root_path`
unfoldable pub get_route_path : Str → Str → Str
unfolding starts_with behind_root
get_route_path path [] = path
get_route_path path (c ∷ root) =
    if starts_with (c ∷ root) path then behind_root path (drop (length (c ∷ root)) path) else path

unfoldable pub route_path : {O : Type 0} → Scope O → Str
route_path scope = get_route_path scope.path scope.root_path
