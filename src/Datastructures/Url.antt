-- ===== src/Datastructures/Url.antt =====
-- `URL.__init__` of starlette/datastructures.py, the branch that builds the text of a URL from an
-- ASGI scope. `URL(url=…)` keeps the text that it is given.
pub mod Parts
use starlette.Prelude.{ℕ, Option, none, some, [], ◌∷◌, ◌++◌, ◌==◌, nat_eq, if◌then◌else◌}
use starlette.Prelude.Text.{Str, codes, str_eq}
use starlette.Prelude.Decimal.{show_nat}
use starlette.Prelude.Dict.{Dict, lookup}
use starlette.Prelude.Result.{Result, ok, raise, key_error, ◌>>=◌}
use starlette.Datastructures.Headers.{RawHeaders}

-- the keys of the scope that `URL` reads; the query string is ASCII, as the server leaves it
pub record UrlScope : Type 0 where
  pub scheme : Str
  pub server : Option (Str × Option ℕ)
  pub path : Str
  pub query_string : Str
  pub headers : RawHeaders

-- the first header named `host`, as it stands, without a change of case
host_header : RawHeaders → Option Str
host_header [] = none
host_header ((key, value) ∷ headers) =
    if key == codes "host" then some value else host_header headers

default_ports : Dict Str ℕ
default_ports =
    (codes "http", 80) ∷ (codes "https", 443) ∷ (codes "ws", 80) ∷ (codes "wss", 443) ∷ []

-- `f"{host}:{port}"`, without the port where it is the default one
with_port : Str → Option ℕ → ℕ → Str
with_port host none default = host ++ codes ":None"
with_port host (some port) default =
    if port == default then host else host ++ (codes ":" ++ show_nat port)

origin : Str → Option (Str × Option ℕ) → Str → Result Str
unfolding default_ports lookup with_port
origin scheme none path = ok path
origin scheme (some (host, port)) path = elim (lookup scheme default_ports) [
  | none ↦ raise key_error
  | some default ↦ ok (scheme ++ (codes "://" ++ (with_port host port default ++ path)))
]

-- the text of `URL(scope=scope)`
unfoldable pub scope_url : UrlScope → Result Str
unfolding host_header origin
scope_url s = do
  url ← elim (host_header s.headers) [
    | some host ↦ ok (s.scheme ++ (codes "://" ++ (host ++ s.path)))
    | none ↦ origin s.scheme s.server s.path
  ]
  ok (elim s.query_string [ [] ↦ url | c ∷ q ↦ url ++ (codes "?" ++ (c ∷ q)) ])
