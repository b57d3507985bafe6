-- ===== src/Datastructures/Url/Parts.antt =====
-- `URL.replace`, `URL.is_secure` and `URLPath.make_absolute_url` of starlette/datastructures.py, with
-- `urlsplit` and what its result has as parameters.
use starlette.Prelude.{
  ℕ, Bool, ◌||◌, ◌≡◌, ap, sym, ◌∙◌, arith, Option, none, some, [], ◌∷◌, ◌++◌, ◌==◌, nat_eq,
  if◌then◌else◌,
}
use starlette.Prelude.Text.{Str, codes, str_eq, rstrip}
use starlette.Prelude.Decimal.{show_nat}
use starlette.Prelude.Dict.{is_some}
use starlette.Prelude.Result.{Result, ok, raise, index_error, key_error, ◌>>=◌}
use starlette.Routing.Reverse.{UrlPath}

-- `SplitResult`
pub record Components : Type 0 where
  pub scheme : Str
  pub netloc : Str
  pub path : Str
  pub query : Str
  pub fragment : Str

-- what urllib computes: `port` raises where the text is no port
pub record Library : Type 0 where
  pub urlsplit : Str → Result Components
  pub geturl : Components → Str
  pub username : Components → Option Str
  pub password : Components → Option Str
  pub port : Components → Result (Option ℕ)

-- the keyword arguments: none where one is not given, and `some none` where it is `None`
pub record Arguments : Type 0 where
  pub scheme : Option Str
  pub netloc : Option Str
  pub path : Option Str
  pub query : Option Str
  pub fragment : Option Str
  pub username : Option (Option Str)
  pub password : Option (Option Str)
  pub hostname : Option (Option Str)
  pub port : Option (Option ℕ)

-- `kwargs.pop(name, default)`
unfoldable pub or_default : {A : Type 0} → Option A → A → A
or_default none default = default
or_default (some value) default = value

-- the text in front of the last `c` and the text behind it
unfoldable pub split_last : ℕ → Str → Option (Str × Str)
split_last c [] = none
split_last c (d ∷ s) = elim (split_last c s) [
  | some (a, b) ↦ some (d ∷ a, b)
  | none ↦ if d == c then some ([], s) else none
]

-- `s.rpartition(c)[2]`
unfoldable pub behind_last : ℕ → Str → Str
unfolding split_last
behind_last c s = elim (split_last c s) [ none ↦ s | some (a, b) ↦ b ]

-- `s.rsplit(c, 1)[0]`
unfoldable pub before_last : ℕ → Str → Str
unfolding split_last
before_last c s = elim (split_last c s) [ none ↦ s | some (a, b) ↦ a ]

-- `s[-1]`
unfoldable pub last_character : Str → Result ℕ
last_character [] = raise index_error
last_character (c ∷ []) = ok c
last_character (c ∷ d ∷ s) = last_character (d ∷ s)

-- the host in a netloc, with its brackets where it is an IPv6 address
unfoldable pub host_of : Str → Result Str
unfolding behind_last before_last last_character
host_of netloc =
    let host = behind_last b'@' netloc in
    do c ← last_character host; ok (if c == b']' then host else before_last b':' host)

unfoldable pub with_port : Str → Option ℕ → Str
unfolding show_nat
with_port host none = host
with_port host (some port) = host ++ codes ":" ++ show_nat port

unfoldable pub with_user : Option Str → Option Str → Str → Str
with_user none password netloc = netloc
with_user (some username) none netloc = username ++ codes "@" ++ netloc
with_user (some username) (some password) netloc =
    username ++ codes ":" ++ password ++ codes "@" ++ netloc

unfoldable pub has_host_arguments : Arguments → Bool
has_host_arguments a =
    is_some a.username || (is_some a.password || (is_some a.hostname || is_some a.port))

-- the netloc that `replace` puts together
unfoldable pub new_netloc : Library → Components → Arguments → Result Str
unfolding or_default host_of with_port with_user
new_netloc l c a = do
  own_port ← l.port c
  host ← elim (or_default a.hostname none) [ some host ↦ ok host | none ↦ host_of c.netloc ]
  ok (
      with_user (or_default a.username (l.username c)) (or_default a.password (l.password c))
        (with_port host (or_default a.port own_port)))

-- `components._replace(**kwargs)`
unfoldable pub replaced : Components → Arguments → Option Str → Components
unfolding or_default
replaced c a netloc = record {
  scheme = or_default a.scheme c.scheme;
  netloc = or_default netloc c.netloc;
  path = or_default a.path c.path;
  query = or_default a.query c.query;
  fragment = or_default a.fragment c.fragment;
}

-- `URL.replace`, on the text of the URL
unfoldable pub replace : Library → Str → Arguments → Result Str
unfolding has_host_arguments new_netloc replaced
replace l url a = do
  c ← l.urlsplit url
  netloc ←
      if has_host_arguments a then (do netloc ← new_netloc l c a; ok (some netloc)) else ok a.netloc
  ok (l.geturl (replaced c a netloc))

-- `is_secure`, by the scheme
unfoldable pub is_secure : Str → Bool
is_secure scheme = scheme == codes "https" || scheme == codes "wss"

unfoldable pub absolute_scheme : Str → Str → Result Str
unfolding is_secure
absolute_scheme [] scheme = ok scheme
absolute_scheme (c ∷ protocol) scheme =
    if (c ∷ protocol) == codes "http"
    then ok (if is_secure scheme then codes "https" else codes "http")
    else if (c ∷ protocol) == codes "websocket"
    then ok (if is_secure scheme then codes "wss" else codes "ws")
    else raise key_error

-- `self.host or base_url.netloc`
unfoldable pub or_else_text : Str → Str → Str
or_else_text [] default = default
or_else_text (c ∷ s) default = c ∷ s

no_arguments : Arguments
no_arguments = record {
  scheme = none;
  netloc = none;
  path = none;
  query = none;
  fragment = none;
  username = none;
  password = none;
  hostname = none;
  port = none;
}

-- `URL(scheme=scheme, netloc=netloc, path=path)`
unfoldable pub from_components : Library → Str → Str → Str → Result Str
unfolding replace no_arguments
from_components l scheme netloc path = do
  url ←
      replace l []
        (record no_arguments { scheme = some scheme; netloc = some netloc; path = some path })
  components ← l.urlsplit url
  ok (l.geturl components)

-- `URLPath.make_absolute_url`
unfoldable pub make_absolute_url : Library → UrlPath → Str → Result Str
unfolding absolute_scheme or_else_text rstrip from_components
make_absolute_url l p base_url = do
  base ← l.urlsplit base_url
  scheme ← absolute_scheme p.protocol base.scheme
  from_components l scheme (or_else_text p.host base.netloc) (rstrip b'/' base.path ++ p.path)

split_last-append :
    (c : ℕ) (a b : Str) → split_last c b ≡ none → split_last c (a ++ c ∷ b) ≡ some (a, b)
unfolding split_last
split_last-append c [] b e = ground (arith, e)
split_last-append c (d ∷ a) b e = ground (arith, split_last-append c a b e)

behind_last-append : (a b : Str) → split_last b'@' b ≡ none → behind_last b'@' (a ++ b'@' ∷ b) ≡ b
unfolding behind_last
behind_last-append a b e = ground (arith, split_last-append b'@' a b e)

behind_last-none : (s : Str) → split_last b'@' s ≡ none → behind_last b'@' s ≡ s
unfolding behind_last
behind_last-none s e = ground (arith, e)

-- The user in front of the last `@` does not count for the host.
host_of-user :
    (user host : Str) → split_last b'@' host ≡ none → host_of (user ++ b'@' ∷ host) ≡ host_of host
unfolding host_of
host_of-user user host e =
    ap (λ h. do c ← last_character h; ok (if c == b']' then h else before_last b':' h))
      (behind_last-append user host e ∙ sym (behind_last-none host e))
