-- ===== src/Routing/Routes.antt =====
-- The route classes of starlette/routing.py: their constructors, as far as matching and dispatch
-- read what they build.
--
-- An ASGI callable that the library does not define is a number. A `Starlette` application or any
-- other callable with a `routes` attribute is a `callable` with those routes.
pub mod Build
use starlette.Prelude.{ℕ, Bool, Option, List}
use starlette.Prelude.Text.{Str}
use starlette.Routing.Path.{Compiled}

-- an endpoint: `get_name(endpoint)`, and whether `inspect` finds a function or a method
pub record Endpoint : Type 0 where
  pub id : ℕ
  pub name : Str
  pub is_function : Bool

pub record RouteInfo (O : Type 0) : Type 0 where
  pub path : Str
  pub endpoint : Endpoint
  pub name : Str
  -- a `set`, `none` for `None`
  pub methods : Option (List Str)
  pub compiled : Compiled O

pub record WebSocketRouteInfo (O : Type 0) : Type 0 where
  pub path : Str
  pub endpoint : Endpoint
  pub name : Str
  pub compiled : Compiled O

pub record MountInfo (O : Type 0) : Type 0 where
  pub path : Str
  pub name : Option Str
  pub compiled : Compiled O

pub record HostInfo (O : Type 0) : Type 0 where
  pub host : Str
  pub name : Option Str
  pub compiled : Compiled O

pub record RouterInfo : Type 0 where
  pub redirect_slashes : Bool
  -- `none` for the method `not_found`
  pub default : Option ℕ

mutual
  pub data BaseRoute (O : Type 0) : Type 0 where
    -- the last argument is `self.app`
    route : RouteInfo O → App O → BaseRoute O
    websocket_route : WebSocketRouteInfo O → App O → BaseRoute O
    -- `_base_app`, and `self.app`
    mount : MountInfo O → App O → App O → BaseRoute O
    host : HostInfo O → App O → BaseRoute O

  pub data Routes (O : Type 0) : Type 0 where
    nil : Routes O
    cons : BaseRoute O → Routes O → Routes O

  pub data App (O : Type 0) : Type 0 where
    -- `request_response(endpoint)` and `websocket_session(endpoint)`
    request_response websocket_session : ℕ → App O
    callable : ℕ → Routes O → App O
    -- `cls(app, *args, **kwargs)` for a middleware
    wrapped : ℕ → App O → App O
    -- `Router.app`
    router : RouterInfo → Routes O → App O

-- `getattr(app, "routes", [])`
unfoldable pub routes_of : {O : Type 0} → App O → Routes O
routes_of (callable n routes) = routes
routes_of (router info routes) = routes
routes_of (request_response n) = nil
routes_of (websocket_session n) = nil
routes_of (wrapped n app) = nil
