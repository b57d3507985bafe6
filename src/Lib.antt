-- ===== src/Lib.antt =====
-- A model of the core of Starlette, an ASGI toolkit, and theorems about it.
--
-- An ASGI server calls an application with a scope and two functions, to receive and to send
-- messages. A request goes through the middleware to a router, which matches its path against
-- compiled path templates, converts the parameters and hands it to an endpoint; responses and web
-- sockets send messages back. Headers, query parameters and form data are multidicts.
--
-- * Datastructures/Headers, MultiDict, State and Url model `Headers`, `MutableHeaders`,
--   `ImmutableMultiDict`, `MultiDict`, `State` and `URL` of a scope, of starlette/datastructures.py;
--   Datastructures/Url/Parts has `URL.replace` and `URLPath.make_absolute_url`.
--   An object that is mutated is passed on as a new value; a call that raises returns a `Result`.
-- * Convertors models starlette/convertors.py. A regular expression is the list of the lengths that
--   a backtracking matcher tries at a place.
-- * Routing models starlette/routing.py and `get_route_path` of starlette/_utils.py: Path has
--   `compile_path`, the match and `replace_params`, and Path/Template says how parameters stand in a
--   template; Routes the classes and Routes/Build their
--   constructors; Matches the method `matches`; Dispatch `handle`, `Router.app` and
--   `BaseRoute.__call__`; Reverse `url_path_for`. What a call comes to is a value of `Outcome`.
-- * Websockets models `WebSocket` of starlette/websockets.py as a state machine over a server that
--   can lose the connection; Websockets/Protocol states the order of messages that ASGI asks for.
-- * Responses models starlette/responses.py: `Response.init_headers`; the byte ranges, the sending
--   loops and `__call__` of `FileResponse`, where a loop runs on fuel, and its theorem says how much
--   is enough: one turn more than the bytes that are left. Responses/Sending has `__call__` of
--   `Response` and of `StreamingResponse` over a server that takes so many messages, and
--   Responses/Cookies `set_cookie` and `RedirectResponse`. Background models the task lists of
--   starlette/background.py.
-- * Middleware/Cors models starlette/middleware/cors.py, and Middleware/Exceptions models
--   starlette/_exception_handler.py with starlette/middleware/exceptions.py; Middleware/Gzip models
--   starlette/middleware/gzip.py, with the compressor of the package gzip as a parameter;
--   Middleware/TrustedHost models starlette/middleware/trustedhost.py.
--   Middleware/ServerErrors models `ServerErrorMiddleware` of starlette/middleware/errors.py,
--   Middleware/Sessions starlette/middleware/sessions.py, Middleware/Authentication
--   starlette/authentication.py with starlette/middleware/authentication.py, and Middleware/Cached
--   `_CachedRequest` of starlette/middleware/base.py. Middleware/Base models `BaseHTTPMiddleware`
--   there over the list of messages that the application below sends.
-- * Requests models starlette/requests.py: cookies and the values of a scope there, and the stream
--   and the body of a request in Requests/Stream, over the queue of the messages of the server; an
--   asynchronous generator is the place where it stands. Reading a body has a turn for each message
--   as fuel, and three more, which its theorem shows to be enough.
-- * Forms models starlette/formparsers.py, Forms/Urlencoded `FormParser` and Forms/Multipart
--   `MultiPartParser`, as what the callbacks of a tokenizer do to a state.
-- * Routing/Lifespan models `Router.lifespan` with its contexts and event handlers; Applications
--   models `Starlette` of starlette/applications.py; Endpoints models starlette/endpoints.py, with
--   the loop of a web socket on fuel for each message; StaticFiles models starlette/staticfiles.py,
--   with a file system as a parameter.
-- * Config models starlette/config.py, with a file as the list of its lines.
-- * Prelude holds what these share: texts as lists of code points, signed integers, decimal
--   notation, dictionaries in the order of insertion, and results of calls that may raise.
--
-- What lies outside is a parameter: endpoints and other ASGI callables are numbers, the objects of
-- `float` and `uuid` are a type with the functions that are used of it, and a pattern that `re`
-- compiles is the test that it makes. Texts are lower-cased by a function that is exact for latin-1,
-- which headers are in. Limits of Python on the length of numbers, warnings, and the order of a
-- joined set are not modelled; nor are cancelled tasks, the parts that only call other packages
-- (templates, schemas, the test client, WSGI, thread pools) and, for now, the query
-- parameters of URLs and the task groups of `BaseHTTPMiddleware` and of older servers.
pub mod Prelude
pub mod Datastructures
pub mod Applications
pub mod Config
pub mod Background
pub mod Convertors
pub mod Endpoints
pub mod Forms
pub mod Middleware
pub mod Responses
pub mod Routing
pub mod Requests
pub mod StaticFiles
pub mod Websockets
