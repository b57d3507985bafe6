-- ===== src/Routing/Tests.antt =====
-- Runs of the routing of starlette/routing.py on concrete requests.
use starlette.Prelude.{
  ◌≡◌, refl, ◌⊎◌, ◌↔◌, All, List, [], ◌∷◌, ◌++◌, some, none, Bool, true, false, list_beq, contains,
}
use starlette.Prelude.Text.{Str, codes, str_eq, is_digit, starts_with, ends_with}
use starlette.Prelude.Dict.{Dict, lookup, insert, or_else}
use starlette.Prelude.Result.{ok, raise, type_error, no_match_found}
use starlette.Prelude.Int.{pos}
use starlette.Prelude.Decimal.{read_nat}
use starlette.Datastructures.Url.{UrlScope, scope_url}
use starlette.Convertors.{int, Convertor, Objects, run_length, count_down, integer_prefixes}
use starlette.Convertors.Laws.{integer_prefixes_lem}
use starlette.Routing.Path.{
  Part, literal, group, Groups, match_parts, first_match, at_end, convert_groups, replace_params,
  Compiled, Found, compile_path, find_params, scan_param, scan_convertor, name_length,
  is_name_start, is_name_char, add_params, replace_params_from,
}
use starlette.Routing.Path.Template.{IsTemplate}
use starlette.Routing.Path.Compile.{Fits, compile_path-Fits}
use starlette.Routing.Routes.{
  RouteInfo, RouterInfo, router, route, Routes, nil, cons, request_response, callable,
}
use starlette.Routing.Scope.{Kind, http, websocket, Scope, ChildScope, route_path, get_route_path}
use starlette.Routing.Matches.{
  partial, route_matches, mount_child, match_params, wrong_method, matches,
}
use starlette.Routing.Dispatch.{
  redirected, updated, dispatch, run_app, any_match, redirect_scope, with_router, unmatched,
  toggled_slash,
}
use starlette.Routing.Reverse.{UrlPath, or_next, routes_url, endpoint_url, keys_in}
use starlette.Routing.Reverse.Laws.{FindsNone, IsFirst, routes_url-IsFirst}
use starlette.Routing.Dispatch.Select.{
  first_full, first_partial, handled, selected, dispatch-select,
}
use starlette.Routing.Dispatch.Laws.{Agrees, route_handle-matches, mount_child-route_path}
use starlette.Routing.Dispatch.Redirect.{IsRedirected, run_app-redirected}

-- the `int` convertor, as far as it needs no other class of objects
abbrev digits : Convertor Bool
digits = record {
  prefixes = integer_prefixes;
  convert = λ s. ok (int (pos (read_nat s)));
  to_string = λ v. raise type_error;
}

-- `/items/{id:int}`
abbrev item_path : List (Part Bool)
item_path = literal (codes "/items/") ∷ group (codes "id") digits ∷ literal [] ∷ []

abbrev item_groups : Groups
item_groups = (codes "id", codes "42") ∷ []

abbrev item_types : Dict Str (Convertor Bool)
item_types = (codes "int", digits) ∷ []

abbrev item_compiled : Compiled Bool
item_compiled = record {
  regex = item_path;
  format = codes "/items/{id}";
  convertors = (codes "id", digits) ∷ [];
}

item_compiled_lem : compile_path item_types (codes "/items/{id:int}") ≡ ok item_compiled
unfolding compile_path find_params scan_param scan_convertor name_length is_name_start is_name_char
    run_length add_params lookup insert list_beq starts_with is_digit
item_compiled_lem = refl

abbrev id_found : List Found
id_found =
    record {
      before = codes "/items/";
      param = record { name = codes "id"; convertor = codes "int"; size = 8 };
    }
    ∷ []

compile_path-Fits_example :
    (fs : List Found) × (tail : Str) × IsTemplate fs tail (codes "/items/{id:int}")
    × Fits item_types ((codes "id", digits) ∷ []) fs tail (codes "/items/42") item_groups
unfolding match_parts first_match at_end starts_with integer_prefixes count_down run_length list_beq
    is_digit
compile_path-Fits_example =
    compile_path-Fits item_types (codes "/items/{id:int}") item_compiled (codes "/items/42")
      item_groups ((λ s n m. (integer_prefixes_lem s n m).1), tt) item_compiled_lem refl

abbrev item_route : RouteInfo Bool
item_route = record {
  path = codes "/items/{id:int}";
  endpoint = record { id = 1; name = codes "item"; is_function = true };
  name = codes "item";
  methods = some (codes "GET" ∷ []);
  compiled = record {
    regex = item_path;
    format = codes "/items/{id}";
    convertors = (codes "id", digits) ∷ [];
  };
}

abbrev request_url : Str → UrlScope
request_url path = record {
  scheme = codes "http";
  server = some (codes "example.org", some 80);
  path = path;
  query_string = [];
  headers = [];
}

abbrev request : Str → Str → Scope Bool
request method path = record {
  kind = http;
  url = request_url path;
  method = method;
  root_path = [];
  app_root_path = none;
  path_params = [];
  target = none;
  in_app = true;
  router = none;
}

abbrev routes : Routes Bool
routes = cons (route item_route (request_response 1)) nil

dispatch-select_example :
    dispatch routes (request (codes "POST") (codes "/items/42")) none
    ≡ selected
        (request (codes "POST") (codes "/items/42"))
        (first_full (request (codes "POST") (codes "/items/42")) routes)
        (or_else none (
          handled
            (request (codes "POST") (codes "/items/42"))
            (first_partial (request (codes "POST") (codes "/items/42")) routes)))
dispatch-select_example = dispatch-select (request (codes "POST") (codes "/items/42")) routes none

abbrev child : ChildScope Bool
child =
    mount_child (callable 2 nil) (request (codes "GET") (codes "/api/items")) (codes "/items") []

mount_child-route_path_example :
    (route_path (updated (request (codes "GET") (codes "/api/items")) (some child))
      ≡ codes "/items")
    × ((updated (request (codes "GET") (codes "/api/items")) (some child)).root_path ≡ codes "/api")
    × (codes "/api/items" ≡ codes "/api" ++ codes "/items")
unfolding route_path get_route_path
mount_child-route_path_example =
    mount_child-route_path (callable 2 nil) (request (codes "GET") (codes "/api/items"))
      (codes "/api") (codes "items") [] refl refl

abbrev found_child : ChildScope Bool
found_child = record {
  target = starlette.Routing.Scope.endpoint 1;
  path_params = (codes "id", int (pos 42)) ∷ [];
  roots = none;
}

route_handle-matches_example :
    Agrees item_route
      (request_response 1)
      (request (codes "POST") (codes "/items/42"))
      partial
      (some found_child)
unfolding route_matches match_params match_parts convert_groups first_match at_end starts_with
    integer_prefixes count_down run_length list_beq is_digit lookup contains wrong_method route_path
    get_route_path read_nat
route_handle-matches_example =
    route_handle-matches item_route (request_response 1)
      (request (codes "POST") (codes "/items/42")) partial (some found_child) refl

abbrev info : RouterInfo
info = record { redirect_slashes = true; default = none }

abbrev slashed : Scope Bool
slashed = request (codes "GET") (codes "/items/42/")

run_app-redirected_example :
    run_app (router info routes) slashed ≡ redirected (codes "http://example.org/items/42") ↔ (
      ((slashed.kind ≡ http) ⊎ (slashed.kind ≡ websocket))
        × (dispatch routes (with_router info routes slashed) none
            ≡ some (redirected (codes "http://example.org/items/42")))
      ⊎ IsRedirected info routes slashed (codes "http://example.org/items/42"))
run_app-redirected_example =
    run_app-redirected info routes slashed (codes "http://example.org/items/42")

-- the left side of that equivalence holds
slashed_redirected :
    run_app (router info routes) slashed ≡ redirected (codes "http://example.org/items/42")
unfolding run_app redirect_scope with_router unmatched matches any_match toggled_slash scope_url
    route_matches match_params match_parts convert_groups first_match at_end starts_with
    integer_prefixes count_down run_length list_beq is_digit lookup contains wrong_method route_path
    get_route_path read_nat ends_with
slashed_redirected = refl

abbrev about_route : RouteInfo Bool
about_route = record {
  path = codes "/about";
  endpoint = record { id = 2; name = codes "about"; is_function = true };
  name = codes "about";
  methods = none;
  compiled = record {
    regex = literal (codes "/about") ∷ [];
    format = codes "/about";
    convertors = [];
  };
}

abbrev two_routes : Routes Bool
two_routes =
    cons (route item_route (request_response 1)) (cons (route about_route (request_response 2)) nil)

abbrev about_url : UrlPath
about_url = record { path = codes "/about"; protocol = codes "http"; host = [] }

abbrev lib : Objects Bool
lib = record {
  show = λ o. [];
  int_of = λ v. raise type_error;
  float_of = λ v. raise type_error;
  is_nonnegative = λ o. true;
  is_nan = λ o. false;
  is_inf = λ o. false;
  format_20f = λ o. [];
  uuid_of = λ s. raise type_error;
}

routes_url-IsFirst_example :
    ((routes_url lib two_routes (codes "about") [] ≡ ok about_url)
      ↔ IsFirst lib
          (codes "about")
          []
          (route item_route (request_response 1) ∷ route about_route (request_response 2) ∷ [])
          about_url)
    × ((routes_url lib two_routes (codes "about") [] ≡ raise no_match_found)
        ↔ All
            (FindsNone lib (codes "about") [])
            (route item_route (request_response 1) ∷ route about_route (request_response 2) ∷ []))
routes_url-IsFirst_example = routes_url-IsFirst lib (codes "about") [] two_routes about_url

about_found : routes_url lib two_routes (codes "about") [] ≡ ok about_url
unfolding routes_url or_next endpoint_url keys_in replace_params replace_params_from lookup list_beq
about_found = refl
