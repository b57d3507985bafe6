-- ===== src/Applications/Laws.antt =====
-- The middleware stack of an application.
use starlette.Prelude.{
  ◌≡◌, refl, ap, ◌∙◌, ◌↔◌, true, Option, none, some, List, [], ◌∷◌, ◌++◌, arith, if◌then◌else◌,
  ==_iff, nat_eq,
}
use starlette.Prelude.Text.{str_eq}
use starlette.Prelude.Dict.{or_else}
use starlette.Prelude.Result.{ok, raise, runtime_error}
use starlette.Applications.{
  Key, status, exc_class, same_key, is_error_key, set_handler, Starlette, Classes, split_handlers,
  wrap, build_middleware_stack, call, add_middleware, add_exception_handler,
}

same_key_iff : (a b : Key) → (same_key a b ≡ true) ↔ (a ≡ b)
unfolding same_key
same_key_iff (status a) (status b) = ground (arith, ==_iff a b)
same_key_iff (exc_class a) (exc_class b) = ground (arith, ==_iff a b)
same_key_iff (status a) (exc_class b) = ground arith
same_key_iff (exc_class a) (status b) = ground arith

-- the handler that a list of items has last for a key
abbrev pub last_handler : {H : Type 0} → Key → List (Key × H) → Option H
last_handler k [] = none
last_handler k ((j, h) ∷ items) =
    or_else (last_handler k items) (if same_key j k then some h else none)

-- the handler that it has last for the status 500 or the class `Exception`
abbrev pub last_error : {H : Type 0} → List (Key × H) → Option H
last_error [] = none
last_error ((j, h) ∷ items) = or_else (last_error items) (if is_error_key j then some h else none)

-- the handler of a dictionary for a key
abbrev pub find_handler : {H : Type 0} → Key → List (Key × H) → Option H
find_handler k [] = none
find_handler k ((j, h) ∷ items) = if same_key j k then some h else find_handler k items

find_handler-set_handler :
    {H : Type 0} (k j : Key) (h : H) (items : List (Key × H))
    → find_handler k (set_handler j h items)
      ≡ (if same_key j k then some h else find_handler k items)
unfolding set_handler
find_handler-set_handler k j h [] = ground arith
find_handler-set_handler k j h ((i, g) ∷ items) = ground (
  arith,
  same_key_iff i j,
  same_key_iff i k,
  same_key_iff j k,
  find_handler-set_handler k j h items,
)

module _ {H : Type 0} where
  split_handlers_lem :
      (items : List (Key × H)) (error : Option H) (handlers : List (Key × H)) (k : Key)
      → ((split_handlers items error handlers).0 ≡ or_else (last_error items) error)
        × (find_handler k (split_handlers items error handlers).1 ≡ (
            if is_error_key k
            then find_handler k handlers
            else or_else (last_handler k items) (find_handler k handlers)))
  unfolding split_handlers
  split_handlers_lem [] error handlers k = ground arith
  split_handlers_lem ((j, h) ∷ items) error handlers k = ground (
    arith,
    same_key_iff j k,
    split_handlers_lem items (if is_error_key j then some h else error)
        (if is_error_key j then handlers else set_handler j h handlers) k,
    find_handler-set_handler k j h handlers,
  )

wrap-append :
    {A : Type 0} (l : List (A → A)) (cls : A → A) (app : A)
    → wrap (l ++ cls ∷ []) app ≡ wrap l (cls app)
unfolding wrap
wrap-append [] cls app = refl
wrap-append (f ∷ l) cls app = ap f (wrap-append l cls app)

module _ {A H : Type 0} (classes : Classes A H) where
  -- Between the error middleware outside and the exception middleware inside stand the classes of
  -- the program, in their order, with the router innermost. The handler for the status 500 or for
  -- `Exception` goes to the outer one, and the inner one finds every other handler under its key,
  -- and none under those two.
  pub build_middleware_stack_lem :
      (app : Starlette A H)
      → (handlers : List (Key × H)) × (build_middleware_stack classes app
          ≡ classes.server_error
              (last_error app.exception_handlers)
              app.debug
              (wrap app.user_middleware (classes.exception handlers app.debug app.router)))
        × ((k : Key)
            → find_handler k handlers
              ≡ (if is_error_key k then none else last_handler k app.exception_handlers))
  unfolding build_middleware_stack wrap
  build_middleware_stack_lem app = (
    (split_handlers app.exception_handlers none []).1,
    built,
    λ k. ground (arith, split_handlers_lem app.exception_handlers none [] k),
  )
    where
      handlers : Option H × List (Key × H)
      handlers = split_handlers app.exception_handlers none []

      built :
          build_middleware_stack classes app
          ≡ classes.server_error
              (last_error app.exception_handlers)
              app.debug
              (wrap app.user_middleware (classes.exception handlers.1 app.debug app.router))
      built =
          ap (classes.server_error handlers.0 app.debug)
            (wrap-append app.user_middleware (classes.exception handlers.1 app.debug) app.router)
          ∙ ap
              (λ e.
                classes.server_error e app.debug
                  (wrap app.user_middleware (classes.exception handlers.1 app.debug app.router)))
              error
        where
          error : handlers.0 ≡ last_error app.exception_handlers
          error = ground (arith, split_handlers_lem app.exception_handlers none [] (status 0))

-- what a program does with an application: a request, or a call that configures it
pub data Event (A H : Type 0) : Type 0 where
  request : Event A H
  middleware : (A → A) → Event A H
  exception_handler : Key → H → Event A H

module _ {A H : Type 0} (classes : Classes A H) where
  -- the application behind an event; a call that raises leaves it as it is
  pub after : Event A H → Starlette A H → Starlette A H
  after request app = (call classes app).1
  after (middleware m) app = elim (add_middleware m app) [ raise exc ↦ app | ok app' ↦ app' ]
  after (exception_handler key handler) app = add_exception_handler key handler app

  pub after_all : List (Event A H) → Starlette A H → Starlette A H
  unfolding after
  after_all [] app = app
  after_all (e ∷ es) app = after_all es (after e app)

  after-stack :
      (e : Event A H) (app : Starlette A H) (stack : A)
      → app.middleware_stack ≡ some stack
      → (after e app).middleware_stack ≡ some stack
  unfolding after call add_middleware add_exception_handler
  after-stack request app stack h = ground arith
  after-stack (middleware m) app stack h = ground arith
  after-stack (exception_handler k handler) app stack h = h

  after_all-stack :
      (es : List (Event A H)) (app : Starlette A H) (stack : A)
      → app.middleware_stack ≡ some stack
      → (after_all es app).middleware_stack ≡ some stack
  unfolding after_all
  after_all-stack [] app stack h = h
  after_all-stack (e ∷ es) app stack h =
      after_all-stack es (after e app) stack (after-stack e app stack h)

  -- The first request fixes the stack: whatever the program does behind it, every later request goes
  -- to that stack, and every call of `add_middleware` raises.
  pub after_all-call :
      (app : Starlette A H) (es : List (Event A H)) (m : A → A)
      → ((call classes (after_all es (call classes app).1)).0 ≡ (call classes app).0)
        × (add_middleware m (after_all es (call classes app).1) ≡ raise runtime_error)
  unfolding call add_middleware
  after_all-call app es m =
      let stack : (call classes app).1.middleware_stack ≡ some (call classes app).0 =
        ground arith in
      let kept = after_all-stack es (call classes app).1 (call classes app).0 stack in
      ground (arith, kept)
