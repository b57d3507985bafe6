-- ===== src/Routing/Lifespan.antt =====
-- `Router.lifespan`, `startup`, `shutdown` and `_DefaultLifespan` of starlette/routing.py, and how
-- `Router.__init__` chooses a context.
--
-- The server hands over so many messages, takes so many, and raises `OSError` at every further one;
-- the text of a traceback is left out. A context manager is what its two methods come to.
pub mod Laws
mod Tests
use starlette.Prelude.{
  ℕ, zero, suc, Bool, true, false, Option, none, some, List, [], ◌∷◌, ◌++◌, if◌then◌else◌, ◌==◌,
}
use starlette.Prelude.Text.{Str, codes, str_eq}
use starlette.Prelude.Dict.{Dict, insert_all}
use starlette.Prelude.Result.{Error, Result, ok, raise, runtime_error, os_error, assertion_error}
use starlette.Websockets.{Call, done, raised, blocked}

pub data Sent : Type 0 where
  startup_complete startup_failed shutdown_complete shutdown_failed : Sent

pub data Exit : Type 0 where
  -- a false value, a true one that stops the exception, or an exception of its own
  passes stops : Exit
  exit_raises : Error → Exit

pub record Context (V : Type 0) : Type 0 where
  -- `__aenter__`: the state, or None
  pub enter : Result (Option (Dict Str V))
  -- `__aexit__`, with the exception that left the block
  pub exit : Option Error → Exit

-- the server, the scope's `state`, and the variable `started`
pub record Env (V : Type 0) : Type 0 where
  pub receives : ℕ
  pub budget : ℕ
  pub sent : List Sent
  pub state : Option (Dict Str V)
  pub started : Bool

module _ {H : Type 0} (run : H → Result (Unit {0})) where
  -- `startup` and `shutdown`: the handlers that were called, and what it comes to
  unfoldable pub run_handlers : List H → List H × Result (Unit {0})
  run_handlers [] = ([], ok tt)
  run_handlers (handler ∷ handlers) =
      let (called, result) = run_handlers handlers in
      elim (run handler) [
        | raise exc ↦ (handler ∷ [], raise exc)
        | ok u ↦ (handler ∷ called, result)
      ]

  -- `_DefaultLifespan(router)`
  unfoldable pub default_lifespan : {V : Type 0} → List H → List H → Context V
  unfolding run_handlers
  default_lifespan on_startup on_shutdown = record {
    enter = elim (run_handlers on_startup).1 [ raise exc ↦ raise exc | ok u ↦ ok none ];
    exit = λ exc. elim (run_handlers on_shutdown).1 [ raise e ↦ exit_raises e | ok u ↦ passes ];
  }

module _ {V : Type 0} where
  -- `await receive()`
  unfoldable pub receive : Env V → Call (Unit {0}) × Env V
  receive e = elim e.receives [
    | zero ↦ (blocked, e)
    | suc left ↦ (done tt, record e { receives = left })
  ]

  -- `await send(message)`
  unfoldable pub send : Sent → Env V → Call (Unit {0}) × Env V
  send message e = elim e.budget [
    | zero ↦ (raised os_error, e)
    | suc left ↦ (done tt, record e { sent = e.sent ++ message ∷ []; budget = left })
  ]

  -- the scope's state takes that of the context
  unfoldable pub update_state : Option (Dict Str V) → Env V → Call (Unit {0}) × Env V
  unfolding insert_all
  update_state none e = (done tt, e)
  update_state (some items) e = elim e.state [
    | none ↦ (raised runtime_error, e)
    | some state ↦ (done tt, record e { state = some (insert_all items state) })
  ]

  infixl 5 ◌then◌
  -- one awaited call behind another
  abbrev pub ◌then◌ :
      Call (Unit {0}) × Env V → (Env V → Call (Unit {0}) × Env V) → Call (Unit {0}) × Env V
  (r, e) then next = elim r [
    | done u ↦ next e
    | raised exc ↦ (raised exc, e)
    | blocked ↦ (blocked, e)
  ]

  abbrev pub set_started : Env V → Call (Unit {0}) × Env V
  set_started e = (done tt, record e { started = true })

  -- the block under `async with`
  unfoldable pub block : Option (Dict Str V) → Env V → Call (Unit {0}) × Env V
  unfolding update_state send receive
  block maybe_state e =
      update_state maybe_state e then send startup_complete then set_started then receive

  -- `except BaseException`
  unfoldable pub failed : Error → Env V → Call (Unit {0}) × Env V
  unfolding send
  failed exc e =
      send (if e.started then shutdown_failed else startup_failed) e then λ e'. (raised exc, e')

  -- the end of `async with`, and what follows it
  unfoldable pub leave : Context V → Call (Unit {0}) × Env V → Call (Unit {0}) × Env V
  unfolding failed send
  leave context (blocked, e) = (blocked, e)
  leave context (done u, e) = elim (context.exit none) [
    | passes ↦ send shutdown_complete e
    | stops ↦ send shutdown_complete e
    | exit_raises exc ↦ failed exc e
  ]
  leave context (raised exc, e) = elim (context.exit (some exc)) [
    | passes ↦ failed exc e
    | stops ↦ send shutdown_complete e
    | exit_raises exc' ↦ failed exc' e
  ]

  -- the `try` of `lifespan`
  unfoldable pub try_context : Context V → Env V → Call (Unit {0}) × Env V
  unfolding leave block failed
  try_context context e = elim context.enter [
    | raise exc ↦ failed exc e
    | ok maybe_state ↦ leave context (block maybe_state e)
  ]

  -- `lifespan`
  unfoldable pub lifespan : Context V → Env V → Call (Unit {0}) × Env V
  unfolding try_context receive
  lifespan context e = receive (record e { started = false }) then try_context context

-- the argument `lifespan`, as `inspect` sees it
pub data Lifespan (F : Type 0) : Type 0 where
  async_generator generator other : F → Lifespan F

-- `self.lifespan_context`
pub data LifespanContext (F : Type 0) : Type 0 where
  default_context : LifespanContext F
  async_context_manager wrapped_generator given : F → LifespanContext F

pub choose_context : {F : Type 0} → Option (Lifespan F) → LifespanContext F
choose_context none = default_context
choose_context (some (async_generator f)) = async_context_manager f
choose_context (some (generator f)) = wrapped_generator f
choose_context (some (other f)) = given f

-- `self.on_startup` and `self.on_shutdown`
pub record Events (H : Type 0) : Type 0 where
  pub on_startup : List H
  pub on_shutdown : List H

pub add_event_handler : {H : Type 0} → Str → H → Events H → Result (Events H)
add_event_handler event_type func events =
    if event_type == codes "startup"
    then ok (record events { on_startup = events.on_startup ++ func ∷ [] })
    else if event_type == codes "shutdown"
    then ok (record events { on_shutdown = events.on_shutdown ++ func ∷ [] })
    else raise assertion_error
