-- ===== src/Routing/Lifespan/Laws.antt =====
-- The messages that `Router.lifespan` sends.
use starlette.Prelude.{
  ℕ, zero, suc, ◌≡◌, ◌≢◌, refl, true, false, Option, none, some, List, [], ◌∷◌, arith,
}
use starlette.Prelude.Text.{Str, str_eq}
use starlette.Prelude.Dict.{Dict, insert_all}
use starlette.Prelude.Result.{Error, Result, ok, raise, runtime_error, os_error}
use starlette.Websockets.{Call, done, raised}
use starlette.Routing.Lifespan.{
  Sent, startup_complete, startup_failed, shutdown_complete, shutdown_failed, Exit, passes, stops,
  exit_raises, Context, Env, receive, send, update_state, block, failed, leave, try_context,
  lifespan,
}

-- the answers to a start and to a shutdown, as far as they have come
abbrev pub Conforms : List Sent → Type 0
Conforms [] = Unit
Conforms (startup_failed ∷ ms) = ms ≡ []
Conforms (startup_complete ∷ []) = Unit
Conforms (startup_complete ∷ shutdown_complete ∷ ms) = ms ≡ []
Conforms (startup_complete ∷ shutdown_failed ∷ ms) = ms ≡ []
Conforms (m ∷ ms) = ⊥

-- the messages, and what the call comes to, on a server that goes on to the end
abbrev answer_exit : Exit → List Sent × Call (Unit {0})
answer_exit (exit_raises exc) = (startup_complete ∷ shutdown_failed ∷ [], raised exc)
answer_exit x = (startup_complete ∷ shutdown_complete ∷ [], done tt)

abbrev exc_of : Exit → Error → Error
exc_of (exit_raises exc') exc = exc'
exc_of x exc = exc

module _ {V : Type 0} where
  -- a new scope on a server
  abbrev pub start : ℕ → ℕ → Option (Dict Str V) → Env V
  start receives budget state = record {
    receives = receives;
    budget = budget;
    sent = [];
    state = state;
    started = false;
  }

  -- before `started` is set, and behind it
  abbrev new_env : Env V → ℕ → Env V
  new_env e n = record e { sent = []; started = false; budget = n }

  abbrev started_env : Env V → ℕ → Env V
  started_env e n = record e { sent = startup_complete ∷ []; started = true; budget = n }

  failed-new : (exc : Error) (e : Env V) (n : ℕ) → Conforms (failed exc (new_env e n)).1.sent
  unfolding failed send
  failed-new exc e zero = tt
  failed-new exc e (suc n) = refl

  failed-started :
      (exc : Error) (e : Env V) (n : ℕ) → Conforms (failed exc (started_env e n)).1.sent
  unfolding failed send
  failed-started exc e zero = tt
  failed-started exc e (suc n) = refl

  complete-started :
      (e : Env V) (n : ℕ) → Conforms (send shutdown_complete (started_env e n)).1.sent
  unfolding send
  complete-started e zero = tt
  complete-started e (suc n) = refl

  module _ (context : Context V) (never : (exc : Error) → context.exit (some exc) ≢ stops) where
    leave-raised :
        (exc : Error) (e : Env V)
        → ((exc : Error) → Conforms (failed exc e).1.sent)
        → Conforms (leave context (raised exc, e)).1.sent
    unfolding leave
    leave-raised exc e h = by_exit (context.exit (some exc)) (never exc)
      where
        by_exit :
            (x : Exit)
            → x ≢ stops
            → Conforms
                (elim x as (λ y. Call (Unit {0}) × Env V) [
                  | passes ↦ failed exc e
                  | stops ↦ send shutdown_complete e
                  | exit_raises exc' ↦ failed exc' e
                ]).1.sent
        by_exit passes n = h exc
        by_exit stops n = absurd (n refl)
        by_exit (exit_raises exc') n = h exc'

    leave-done : (e : Env V) (n : ℕ) → Conforms (leave context (done tt, started_env e n)).1.sent
    unfolding leave
    leave-done e n = by_exit (context.exit none)
      where
        by_exit :
            (x : Exit)
            → Conforms
                (elim x as (λ y. Call (Unit {0}) × Env V) [
                  | passes ↦ send shutdown_complete (started_env e n)
                  | stops ↦ send shutdown_complete (started_env e n)
                  | exit_raises exc' ↦ failed exc' (started_env e n)
                ]).1.sent
        by_exit passes = complete-started e n
        by_exit stops = complete-started e n
        by_exit (exit_raises exc') = failed-started exc' e n

    leave-block :
        (maybe_state : Option (Dict Str V)) (receives budget : ℕ) (state : Option (Dict Str V))
        → Conforms (leave context (block maybe_state (start receives budget state))).1.sent
    unfolding block update_state send receive leave
    leave-block none receives zero state =
        leave-raised os_error (start receives 0 state)
          (λ exc. failed-new exc (start receives 0 state) 0)
    leave-block (some items) receives budget none =
        leave-raised runtime_error (start receives budget none)
          (λ exc. failed-new exc (start receives budget none) budget)
    leave-block (some items) receives zero (some state) =
        leave-raised os_error (start receives 0 (some (insert_all items state)))
          (λ exc. failed-new exc (start receives 0 (some (insert_all items state))) 0)
    leave-block none zero (suc budget) state = tt
    leave-block (some items) zero (suc budget) (some state) = tt
    leave-block none (suc receives) (suc budget) state =
        leave-done (start receives (suc budget) state) budget
    leave-block (some items) (suc receives) (suc budget) (some state) =
        leave-done (start receives (suc budget) (some (insert_all items state))) budget

    by_enter :
        (entered : Result (Option (Dict Str V))) (receives budget : ℕ) (state : Option (Dict Str V))
        → Conforms
            (elim entered as (λ y. Call (Unit {0}) × Env V) [
              | raise exc ↦ failed exc (start receives budget state)
              | ok maybe_state ↦ leave context (block maybe_state (start receives budget state))
            ]).1.sent
    by_enter (raise exc) receives budget state = failed-new exc (start receives budget state) budget
    by_enter (ok maybe_state) receives budget state = leave-block maybe_state receives budget state

    -- Whatever else the context manager does, and whenever the server stops to hand over or to take
    -- messages: if the context stops no exception, the messages that the server took are at most one
    -- answer to the start, and behind a complete one at most one answer to the shutdown.
    pub lifespan-Conforms :
        (receives budget : ℕ) (state : Option (Dict Str V))
        → Conforms (lifespan context (start receives budget state)).1.sent
    unfolding lifespan try_context receive
    lifespan-Conforms zero budget state = tt
    lifespan-Conforms (suc receives) budget state = by_enter context.enter receives budget state

  abbrev pub answer : Context V → Option (Dict Str V) → List Sent × Call (Unit {0})
  answer context state = elim context.enter [
    | raise exc ↦ (startup_failed ∷ [], raised exc)
    | ok maybe_state ↦ elim maybe_state [
      | none ↦ answer_exit (context.exit none)
      | some items ↦ elim state [
        | some old ↦ answer_exit (context.exit none)
        | none ↦
            (startup_failed ∷ [], raised (exc_of (context.exit (some runtime_error)) runtime_error))
      ]
    ]
  ]

  -- On a server that hands over two messages and takes two, and with a context that stops no
  -- exception, the start and the shutdown are both answered: a start fails if the context raises, or
  -- gives a state that the server does not support, and otherwise it is complete, and so is the
  -- shutdown unless the context raises at its end; every exception is raised again behind its
  -- message.
  pub lifespan-answer :
      (context : Context V) (state : Option (Dict Str V)) (receives budget : ℕ)
      → ((exc : Error) → context.exit (some exc) ≢ stops)
      → ((lifespan context (start (suc (suc receives)) (suc (suc budget)) state)).1.sent
          ≡ (answer context state).0)
        × ((lifespan context (start (suc (suc receives)) (suc (suc budget)) state)).0
            ≡ (answer context state).1)
  unfolding lifespan try_context receive leave block failed send update_state
  lifespan-answer context state receives budget h = ground (arith, h runtime_error)
