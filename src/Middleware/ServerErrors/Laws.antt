-- ===== src/Middleware/ServerErrors/Laws.antt =====
-- What a client and the server see of an error.
use starlette.Prelude.{
  ℕ, ◌≤◌, ◌≡◌, refl, ◌⊎◌, inl, inr, ◌++◌, Bool-cases, Bool, true, false, Option, none, some, List,
  [], ◌∷◌, arith, if◌then◌else◌,
}
use starlette.Prelude.Text.{Str}
use starlette.Prelude.Dict.{Dict, or_else}
use starlette.Middleware.Exceptions.{
  Exc, Run, Handled, no_response, response, handler_raised, response_started, wrapped_app,
}
use starlette.Middleware.Exceptions.Laws.{
  starts, starts-append, sent_by, starts-not_started, starts-wrapped_app,
}
use starlette.Middleware.ServerErrors.{ErrorResponse, choose_response, answer, call}

module _ {M H : Type 0} (is_start : M → Bool)
    (run_response : ErrorResponse H → Exc → Handled M) where
  starts-started :
      (sent : List M)
      → response_started is_start run_response sent ≡ true
      → 1 ≤ starts is_start sent
  unfolding response_started
  starts-started [] h = absurd cc
  starts-started (m ∷ sent) h = ground (arith, starts-started sent)

  -- what `answered` behind `sent` is to come to, where the application raised `exc`
  abbrev pub Answered : List M → Exc → Run M → Run M → Type 0
  Answered sent exc answered result =
      (starts is_start result.sent ≡ 1)
      × ((starts is_start sent ≡ 1) × (result.sent ≡ sent) × (result.raised ≡ some exc)
          ⊎ (starts is_start sent ≡ 0)
            × (result.sent ≡ sent ++ answered.sent)
            × (result.raised ≡ (elim answered.raised [ none ↦ some exc | some e ↦ some e ])))

  answer-Answered :
      (sent : List M) (exc : Exc) (answered : Run M)
      → starts is_start sent ≤ 1
      → starts is_start answered.sent ≡ 1
      → Answered sent exc answered (answer is_start run_response sent exc (response answered))
  unfolding answer
  answer-Answered sent exc answered s h =
      elim (Bool-cases (response_started is_start run_response sent)) [
        | inl begun ↦
            let one : starts is_start sent ≡ 1 = omega (arith, starts-started sent begun) in
            rw begun (one, inl (one, refl, refl))
        | inr not_begun ↦
            let zero_sent : starts is_start sent ≡ 0 =
              starts-not_started is_start run_response sent not_begun in
            rw not_begun (
              ground (arith, starts-append is_start sent answered.sent),
              inr (zero_sent, refl, by_end answered.raised),
            )
      ]
    where
      by_end :
          (raised : Option Exc)
          → or_else raised (some exc) ≡ (elim raised [ none ↦ some exc | some e ↦ some e ])
      by_end none = refl
      by_end (some e) = refl

  answer-once :
      (sent : List M) (exc : Exc) (h : Handled M)
      → starts is_start sent ≤ 1
      → starts is_start (sent_by is_start h) ≤ 1
      → starts is_start (answer is_start run_response sent exc h).sent ≤ 1
  unfolding answer
  answer-once sent exc no_response s h = ground arith
  answer-once sent exc (handler_raised exc') s h = s
  answer-once sent exc (response run) s h =
      ground
        (arith, starts-append is_start sent run.sent, starts-not_started is_start run_response sent)

  -- Every response to an error starts one response, and the application starts at most one before
  -- it raises. Then an HTTP client gets exactly one start. If the application had started one, the
  -- client gets nothing more, and the exception of the application is raised again. Else the
  -- messages of the chosen response come behind those that were sent, and the same exception is
  -- raised, unless that response itself raises one.
  pub call-raised :
      (debug : Bool) (handler : Option H) (accept : Option Str) (run : Run M) (exc : Exc)
      (answered : ErrorResponse H → Run M)
      → ((r : ErrorResponse H) → run_response r exc ≡ response (answered r))
      → ((r : ErrorResponse H) → starts is_start (answered r).sent ≡ 1)
      → starts is_start run.sent ≤ 1
      → run.raised ≡ some exc
      → Answered run.sent exc
          (answered (choose_response debug handler accept))
          (call is_start run_response true debug handler accept run)
  unfolding call
  call-raised debug handler accept run exc answered a n s e =
      let r = choose_response debug handler accept in
      rw (e, a r) (answer-Answered run.sent exc (answered r) s (n r))

  -- The middleware around the one for exceptions, as an application has them: where the program
  -- starts at most one response, and so does each handler and each response to an error, a client
  -- gets at most one.
  pub call-wrapped_app :
      {A : Type 0} (run_handler : A → Exc → Handled M) (exception_handlers : Dict Str A)
      (status_handlers : Dict ℕ A) (is_http debug : Bool) (handler : Option H) (accept : Option Str)
      (run : Run M)
      → ((a : A) (exc : Exc) → starts is_start (sent_by is_start (run_handler a exc)) ≤ 1)
      → ((r : ErrorResponse H) (exc : Exc)
          → starts is_start (sent_by is_start (run_response r exc)) ≤ 1)
      → starts is_start run.sent ≤ 1
      → starts is_start
          (call is_start run_response is_http debug handler accept
            (wrapped_app is_start run_handler exception_handlers status_handlers run)).sent
        ≤ 1
  unfolding call
  call-wrapped_app run_handler exception_handlers status_handlers is_http debug handler accept run
        once answers s =
      by_end (wrapped_app is_start run_handler exception_handlers status_handlers run)
        (starts-wrapped_app is_start run_handler exception_handlers status_handlers run once s)
    where
      by_end :
          (inner : Run M)
          → starts is_start inner.sent ≤ 1
          → starts is_start (call is_start run_response is_http debug handler accept inner).sent ≤ 1
      by_end inner h = by_kind is_http inner.raised
        where
          replied : Exc → Run M
          replied exc =
              answer is_start run_response inner.sent exc
                (run_response (choose_response debug handler accept) exc)

          by_kind :
              (b : Bool) (raised : Option Exc)
              → starts is_start
                  (if b
                    then (elim raised [ none ↦ inner | some exc ↦ replied exc ])
                    else inner).sent
                ≤ 1
          by_kind false raised = h
          by_kind true none = h
          by_kind true (some exc) =
              answer-once inner.sent exc _ h (answers (choose_response debug handler accept) exc)
