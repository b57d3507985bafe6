-- ===== src/Middleware/Exceptions/Laws.antt =====
-- Which handler answers an exception, and that it starts no second response.
use starlette.Prelude.{
  ℕ, ◌+◌, ◌≤◌, ◌≡◌, refl, inl, inr, Bool, true, false, Option, none, some, List, [], ◌∷◌, ◌++◌,
  nat_eq, if◌then◌else◌, arith, Bool-cases, Elem, subst, list_beq, ◌⊎◌,
}
use starlette.Prelude.Text.{Str, codes, str_eq}
use starlette.Prelude.Dict.{Dict, or_else, lookup, lookup-insert, is_some}
use starlette.Prelude.Result.{ok, >>=-eq-ok}
use starlette.Middleware.Exceptions.{
  Exc, Run, Handled, no_response, response, handler_raised, Handler, custom,
  lookup_exception_handler, choose_handler, response_started, after_handler, with_handler,
  handle_exception, wrapped_app, Key, status, exc_class, ExceptionMiddleware, add_exception_handler,
  add_each, init,
}

module _ {M : Type 0} (is_start : M → Bool) where
  -- how many responses a list of messages starts
  abbrev pub starts : List M → ℕ
  starts [] = 0
  starts (m ∷ ms) = (if is_start m then 1 else 0) + starts ms

  pub starts-append : (ms ns : List M) → starts (ms ++ ns) ≡ starts ms + starts ns
  starts-append [] ns = ground arith
  starts-append (m ∷ ms) ns = ground (arith, starts-append ms ns)

  abbrev pub sent_by : Handled M → List M
  sent_by no_response = []
  sent_by (response run) = run.sent
  sent_by (handler_raised exc) = []

module _ {M A : Type 0} (is_start : M → Bool) (run_handler : A → Exc → Handled M) where
  pub starts-not_started :
      (ms : List M) → response_started is_start run_handler ms ≡ false → starts is_start ms ≡ 0
  unfolding response_started
  starts-not_started [] h = refl
  starts-not_started (m ∷ ms) h = ground (arith, starts-not_started ms)

  starts-after_handler :
      (ms : List M) (h : Handled M)
      → starts is_start (after_handler is_start run_handler ms h).sent
        ≡ starts is_start ms + starts is_start (sent_by is_start h)
  unfolding after_handler
  starts-after_handler ms no_response = ground arith
  starts-after_handler ms (response run) = starts-append is_start ms run.sent
  starts-after_handler ms (handler_raised exc) = ground arith

  starts-with_handler :
      (ms : List M) (exc : Exc) (handler : Option A)
      → ((a : A) → starts is_start (sent_by is_start (run_handler a exc)) ≤ 1)
      → starts is_start ms ≤ 1
      → starts is_start (with_handler is_start run_handler ms exc handler).sent ≤ 1
  unfolding with_handler
  starts-with_handler ms exc none once h = h
  starts-with_handler ms exc (some a) once h =
      elim (Bool-cases (response_started is_start run_handler ms)) [
        | inl started ↦ rw started h
        | inr fresh ↦ rw fresh (
            ground (
              arith,
              starts-not_started ms fresh,
              starts-after_handler ms (run_handler a exc),
              once a,
            ))
      ]

  -- Where the application starts at most one response and so does each handler, the two together
  -- start at most one.
  pub starts-wrapped_app :
      (exception_handlers : Dict Str A) (status_handlers : Dict ℕ A) (run : Run M)
      → ((a : A) (exc : Exc) → starts is_start (sent_by is_start (run_handler a exc)) ≤ 1)
      → starts is_start run.sent ≤ 1
      → starts is_start
          (wrapped_app is_start run_handler exception_handlers status_handlers run).sent
        ≤ 1
  unfolding wrapped_app handle_exception
  starts-wrapped_app exception_handlers status_handlers run once h = by_end run.raised
    where
      by_end :
          (end : Option Exc)
          → starts is_start
              (handle_exception is_start run_handler exception_handlers status_handlers run.sent
                end).sent
            ≤ 1
      by_end none = h
      by_end (some exc) =
          starts-with_handler run.sent exc (choose_handler exception_handlers status_handlers exc)
            (λ a. once a exc) h

module _ {H : Type 0} (is_exception_class : Str → Bool) where
  abbrev pub Answers : ExceptionMiddleware H → Str → Type 0
  Answers mw cls = is_some (lookup cls mw.exception_handlers) ≡ true

  add_exception_handler-Answers :
      (key : Key) (handler : H) (mw : ExceptionMiddleware H) (cls : Str)
      {mw' : ExceptionMiddleware H}
      → add_exception_handler is_exception_class key handler mw ≡ ok mw'
      → Answers mw cls
      → Answers mw' cls
  unfolding add_exception_handler
  add_exception_handler-Answers (status code) handler mw cls e h = ground arith
  add_exception_handler-Answers (exc_class c) handler mw cls e h =
      ground (arith, lookup-insert c cls (custom handler) mw.exception_handlers)

  add_each-Answers :
      (handlers : List (Key × H)) (mw : ExceptionMiddleware H) (cls : Str)
      {mw' : ExceptionMiddleware H}
      → add_each is_exception_class handlers mw ≡ ok mw'
      → Answers mw cls
      → Answers mw' cls
  unfolding add_each
  add_each-Answers [] mw cls e h = ground arith
  add_each-Answers ((key, value) ∷ handlers) mw cls e h =
      let (mw1, e1, rest) = >>=-eq-ok (add_exception_handler is_exception_class key value mw) _ e in
      add_each-Answers handlers mw1 cls rest (add_exception_handler-Answers key value mw cls e1 h)

  lookup-Answers :
      (mw : ExceptionMiddleware H) (cls : Str) (mro : List Str)
      → Answers mw cls
      → Elem cls mro
      → is_some (lookup_exception_handler mw.exception_handlers mro) ≡ true
  unfolding lookup_exception_handler
  lookup-Answers mw cls [] h m = elim m [ ]
  lookup-Answers mw cls (c ∷ mro) h (inl e) =
      by_found (lookup c mw.exception_handlers)
        (subst (λ k. is_some (lookup k mw.exception_handlers) ≡ true) e h)
    where
      by_found :
          (found : Option (Handler H))
          → is_some found ≡ true
          → is_some (or_else found (lookup_exception_handler mw.exception_handlers mro)) ≡ true
      by_found none k = cc
      by_found (some a) k = refl
  lookup-Answers mw cls (c ∷ mro) h (inr m) =
      by_found (lookup c mw.exception_handlers) (lookup-Answers mw cls mro h m)
    where
      by_found :
          (found : Option (Handler H))
          → is_some (lookup_exception_handler mw.exception_handlers mro) ≡ true
          → is_some (or_else found (lookup_exception_handler mw.exception_handlers mro)) ≡ true
      by_found none k = k
      by_found (some a) k = refl

  or_else-is_some : (a b : Option (Handler H)) → is_some b ≡ true → is_some (or_else a b) ≡ true
  or_else-is_some none b h = h
  or_else-is_some (some a) b h = refl

  -- Whatever handlers an application registers, if the middleware accepts them, every exception
  -- that is an `HTTPException` or a `WebSocketException` finds a handler.
  pub init-choose_handler :
      (handlers : List (Key × H)) (exc : Exc) {mw : ExceptionMiddleware H}
      → init is_exception_class handlers ≡ ok mw
      → Elem (codes "HTTPException") exc.mro ⊎ Elem (codes "WebSocketException") exc.mro
      → is_some (choose_handler mw.exception_handlers mw.status_handlers exc) ≡ true
  unfolding init choose_handler lookup list_beq
  init-choose_handler handlers exc {mw} e (inl m) = or_else-is_some _ _ (
      lookup-Answers mw (codes "HTTPException") exc.mro
        (add_each-Answers handlers _ (codes "HTTPException") e refl) m)
  init-choose_handler handlers exc {mw} e (inr m) = or_else-is_some _ _ (
      lookup-Answers mw (codes "WebSocketException") exc.mro
        (add_each-Answers handlers _ (codes "WebSocketException") e refl) m)
