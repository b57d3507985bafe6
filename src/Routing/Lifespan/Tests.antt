-- ===== src/Routing/Lifespan/Tests.antt =====
-- Runs of `Router.lifespan`.
use starlette.Prelude.{ℕ, ◌≡◌, some, [], ◌∷◌}
use starlette.Prelude.Text.{codes}
use starlette.Prelude.Result.{ok, runtime_error}
use starlette.Routing.Lifespan.{exit_raises, Context, lifespan}
use starlette.Routing.Lifespan.Laws.{Conforms, start, answer, lifespan-Conforms, lifespan-answer}

-- a context with a state, whose end raises
abbrev context : Context ℕ
context = record {
  enter = ok (some ((codes "db", 1) ∷ []));
  exit = λ exc. exit_raises runtime_error;
}

lifespan-Conforms_example : Conforms (lifespan context (start 2 1 (some []))).1.sent
lifespan-Conforms_example = lifespan-Conforms context (λ exc e. absurd cc) 2 1 (some [])

lifespan-answer_example :
    ((lifespan context (start 2 2 (some []))).1.sent ≡ (answer context (some [])).0)
    × ((lifespan context (start 2 2 (some []))).0 ≡ (answer context (some [])).1)
lifespan-answer_example = lifespan-answer context (some []) 0 0 (λ exc e. absurd cc)
