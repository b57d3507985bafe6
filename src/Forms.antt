-- ===== src/Forms.antt =====
-- starlette/formparsers.py: the parsers of the bodies of forms.
--
-- The package python_multipart splits a body into tokens and calls back for each. It is a parameter:
-- what it keeps between two calls, the callbacks that it makes for a chunk, and the exception that
-- it raises behind them, if any. A request stream is the list of its chunks and the way it ends.
pub mod Urlencoded
pub mod Multipart
mod Tests
use starlette.Prelude.{ℕ, ◌-◌, Option, List, take, drop}
use starlette.Prelude.Text.{Str}
use starlette.Prelude.Result.{Error}

-- `data[start:end]`
abbrev pub slice : Str → ℕ → ℕ → Str
slice bytes start end = drop start (take end bytes)

-- a parser of python_multipart, with callbacks of a type
pub record Tokenizer (P C : Type 0) : Type 0 where
  pub write : P → Str → List C × (Option Error × P)
  pub finalize : P → List C × (Option Error × P)

pub record Stream : Type 0 where
  pub chunks : List Str
  pub end : Option Error
