-- ===== src/Responses/Chunks.antt =====
-- The loops of FileResponse that read a file in chunks and send them, in starlette/responses.py.
--
-- A file is the list of its bytes, and `take n (drop p file)` is what `read(n)` gives at position
-- `p`. A message is a body with its `more_body`. A loop runs on fuel, and is none where that ends.
pub mod Laws
use starlette.Prelude.{
  ℕ, zero, suc, ◌+◌, ◌-◌, min, Bool, true, false, ◌&&◌, Option, none, some, List, [], ◌∷◌, ◌++◌,
  ltb, ◌==◌, nat_eq, if◌then◌else◌, length, take, drop,
}
use starlette.Prelude.Text.{Str}

abbrev pub Message : Type 0
Message = Str × Bool

-- one more message in front
abbrev pub and_then : Message → Option (List Message) → Option (List Message)
and_then m none = none
and_then m (some ms) = some (m ∷ ms)

module _ (chunk_size : ℕ) (file : Str) where
  -- the loop of _handle_simple, at a position of the file
  unfoldable pub simple_chunks : ℕ → ℕ → Option (List Message)
  simple_chunks zero position = none
  simple_chunks (suc fuel) position =
      let chunk = take chunk_size (drop position file) in
      let more_body = length chunk == chunk_size in
      let rest = simple_chunks fuel (position + length chunk) in
      and_then (chunk, more_body) (if more_body then rest else some [])

  -- the loop of _handle_single_range
  unfoldable pub range_chunks : ℕ → ℕ → ℕ → Option (List Message)
  range_chunks zero start end = none
  range_chunks (suc fuel) start end =
      let chunk = take (min chunk_size (end - start)) (drop start file) in
      let more_body = (length chunk == chunk_size) && ltb (start + length chunk) end in
      let rest = range_chunks fuel (start + length chunk) end in
      and_then (chunk, more_body) (if more_body then rest else some [])

  -- the inner loop of _handle_multiple_ranges
  unfoldable pub part_chunks : ℕ → ℕ → ℕ → Option (List Message)
  part_chunks zero start end = none
  part_chunks (suc fuel) start end =
      let chunk = take (min chunk_size (end - start)) (drop start file) in
      let rest = part_chunks fuel (start + length chunk) end in
      if ltb start end then and_then (chunk, true) rest else some []

-- what the client receives
unfoldable pub bodies : List Message → Str
bodies [] = []
bodies ((body, more_body) ∷ ms) = body ++ bodies ms

-- every message but the last announces another one
unfoldable pub announced : List Message → Bool
announced [] = false
announced ((body, more_body) ∷ []) = if more_body then false else true
announced ((body, more_body) ∷ m ∷ ms) = more_body && announced (m ∷ ms)

unfoldable pub all_more : List Message → Bool
all_more [] = true
all_more ((body, more_body) ∷ ms) = more_body && all_more ms
