-- ===== src/Prelude/Result.antt =====
-- What a Python call comes to: a value, or the exception that it raises.
use Prim.Native.Nat.{ℕ}
use mathlib.Core.Path.{◌≡◌, refl}
use mathlib.Core.Bool.{Bool, true, false}
use mathlib.Core.List.{List}

-- The exceptions that the modelled code raises, by class, with what handlers read of them.
pub data Error : Type 0 where
  key_error assertion_error value_error type_error unicode_error os_error index_error : Error
  runtime_error no_match_found : Error
  -- the status code and the headers
  http_exception : ℕ → List (List ℕ × List ℕ) → Error
  websocket_disconnect : ℕ → Error
  client_disconnect : Error
  -- its message
  multipart_exception : List ℕ → Error
  -- an exception of a package that the code calls
  foreign_error : Error

pub data Result {ℓ} (V : Type ℓ) : Type ℓ where
  raise : Error → Result V
  ok : V → Result V

-- `assert test`, and `if not test: raise exc`
abbrev pub ensure : Bool → Error → Result (Unit {0})
ensure false exc = raise exc
ensure true exc = ok tt

-- An exception goes past the rest of the block.
module _ {ℓ κ} {V : Type ℓ} {W : Type κ} where
  infixl 5 ◌>>=◌
  abbrev pub ◌>>=◌ : Result V → (V → Result W) → Result W
  raise exc >>= rest = raise exc
  ok value >>= rest = rest value

  pub >>=-eq-ok :
      (call : Result V) (rest : V → Result W) {out : W}
      → (call >>= rest) ≡ ok out
      → (value : V) × (call ≡ ok value) × (rest value ≡ ok out)
  >>=-eq-ok (raise exc) rest h = cc
  >>=-eq-ok (ok value) rest h = (value, refl, h)

-- in sequence, where the first call has no value to pass on
infixl 5 ◌>>◌
abbrev pub ◌>>◌ {κ} : {W : Type κ} → Result (Unit {0}) → Result W → Result W
call >> rest = call >>= λ u. rest
