-- ===== src/Convertors/Tests.antt =====
-- Runs of the convertors of starlette/convertors.py on concrete texts.
use starlette.Prelude.{◌≡◌, refl, Bool, true, false, [], ◌∷◌, nat_eq, contains}
use starlette.Prelude.Text.{codes}
use starlette.Prelude.Result.{raise, type_error, value_error, assertion_error}
use starlette.Convertors.{text, Objects, float_prefixes, uuid_prefixes, str_of, string_to_string}

-- no object of another class
abbrev lib : Objects Bool
lib = record {
  show = λ o. [];
  int_of = λ v. raise type_error;
  float_of = λ v. raise type_error;
  is_nonnegative = λ o. true;
  is_nan = λ o. false;
  is_inf = λ o. false;
  format_20f = λ o. [];
  uuid_of = λ s. raise value_error;
}

-- `str(convertor.to_string("a/b"))` raises
slash_refused : string_to_string lib (text (codes "a/b")) ≡ raise assertion_error
unfolding string_to_string str_of contains
slash_refused = refl

-- the fraction is taken first, then given back digit by digit
float_backtracks : float_prefixes (codes "12.34/") ≡ 5 ∷ 4 ∷ 2 ∷ 1 ∷ []
unfolding float_prefixes
float_backtracks = refl

uuid_without_dashes : uuid_prefixes (codes "7f3b0000aaaabbbbcccc0123456789ab") ≡ 32 ∷ []
unfolding uuid_prefixes
uuid_without_dashes = refl
