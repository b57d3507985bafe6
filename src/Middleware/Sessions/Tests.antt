-- ===== src/Middleware/Sessions/Tests.antt =====
-- A session that is saved and loaded, with packages that put a letter before a text.
use starlette.Prelude.{
  ℕ, Option, if◌then◌else◌, ◌==◌, nat_eq, ◌≡◌, refl, true, false, none, some, [], ◌∷◌, ◌++◌,
  contains, list_beq,
}
use starlette.Prelude.Text.{Str, codes, str_eq, before, lower, lower_code}
use starlette.Prelude.Dict.{last_value}
use starlette.Prelude.Result.{ok}
use starlette.Datastructures.Headers
use starlette.Datastructures.Headers.{RawHeaders}
use starlette.Responses.Range.{strip, skip_space, is_space}
use starlette.Requests.Cookies.{IsPlain, cookie_text, header_text}
use starlette.Middleware.Sessions.{
  Packages, SessionMiddleware, load, save, session_data, header_value, max_age_text,
}
use starlette.Middleware.Sessions.Laws.{signed_text, Restores, load-save}

take_off : ℕ → Str → Option Str
take_off c [] = none
take_off c (d ∷ s) = if d == c then some s else none

-- a session is a text
abbrev packages : Packages Str
packages = record {
  sign = λ s. b's' ∷ s;
  unsign = take_off b's';
  b64encode = λ s. b'b' ∷ s;
  b64decode = take_off b'b';
  dumps = λ s. b'j' ∷ s;
  loads = take_off b'j';
  encode_utf8 = λ s. s;
  unquote = λ s. s;
  empty = [];
  is_empty = λ (s : Str). elim s [ [] ↦ true | c ∷ r ↦ false ];
}

abbrev mw : SessionMiddleware
mw = record {
  session_cookie = codes "session";
  max_age = none;
  path = codes "/";
  security_flags = codes "httponly";
}

IsPlain-data : IsPlain (codes "session", codes "sbjabc")
unfolding contains strip skip_space is_space list_beq
IsPlain-data = record {
  name_text = refl;
  name_equals = refl;
  name_strip = refl;
  value_text = refl;
  value_strip = refl;
  nonempty = refl;
}

restores : Restores packages mw (codes "abc")
unfolding take_off
restores = record {
  unsigned = λ s. refl;
  decoded = λ s. refl;
  loaded = refl;
  ascii = refl;
  plain = IsPlain-data;
}

abbrev saved : RawHeaders
saved = (codes "set-cookie", codes "session=sbjabc; path=/; httponly") ∷ []

load-save_example :
    ((value : Str) × (saved ≡ [] ++ (codes "set-cookie", value) ∷ [])
      × (before b';' value ≡ cookie_text (codes "session", signed_text packages mw (codes "abc"))))
    × (load packages mw
          ((codes "cookie", header_text ((codes "session", codes "sbjabc") ∷ [])) ∷ [])
        ≡ ok (codes "abc", false))
unfolding save header_value session_data max_age_text Headers.append Headers.header_key
    Headers.encode Headers.is_latin1 lower lower_code list_beq last_value
load-save_example =
    load-save packages mw (codes "abc") [] saved true ((codes "session", codes "sbjabc") ∷ [])
      restores refl refl (IsPlain-data, tt) refl
