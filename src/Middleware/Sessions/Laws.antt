-- ===== src/Middleware/Sessions/Laws.antt =====
-- A session that is saved is loaded again.
use starlette.Prelude.{
  ◌≡◌, refl, ap, ◌∙◌, Bool, true, false, some, List, map, [], ◌∷◌, ◌++◌, arith, All, list_beq,
  if◌then◌else◌, nat_eq, ==_iff, append_assoc,
}
use starlette.Prelude.Text.{Str, codes, str_eq, lower, lower_code, before}
use starlette.Prelude.Dict.{insert_all, last_value, lookup-insert_all}
use starlette.Prelude.Result.{ok, raise, unicode_error, ◌>>=◌}
use starlette.Datastructures.Headers
use starlette.Datastructures.Headers.{RawHeaders}
use starlette.Requests.{cookies}
use starlette.Requests.Cookies.{
  IsPlain, cookie_text, header_text, cookie_parser-header_text, before-append, text_lem,
}
use starlette.Middleware.Sessions.{
  Packages, SessionMiddleware, load_cookie, load, session_data, header_value, save, max_age_text,
}

module _ {S : Type 0} (packages : Packages S) (mw : SessionMiddleware) where
  -- the signed text that the packages make of a session
  abbrev pub signed_text : S → Str
  signed_text session = packages.sign (packages.b64encode (packages.dumps session))

  -- What the packages promise: a signature that is not too old is taken off again, base64 is decoded
  -- again, and so is the JSON of the session; and a signed text in base64 is of characters that go
  -- through UTF-8 and through a cookie as they are.
  pub record Restores (session : S) : Type 0 where
    pub unsigned : (s : Str) → packages.unsign (packages.sign s) ≡ some s
    pub decoded : (s : Str) → packages.b64decode (packages.b64encode s) ≡ some s
    pub loaded : packages.loads (packages.dumps session) ≡ some session
    pub ascii : packages.encode_utf8 (signed_text session) ≡ signed_text session
    pub plain : IsPlain (mw.session_cookie, signed_text session)

  abbrev unquoted : List (Str × Str) → List (Str × Str)
  unquoted cs = map (λ c. (c.0, packages.unquote c.1)) cs

  load_cookie-signed_text :
      (session : S)
      → Restores session
      → load_cookie packages mw (signed_text session) ≡ ok (session, false)
  unfolding load_cookie
  load_cookie-signed_text session r = ground (
    arith,
    r.ascii,
    r.unsigned (packages.b64encode (packages.dumps session)),
    r.decoded (packages.dumps session),
    r.loaded,
  )

  cookies-header_text :
      (cs : List (Str × Str))
      → All IsPlain cs
      → cookies packages.unquote ((codes "cookie", header_text cs) ∷ [])
        ≡ ok (insert_all (unquoted cs) [])
  unfolding cookies Headers.get Headers.header_key Headers.encode Headers.is_latin1 Headers.find
      lower lower_code list_beq
  cookies-header_text cs h = ap ok (
      ground (
        arith,
        ==_iff (header_text cs) [],
        cookie_parser-header_text packages.unquote cs h,
        cookie_parser-header_text packages.unquote [] tt,
      ))

  append-set_cookie :
      (headers saved : RawHeaders) (value : Str)
      → Headers.append headers (codes "Set-Cookie") value ≡ ok saved
      → saved ≡ headers ++ (codes "set-cookie", value) ∷ []
  unfolding Headers.append Headers.header_key Headers.encode Headers.is_latin1 lower lower_code
  append-set_cookie headers saved value h = by_encoded (Headers.is_latin1 value) h
    where
      by_encoded :
          (b : Bool)
          → ((if b then ok value else raise unicode_error) >>= λ v.
              ok (headers ++ (codes "set-cookie", v) ∷ []))
            ≡ ok saved
          → saved ≡ headers ++ (codes "set-cookie", value) ∷ []
      by_encoded true e = cc
      by_encoded false e = absurd cc

  before-header_value :
      (value expiry : Str)
      → IsPlain (mw.session_cookie, value)
      → before b';' (header_value packages mw value expiry) ≡ cookie_text (mw.session_cookie, value)
  unfolding header_value
  before-header_value value expiry p =
      ap (before b';') shape
      ∙ before-append b';' (cookie_text (mw.session_cookie, value)) rest
          (text_lem (mw.session_cookie, value) p)
    where
      rest : Str
      rest = codes " path=" ++ mw.path ++ codes "; " ++ expiry ++ mw.security_flags

      shape :
          header_value packages mw value expiry
          ≡ cookie_text (mw.session_cookie, value) ++ b';' ∷ rest
      shape = simp append_assoc refl

  save-session_data :
      (session : S) (headers saved : RawHeaders) (was_empty : Bool)
      → packages.is_empty session ≡ false
      → save packages mw session was_empty headers ≡ ok saved
      → saved
        ≡ headers
          ++ (
            codes "set-cookie",
            header_value packages mw (signed_text session) (max_age_text packages mw mw.max_age),
          )
            ∷ []
  unfolding save session_data
  save-session_data session headers saved was_empty e s =
      append-set_cookie headers saved _ (ground (arith, e, s))

  -- Let the packages keep what they promise. The `Set-Cookie` header for a session that is not empty
  -- names, up to its first semicolon, the cookie with the session as JSON, in base64 and signed; and a request whose `Cookie` header lists plain cookies, the last of
  -- that name with these data, has the session again, and it counts as one that was not empty.
  pub load-save :
      (session : S) (headers saved : RawHeaders) (was_empty : Bool) (cs : List (Str × Str))
      → Restores session
      → packages.is_empty session ≡ false
      → save packages mw session was_empty headers ≡ ok saved
      → All IsPlain cs
      → last_value mw.session_cookie (unquoted cs) ≡ some (signed_text session)
      → ((value : Str) × (saved ≡ headers ++ (codes "set-cookie", value) ∷ [])
          × (before b';' value ≡ cookie_text (mw.session_cookie, signed_text session)))
        × (load packages mw ((codes "cookie", header_text cs) ∷ []) ≡ ok (session, false))
  unfolding load
  load-save session headers saved was_empty cs r e s p l = (
    (
      header_value packages mw (signed_text session) (max_age_text packages mw mw.max_age),
      save-session_data session headers saved was_empty e s,
      before-header_value (signed_text session) (max_age_text packages mw mw.max_age) r.plain,
    ),
    rw (cookies-header_text cs p) (
        ground (
          arith,
          lookup-insert_all (unquoted cs) [] mw.session_cookie,
          l,
          load_cookie-signed_text session r,
        )),
  )
