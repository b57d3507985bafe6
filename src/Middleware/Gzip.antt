-- ===== src/Middleware/Gzip.antt =====
-- `GZipMiddleware`, `IdentityResponder` and `GZipResponder` of starlette/middleware/gzip.py.
--
-- The file of the package gzip is a parameter: its state, and what a write and a close add to its
-- buffer. A message that is changed is a new value.
pub mod Laws
use starlette.Prelude.{
  ℕ, Bool, true, false, not, ◌&&◌, ◌||◌, Option, none, some, List, [], ◌∷◌, ◌++◌, length, ltb, ◌==◌,
  if◌then◌else◌,
}
use starlette.Prelude.Text.{Str, codes, str_eq, starts_with, has_part}
use starlette.Prelude.Decimal.{show_nat}
use starlette.Prelude.Result.{Result, ok, raise, ◌>>=◌}
use starlette.Datastructures.Headers
use starlette.Datastructures.Headers.{RawHeaders}

pub data Message : Type 0 where
  -- `http.response.start`: its status and its headers
  start : ℕ → RawHeaders → Message
  -- `http.response.body`: its body, and its `more_body`
  body : Str → Bool → Message
  -- `http.response.pathsend`
  pathsend : Str → Message
  -- a message of another type
  other : ℕ → Message

-- `gzip.GzipFile` over a buffer: what a call adds to the buffer, and the state behind it
pub record Compressor (G : Type 0) : Type 0 where
  pub write : G → Str → Str × G
  pub close : G → Str × G

pub record Responder (G : Type 0) : Type 0 where
  pub minimum_size : ℕ
  -- the status and the headers of `initial_message`
  pub initial_status : ℕ
  pub initial_headers : RawHeaders
  pub started : Bool
  pub content_encoding_set : Bool
  pub content_type_is_excluded : Bool
  -- `gzip_file`, none in an `IdentityResponder`
  pub gzip_file : Option G

-- the coding that `"gzip" in headers.get("Accept-Encoding", "")` chooses: `GZipResponder` if true
unfoldable pub accepts_gzip : RawHeaders → Bool
unfolding has_part
accepts_gzip headers = elim (Headers.find (codes "accept-encoding") headers) [
  | none ↦ false
  | some value ↦ has_part (codes "gzip") value
]

-- `headers.get("content-type", "").startswith(DEFAULT_EXCLUDED_CONTENT_TYPES)`
unfoldable pub is_excluded : RawHeaders → Bool
unfolding starts_with
is_excluded headers = elim (Headers.find (codes "content-type") headers) [
  | none ↦ false
  | some value ↦ starts_with (codes "text/event-stream") value
]

module _ {G : Type 0} (gzip : Compressor G) where
  -- `IdentityResponder(app, minimum_size)` and `GZipResponder(app, minimum_size)`
  pub init : ℕ → Option G → Responder G
  init minimum_size gzip_file = record {
    minimum_size = minimum_size;
    initial_status = 0;
    initial_headers = [];
    started = false;
    content_encoding_set = false;
    content_type_is_excluded = false;
    gzip_file = gzip_file;
  }

  pub compress_with : Option G → Str → Bool → Str × Option G
  compress_with none content more_body = (content, none)
  compress_with (some file) content true =
      let (written, file') = gzip.write file content in (written, some file')
  compress_with (some file) content false =
      let (written, file') = gzip.write file content in
      let (rest, file'') = gzip.close file' in (written ++ rest, some file'')

  -- `apply_compression` of both classes
  unfoldable pub apply_compression : Responder G → Str → Bool → Str × Responder G
  unfolding compress_with
  apply_compression r content more_body =
      let (compressed, file) = compress_with r.gzip_file content more_body in
      (compressed, record r { gzip_file = file })

  -- the headers of a compressed response that is complete, and of one that is a stream
  unfoldable pub changed_headers : RawHeaders → Str → Bool → Result RawHeaders
  unfolding Headers.setitem Headers.delitem
  changed_headers headers content false = do
    headers ← Headers.setitem headers (codes "Content-Encoding") (codes "gzip")
    Headers.setitem headers (codes "Content-Length") (show_nat (length content))
  changed_headers headers content true = do
    headers ← Headers.setitem headers (codes "Content-Encoding") (codes "gzip")
    Headers.delitem headers (codes "Content-Length")

  unfoldable pub new_headers : RawHeaders → Str → Str → Bool → Result RawHeaders
  unfolding Headers.add_vary_header changed_headers
  new_headers headers old content more_body = do
    headers ← Headers.add_vary_header headers (codes "Accept-Encoding")
    if content == old then ok headers else changed_headers headers content more_body

  -- what one call sends, and the state behind it
  abbrev pub Sending : Type 0
  Sending = Result (List Message × Responder G)

  -- the first body message of a response that is not left as it is
  pub first_compressed : Responder G → Str → Bool → Sending
  unfolding apply_compression new_headers
  first_compressed r content more_body = do
    let (compressed, r') = apply_compression r content more_body
    headers ← new_headers r.initial_headers content compressed more_body
    ok (
      start r.initial_status headers ∷ body compressed more_body ∷ [],
      record r' { initial_headers = headers },
    )

  pub first_body : Responder G → Str → Bool → Sending
  unfolding first_compressed
  first_body r content more_body =
      if ltb (length content) r.minimum_size && not more_body
      then ok (start r.initial_status r.initial_headers ∷ body content more_body ∷ [], r)
      else first_compressed r content more_body

  pub body_unchanged : Responder G → Str → Bool → Sending
  body_unchanged r content more_body =
      if r.started
      then ok (body content more_body ∷ [], r)
      else ok (
        start r.initial_status r.initial_headers ∷ body content more_body ∷ [],
        record r { started = true },
      )

  pub later_body : Responder G → Str → Bool → Sending
  unfolding apply_compression
  later_body r content more_body =
      let (compressed, r') = apply_compression r content more_body in
      ok (body compressed more_body ∷ [], r')

  -- `send_with_compression`
  unfoldable pub send_with_compression : Responder G → Message → Sending
  unfolding is_excluded first_body body_unchanged later_body Headers.has_key
  send_with_compression r (start status headers) = ok (
    [],
    record r {
      initial_status = status;
      initial_headers = headers;
      content_encoding_set = Headers.has_key (codes "content-encoding") headers;
      content_type_is_excluded = is_excluded headers;
    },
  )
  send_with_compression r (body content more_body) =
      if r.content_encoding_set || r.content_type_is_excluded
      then body_unchanged r content more_body
      else if not r.started
      then first_body (record r { started = true }) content more_body
      else later_body r content more_body
  send_with_compression r (pathsend path) =
      ok (start r.initial_status r.initial_headers ∷ pathsend path ∷ [], r)
  send_with_compression r (other kind) = ok ([], r)

  -- the messages that an application sends, one after the other
  unfoldable pub send_all : Responder G → List Message → Sending
  unfolding send_with_compression
  send_all r [] = ok ([], r)
  send_all r (m ∷ ms) = do
    first ← send_with_compression r m
    rest ← send_all first.1 ms
    ok (first.0 ++ rest.0, rest.1)
