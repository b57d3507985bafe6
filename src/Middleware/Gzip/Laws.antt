-- ===== src/Middleware/Gzip/Laws.antt =====
-- What GZipMiddleware makes of the messages of a response.
use starlette.Prelude.{
  ℕ, ◌≡◌, refl, Bool, true, false, ◌&&◌, ◌||◌, Option, some, List, [], ◌∷◌, ◌++◌, append-nil, arith,
  ltb, length,
}
use starlette.Prelude.Text.{Str, codes, str_eq}
use starlette.Prelude.Result.{ok}
use starlette.Datastructures.Headers
use starlette.Datastructures.Headers.{RawHeaders}
use starlette.Middleware.Gzip.{
  Message, start, body, Compressor, Responder, is_excluded, init, apply_compression, compress_with,
  new_headers, first_compressed, first_body, body_unchanged, later_body, send_with_compression,
  send_all,
}

-- the body messages of a response: parts that another one follows, and the last one
abbrev pub parts : List Str → Str → List Message
parts [] last = body last false ∷ []
parts (content ∷ contents) last = body content true ∷ parts contents last

-- what a client receives
abbrev pub contents_of : List Message → Str
contents_of [] = []
contents_of (body content more_body ∷ ms) = content ++ contents_of ms
contents_of (m ∷ ms) = contents_of ms

module _ {G : Type 0} (gzip : Compressor G) where
  -- the stream of the compressor over the parts of a response
  pub compressed : G → List Str → Str → Str
  compressed file [] last =
      let (written, file') = gzip.write file last in written ++ (gzip.close file').0
  compressed file (content ∷ contents) last =
      let (written, file') = gzip.write file content in written ++ compressed file' contents last

  PassesOn : Responder G → Type 0
  PassesOn r = (r.content_encoding_set || r.content_type_is_excluded) ≡ true

  send_all-parts :
      (r : Responder G) (contents : List Str) (last : Str)
      → PassesOn r
      → r.started ≡ true
      → send_all gzip r (parts contents last) ≡ ok (parts contents last, r)
  unfolding send_all send_with_compression body_unchanged PassesOn
  send_all-parts r [] last p s = ground arith
  send_all-parts r (content ∷ contents) last p s =
      ground (arith, send_all-parts r contents last p s)

  later_body-some :
      (r : Responder G) (file : G) (content : Str) (more_body : Bool)
      → r.gzip_file ≡ some file
      → (r.content_encoding_set || r.content_type_is_excluded) ≡ false
      → r.started ≡ true
      → send_with_compression gzip r (body content more_body)
        ≡ ok (
          body (compress_with gzip (some file) content more_body).0 more_body ∷ [],
          record r { gzip_file = (compress_with gzip (some file) content more_body).1 },
        )
  unfolding send_with_compression later_body apply_compression
  later_body-some r file content more_body g p s = rw (p, s, g) refl

  later_parts :
      (r : Responder G) (file : G) (contents : List Str) (last : Str)
      → r.gzip_file ≡ some file
      → (r.content_encoding_set || r.content_type_is_excluded) ≡ false
      → r.started ≡ true
      → (out : List Message) × (r' : Responder G) × (send_all gzip r (parts contents last)
          ≡ ok (out, r'))
        × (contents_of out ≡ compressed file contents last)
  unfolding send_all compress_with compressed
  later_parts r file [] last g p s = (
    body ((gzip.write file last).0 ++ (gzip.close (gzip.write file last).1).0) false ∷ [],
    record r { gzip_file = some (gzip.close (gzip.write file last).1).1 },
    rw (later_body-some r file last false g p s) refl,
    append-nil _,
  )
  later_parts r file (content ∷ contents) last g p s =
      let (out, r', e, c) =
        later_parts (record r { gzip_file = some (gzip.write file content).1 })
          (gzip.write file content).1 contents last refl p s in
      (
        body (gzip.write file content).0 true ∷ out,
        r',
        rw (later_body-some r file content true g p s, e) refl,
        rw c refl,
      )

  -- the responder behind the start of a response and a first body
  abbrev begun : ℕ → Option G → ℕ → RawHeaders → Responder G
  begun minimum_size file status headers = record {
    minimum_size = minimum_size;
    initial_status = status;
    initial_headers = headers;
    started = true;
    content_encoding_set = Headers.has_key (codes "content-encoding") headers;
    content_type_is_excluded = is_excluded headers;
    gzip_file = file;
  }

  and_false : (b : Bool) → (b && false) ≡ false
  and_false true = refl
  and_false false = refl

  -- A response that has a content coding of its own, or whose type is excluded, goes through as it
  -- is: its start, with the headers that it had, and every part of its body.
  pub send_all-passed :
      (minimum_size : ℕ) (file : Option G) (status : ℕ) (headers : RawHeaders) (contents : List Str)
      (last : Str)
      → (Headers.has_key (codes "content-encoding") headers || is_excluded headers) ≡ true
      → (r : Responder G) × (send_all gzip
            (init gzip minimum_size file)
            (start status headers ∷ parts contents last)
          ≡ ok (start status headers ∷ parts contents last, r))
  unfolding send_all send_with_compression body_unchanged init PassesOn
  send_all-passed minimum_size file status headers [] last p =
      (begun minimum_size file status headers, rw p refl)
  send_all-passed minimum_size file status headers (content ∷ contents) last p = (
    begun minimum_size file status headers,
    rw (p, send_all-parts (begun minimum_size file status headers) contents last p refl) refl,
  )

  -- A response in several parts, with no coding and no excluded type, is sent compressed: the
  -- bodies that the client receives are the stream that the compressor makes of all parts.
  pub send_all-compressed :
      (minimum_size : ℕ) (file : G) (status : ℕ) (headers : RawHeaders) (content : Str)
      (contents : List Str) (last : Str) (headers' : RawHeaders)
      → (Headers.has_key (codes "content-encoding") headers || is_excluded headers) ≡ false
      → new_headers gzip headers content (gzip.write file content).0 true ≡ ok headers'
      → (out : List Message) × (r : Responder G) × (send_all gzip
            (init gzip minimum_size (some file))
            (start status headers ∷ parts (content ∷ contents) last)
          ≡ ok (start status headers' ∷ out, r))
        × (contents_of out ≡ compressed file (content ∷ contents) last)
  unfolding send_all send_with_compression first_body first_compressed apply_compression
      compress_with init compressed
  send_all-compressed minimum_size file status headers content contents last headers' p h =
      let file' : G = (gzip.write file content).1 in
      let changed : Responder G = record (begun minimum_size (some file') status headers) {
        initial_headers = headers';
      } in
      let (out, r', e, c) = later_parts changed file' contents last refl p refl in
      (
        body (gzip.write file content).0 true ∷ out,
        r',
        rw (p, and_false (ltb (length content) minimum_size), h, e) refl,
        rw c refl,
      )
