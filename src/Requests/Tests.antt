-- ===== src/Requests/Tests.antt =====
-- Runs of starlette/requests.py.
use starlette.Prelude.{◌≡◌, refl, true, false, none, some, List, [], ◌∷◌, map, contains, list_beq}
use starlette.Prelude.Text.{Str, codes, str_eq}
use starlette.Prelude.Dict.{insert_all}
use starlette.Prelude.Result.{runtime_error}
use starlette.Websockets.{done, raised}
use starlette.Responses.Range.{strip, skip_space, is_space}
use starlette.Requests.{cookie_parser}
use starlette.Requests.Cookies.{IsPlain, header_text, cookie_parser-header_text}
use starlette.Requests.Stream.{
  Message, http_request, http_disconnect, Request, Stream, stream_all, iterate, next, loop, read_on,
  add_chunk, body,
}
use starlette.Requests.Stream.Laws.{
  Received, answer, received, body_lem, body-body, stream-consumed,
}

abbrev messages : List Message
messages =
    http_request (some (codes "ab")) (some true)
    ∷ http_request none (some true)
    ∷ http_request (some (codes "c")) none
    ∷ http_disconnect
    ∷ []

abbrev fresh_request : Request
fresh_request = record {
  incoming = messages;
  saved_body = none;
  stream_consumed = false;
  disconnected = false;
}

body_lem_example : body fresh_request ≡ some (answer fresh_request (received messages))
body_lem_example = body_lem fresh_request refl refl

abbrev read_request : Request
read_request = record {
  incoming = http_disconnect ∷ [];
  saved_body = some (codes "abc");
  stream_consumed = true;
  disconnected = false;
}

body-body_example :
    (body read_request ≡ some (done (codes "abc"), read_request))
    × (stream_all read_request
        ≡ some (record { chunks = codes "abc" ∷ [] ∷ []; end = done tt; request = read_request }))
body-body_example =
    body-body fresh_request read_request (codes "abc") (body_lem fresh_request refl refl)

abbrev read_stream : Stream
read_stream = record {
  chunks = codes "ab" ∷ codes "c" ∷ [] ∷ [];
  end = done tt;
  request = record {
    incoming = http_disconnect ∷ [];
    saved_body = none;
    stream_consumed = true;
    disconnected = false;
  };
}

stream-consumed_example :
    (codes "abc" ≡ Received.text (received messages))
    × (body (Stream.request read_stream) ≡ some (raised runtime_error, Stream.request read_stream))
    × (stream_all (Stream.request read_stream)
        ≡ some (record {
          chunks = [];
          end = raised runtime_error;
          request = Stream.request read_stream;
        }))
unfolding stream_all iterate next loop read_on add_chunk
stream-consumed_example = stream-consumed fresh_request read_stream refl refl refl refl

abbrev plain_cookies : List (Str × Str)
plain_cookies = (codes "a", codes "1") ∷ (codes "", codes "x") ∷ (codes "a", codes "2") ∷ []

IsPlain-a1 : IsPlain (codes "a", codes "1")
unfolding contains strip skip_space is_space list_beq
IsPlain-a1 = record {
  name_text = refl;
  name_equals = refl;
  name_strip = refl;
  value_text = refl;
  value_strip = refl;
  nonempty = refl;
}

IsPlain-x : IsPlain (codes "", codes "x")
unfolding contains strip skip_space is_space list_beq
IsPlain-x = record {
  name_text = refl;
  name_equals = refl;
  name_strip = refl;
  value_text = refl;
  value_strip = refl;
  nonempty = refl;
}

IsPlain-a2 : IsPlain (codes "a", codes "2")
unfolding contains strip skip_space is_space list_beq
IsPlain-a2 = record {
  name_text = refl;
  name_equals = refl;
  name_strip = refl;
  value_text = refl;
  value_strip = refl;
  nonempty = refl;
}

cookie_parser-header_text_example :
    cookie_parser (λ s. s) (header_text plain_cookies)
    ≡ insert_all (map (λ (c : Str × Str). (c.0, c.1)) plain_cookies) []
cookie_parser-header_text_example =
    cookie_parser-header_text (λ s. s) plain_cookies (IsPlain-a1, (IsPlain-x, (IsPlain-a2, tt)))
