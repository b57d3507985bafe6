-- ===== src/Middleware/Base/Tests.antt =====
-- Runs of `BaseHTTPMiddleware`.
use starlette.Prelude.{◌≡◌, refl, true, none, some, List, [], ◌∷◌, All}
use starlette.Prelude.Text.{Str, codes}
use starlette.Prelude.Result.{foreign_error, runtime_error}
use starlette.Middleware.Base.{
  start, pathsend, call, call_next, started, after_debug, body_stream, end_of_stream,
  already_raised, closes_body, send_chunks, send_debug, respond, raise_again, finish,
}
use starlette.Middleware.Base.Laws.{
  Body, body_text, concat, NonEmpty, response_to, forwarded, call-response_to,
}

-- an application that fails before its second body
abbrev cut_off : List Body
cut_off = (some (codes "ab"), some true) ∷ (some [], some true) ∷ []

call-response_to_example :
    (chunks : List Str) × (call
        (λ response. response)
        (response_to none 200 [] cut_off)
        (some foreign_error)
      ≡ (forwarded none 200 [] chunks, some foreign_error))
    × (concat chunks ≡ body_text cut_off)
    × All NonEmpty chunks
call-response_to_example = call-response_to 200 [] cut_off (some foreign_error) none

-- A path is passed on, and no body is closed behind it.
path_sent :
    call (λ response. response) (start 200 [] ∷ pathsend (codes "/f") ∷ []) none
    ≡ (start 200 [] ∷ pathsend (codes "/f") ∷ [], none)
unfolding call call_next started after_debug body_stream already_raised respond closes_body
    send_chunks send_debug raise_again finish
path_sent = refl

no_response : call (λ response. response) [] none ≡ ([], some runtime_error)
unfolding call call_next end_of_stream finish
no_response = refl
