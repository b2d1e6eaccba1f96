-- ===== src/Api/Runs.antt =====
-- Concrete requests, and the theorems at concrete inputs.
use mcp2515_rpi.Base.{ℕ, List, length, ◌+◌, ◌≡◌, refl, false, some, [], ◌∷◌, arith}
use mcp2515_rpi.Base.Texts.{text}
use mcp2515_rpi.Api.Rest.{Handler, Parsed, serve, query_params, parse_request, read_params}
use mcp2515_rpi.Api.Rest.Params.{with_query}
use mcp2515_rpi.Api.Rest.Replies.{IsDecimal, status_of, content_of, reply_text}
use mcp2515_rpi.Api.Rest.Laws.{IsWord, request, serve_lem}
use mcp2515_rpi.Api.Servers.{
  WebSocketServer, Reach, begin, next, starts, generates, start, set_update_generator, ws_round,
  ws_round_lem,
}
use mcp2515_rpi.Api.Servers as servers

-- A handler that counts its calls and answers with the body it gets.
abbrev echo : Handler ℕ
echo s path method body params = (s + 1, body)

abbrev a_param : List (List ℕ × List ℕ)
a_param = (text "b", text "1") ∷ []

get_IsWord : IsWord (text "GET")
get_IsWord = record {
  ink = (refl, (refl, (refl, tt)));
  no_zero = (refl, (refl, (refl, tt)));
  long = omega arith;
}

path_IsWord : IsWord (text "/a?b=1")
path_IsWord = record {
  ink = (refl, (refl, (refl, (refl, (refl, (refl, tt))))));
  no_zero = (refl, (refl, (refl, (refl, (refl, (refl, tt))))));
  long = omega arith;
}

version_IsWord : IsWord (text "HTTP")
version_IsWord = record {
  ink = (refl, (refl, (refl, (refl, tt))));
  no_zero = (refl, (refl, (refl, (refl, tt))));
  long = omega arith;
}

serve_lem_example :
    (digits : List ℕ) × IsDecimal digits
      (length (content_of (echo 4 (text "/a") (text "GET") [] a_param).1))
    × (serve (some echo) 4 (
          request
            (text "GET")
            (with_query (text "/a") a_param)
            (text "HTTP")
            (text "Content-Length: 1"))
        ≡ some (
          (echo 4 (text "/a") (text "GET") [] a_param).0,
          reply_text
              (status_of (echo 4 (text "/a") (text "GET") [] a_param).1)
              digits
              (content_of (echo 4 (text "/a") (text "GET") [] a_param).1),
        ))
serve_lem_example =
    serve_lem echo 4 (text "GET") (text "/a") a_param (text "HTTP") (text "Content-Length: 1")
      get_IsWord path_IsWord version_IsWord refl refl
      (record { name_plain = refl; name_whole = refl; value_whole = refl }, tt) (tt, tt)
      (omega arith)

-- Later values of a parameter replace earlier ones, and a pair without `=` counts for nothing.
parameters : query_params (text "/a?b=1&c&b=2") ≡ (text "b", text "2") ∷ []
unfolding read_params
parameters = refl

-- After a request line without a carriage return, the source takes the last character of an empty line.
bare_line_feed : parse_request (text "POST /x HTTP\nContent-Length: 2") ≡ Parsed.undefined
unfolding parse_request
bare_line_feed = refl

ws_round_lem_example :
    let w = set_update_generator (start servers.init).0 (λ n. n ∷ []) in
    (w.clients ≡ []) × ((ws_round (λ c. false) w 7).1 ≡ [])
ws_round_lem_example =
    ws_round_lem (λ c. false) 7
      (next (next begin (starts servers.init)) (generates (start servers.init).0 (λ n. n ∷ [])))
