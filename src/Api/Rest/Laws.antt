-- ===== src/Api/Rest/Laws.antt =====
-- src/api/rest_api.cpp: what a handler sees of a request, and what the client gets.
use mcp2515_rpi.Base.{
  ℕ, suc, ◌-◌, replicate, ◌<◌, ◌≡◌, refl, ap, ap₂, ◌∙◌, false, Option, some, List, [], ◌∷◌, ◌++◌,
  length, All, ◌==◌, if◌then◌else◌, arith,
}
use mcp2515_rpi.Base.Texts.{text, same_text}
use mcp2515_rpi.Logging.Replay.Text.{is_space}
use mcp2515_rpi.Logging.Replay.Lines.{read_word_of}
use mcp2515_rpi.Api.Rest.Response.{decimal}
use mcp2515_rpi.Api.Rest.Params.{with_query, IsParam, Distinct, query-with_query}
use mcp2515_rpi.Api.Rest.Replies.{
  IsDecimal, status_of, content_of, reply_text, respond_lem, length-IsDecimal,
}
use mcp2515_rpi.Api.Rest.{
  split_at, query_params, has, parsed, headers_end, Handler, c_string, read_headers, parse_request,
  respond, answer, serve,
}

-- A word of a request line: not empty, without spaces and zeros.
pub record IsWord (word : List ℕ) : Type 0 where
  pub ink : All (λ c. is_space c ≡ false) word
  pub no_zero : All (λ c. (c == 0) ≡ false) word
  pub long : 0 < length word

c_string-append :
    (xs ys : List ℕ) → All (λ c. (c == 0) ≡ false) xs → c_string (xs ++ ys) ≡ xs ++ c_string ys
unfolding c_string
c_string-append [] ys h = refl
c_string-append (x ∷ xs) ys h = rw (h.0, if◌then◌else◌, c_string-append xs ys h.1) refl

-- A request line, and whatever follows it.
abbrev pub request : List ℕ → List ℕ → List ℕ → List ℕ → List ℕ
request method path version rest = method ++ (32 ∷ (path ++ (32 ∷ (version ++ (13 ∷ 10 ∷ rest)))))

c_string-request :
    (method path version rest : List ℕ)
    → IsWord method
    → IsWord path
    → IsWord version
    → c_string (request method path version rest) ≡ request method path version (c_string rest)
unfolding c_string
c_string-request method path version rest m p v =
    rw
      (
        c_string-append method (32 ∷ (path ++ (32 ∷ (version ++ (13 ∷ 10 ∷ rest))))) m.no_zero,
        c_string-append path (32 ∷ (version ++ (13 ∷ 10 ∷ rest))) p.no_zero,
        c_string-append version (13 ∷ 10 ∷ rest) v.no_zero,
      )
      refl

-- The rest of the request line is taken for the empty line.
no_headers :
    (fuel : ℕ) (rest : List ℕ) → read_headers (suc fuel) 0 (13 ∷ 10 ∷ rest) ≡ headers_end 0 rest
unfolding read_headers
no_headers fuel rest = refl

-- Whatever headers and body follow the request line, the request is parsed without them: its body is empty.
pub parse_request_lem :
    (method path version rest : List ℕ)
    → IsWord method
    → IsWord path
    → IsWord version
    → parse_request (request method path version rest)
      ≡ parsed (record { method = method; path = path; body = [] })
unfolding parse_request
parse_request_lem method path version rest m p v =
    let after = c_string rest in
    rw
      (
        c_string-request method path version rest m p v,
        (read_word_of method (32 ∷ (path ++ (32 ∷ (version ++ (13 ∷ 10 ∷ after))))) m.ink m.long
            refl).0,
        (read_word_of path (32 ∷ (version ++ (13 ∷ 10 ∷ after))) p.ink p.long refl).1,
        (read_word_of version (13 ∷ 10 ∷ after) v.ink v.long refl).1,
      )
      (ap (λ n. parsed (record { method = method; path = path; body = replicate n 0 }))
        {x = 0 - length after} {y = 0} (omega arith))

module _ {S : Type 0} where
  serve-request :
      (handler : Option (Handler S)) (s : S) (method path version rest : List ℕ)
      → IsWord method
      → IsWord path
      → IsWord version
      → serve handler s (request method path version rest)
        ≡ some (answer handler s (record { method = method; path = path; body = [] }))
  unfolding serve
  serve-request handler s [] path version rest m p v = absurd (impossible m.long)
    where
      impossible : 0 < length {A = ℕ} [] → ⊥
      impossible h = omega arith
  serve-request handler s (c ∷ method) path version rest m p v =
      rw (parse_request_lem (c ∷ method) path version rest m p v) refl

  pub serve-respond :
      (handler : Handler S) (s : S) (method path version rest : List ℕ)
      → IsWord method
      → IsWord path
      → IsWord version
      → same_text method (text "OPTIONS") ≡ false
      → serve (some handler) s (request method path version rest)
        ≡ some (
          (handler s (split_at b'?' path).0 method [] (query_params path)).0,
          respond (handler s (split_at b'?' path).0 method [] (query_params path)).1,
        )
  serve-respond handler s method path version rest m p v other =
      serve-request (some handler) s method path version rest m p v ∙ rw (other, if◌then◌else◌) refl

  -- A request other than OPTIONS, for a path without a question mark and parameters of different names, written
  -- without the characters that separate them, spaces and zeros, reaches the handler with the path, its method, an empty
  -- body and exactly those parameters, whatever headers and body the client sends. The handler's text of less than 2^64
  -- characters is sent with status 200 and its length in decimal digits; where the text is empty, the client gets status
  -- 404 and an error.
  pub serve_lem :
      (handler : Handler S) (s : S) (method path : List ℕ) (params : List (List ℕ × List ℕ))
      (version rest : List ℕ)
      → IsWord method
      → IsWord (with_query path params)
      → IsWord version
      → same_text method (text "OPTIONS") ≡ false
      → has b'?' path ≡ false
      → All IsParam params
      → Distinct params
      → length (handler s path method [] params).1 < 18446744073709551616
      → (digits : List ℕ) × IsDecimal digits
          (length (content_of (handler s path method [] params).1))
        × (serve (some handler) s (request method (with_query path params) version rest)
            ≡ some (
              (handler s path method [] params).0,
              reply_text
                  (status_of (handler s path method [] params).1)
                  digits
                  (content_of (handler s path method [] params).1),
            ))
  serve_lem handler s method path params version rest m p v other plain good apart small =
      let body = (handler s path method [] params).1 in
      let (clean, exact) = query-with_query path params plain good apart in
      (
        decimal 20 (length (content_of body)),
        length-IsDecimal body small,
        serve-respond handler s method (with_query path params) version rest m p v other
            ∙ ap (λ reply. some (reply.0, respond reply.1))
                (ap₂ (λ p q. handler s p method [] q) clean exact)
            ∙ ap (λ reply. some ((handler s path method [] params).0, reply)) (respond_lem body),
      )
