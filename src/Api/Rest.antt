-- ===== src/Api/Rest.antt =====
-- src/api/rest_api.hpp and rest_api.cpp, RESTAPI. What a read of the socket gives is an argument, and the handler is
-- a function on a state of any type. The headers that the source stores and never reads are left out.
pub mod Response
pub mod Params
pub mod Replies
pub mod Laws
use mcp2515_rpi.Base.{
  ℕ, zero, suc, ◌+◌, ◌-◌, ◌/◌, ◌%◌, Bool, true, false, not, ◌&&◌, Option, none, some, List, [], ◌∷◌,
  ◌++◌, length, take, replicate, ltb, leb, ◌==◌, if◌then◌else◌,
}
use mcp2515_rpi.Api.Rest.Response.{build_response}
use mcp2515_rpi.Base.Texts.{text, same_text}
use mcp2515_rpi.Diagnostics.Dtc.Codes.{digits_value}
use mcp2515_rpi.Logging.Replay.Text.{skip_spaces, read_word}

-- `std::getline`: the characters before the delimiter and those after it; `none` at the end.
unfoldable pub split_at : ℕ → List ℕ → List ℕ × List ℕ
split_at delimiter [] = ([], [])
split_at delimiter (c ∷ cs) =
    let rest = split_at delimiter cs in if c == delimiter then ([], cs) else (c ∷ rest.0, rest.1)

unfoldable pub get_line : ℕ → List ℕ → Option (List ℕ × List ℕ)
unfolding split_at
get_line delimiter [] = none
get_line delimiter (c ∷ cs) = some (split_at delimiter (c ∷ cs))

abbrev pub has : ℕ → List ℕ → Bool
has c [] = false
has c (d ∷ ds) = if d == c then true else has c ds

abbrev pub bounded : ℕ → Option ℕ → Option ℕ
bounded limit none = none
bounded limit (some n) = if leb n limit then some n else none

abbrev pub not_positive : Option ℕ → Option ℕ
not_positive none = none
not_positive (some n) = some 0

abbrev pub signed_length : List ℕ → Option ℕ
signed_length [] = none
signed_length (c ∷ cs) =
    if c == b'-'
    then not_positive (bounded 2147483648 (digits_value false 0 cs))
    else bounded 2147483647 (digits_value false 0 (if c == b'+' then cs else c ∷ cs))

-- `std::stoi` of a length; a negative one counts as 0, since the source asks for a positive one. `none` throws.
unfoldable pub length_value : List ℕ → Option ℕ
unfolding skip_spaces
length_value cs = signed_length (skip_spaces cs)

-- How the parse ends: `undefined` is `line.back()` of an empty line, `thrown` an exception that nothing catches.
pub data Headers : Type 0 where
  undefined thrown : Headers
  headers_end : ℕ → List ℕ → Headers

abbrev pub without_cr : List ℕ → List ℕ
without_cr [] = []
without_cr (c ∷ []) = if c == 13 then [] else c ∷ []
without_cr (c ∷ d ∷ cs) = c ∷ without_cr (d ∷ cs)

-- A header's effect on the content length: `none` throws.
abbrev pub header_value : ℕ → List ℕ → List ℕ → Option ℕ
header_value content_length key [] = none
header_value content_length key (c ∷ value) =
    if same_text key (text "Content-Length") then length_value value else some content_length

abbrev pub header_line : ℕ → List ℕ → Option ℕ
header_line content_length line =
    if has b':' line
    then header_value content_length (split_at b':' line).0 (split_at b':' line).1
    else some content_length

abbrev pub go_on : Option ℕ → (ℕ → Headers) → Headers
go_on none next = thrown
go_on (some content_length) next = next content_length

-- A line of the loop: the empty line of a request ends it.
abbrev pub on_line : ℕ → List ℕ → List ℕ → (ℕ → Headers) → Headers
on_line content_length [] rest next = undefined
on_line content_length (c ∷ line) rest next =
    if same_text (c ∷ line) (13 ∷ [])
    then headers_end content_length rest
    else go_on (header_line content_length (without_cr (c ∷ line))) next

abbrev pub on_read : ℕ → Option (List ℕ × List ℕ) → (List ℕ → ℕ → Headers) → Headers
on_read content_length none next = headers_end content_length []
on_read content_length (some (line, rest)) next = on_line content_length line rest (next rest)

-- Each line takes a character, so that the length of the text is enough fuel.
unfoldable pub read_headers : ℕ → ℕ → List ℕ → Headers
unfolding get_line split_at length_value
read_headers zero content_length stream = headers_end content_length stream
read_headers (suc fuel) content_length stream =
    on_read content_length (get_line 10 stream) (λ rest n. read_headers fuel n rest)

pub record Request : Type 0 where
  pub method : List ℕ
  pub path : List ℕ
  pub body : List ℕ

pub data Parsed : Type 0 where
  undefined thrown : Parsed
  parsed : Request → Parsed

-- `body.resize(n)` fills with zeros, and the read leaves those that the stream has no characters for.
abbrev pub read_body : ℕ → List ℕ → List ℕ
read_body n rest = take n rest ++ replicate (n - length rest) 0

abbrev pub with_headers : List ℕ → List ℕ → Headers → Parsed
with_headers method path Headers.undefined = Parsed.undefined
with_headers method path Headers.thrown = Parsed.thrown
with_headers method path (headers_end n rest) =
    parsed record { method = method; path = path; body = read_body n rest }

-- The buffer as a C string: up to its first zero.
unfoldable pub c_string : List ℕ → List ℕ
c_string [] = []
c_string (c ∷ cs) = let rest = c_string cs in if c == 0 then [] else c ∷ rest

unfoldable pub parse_request : List ℕ → Parsed
unfolding read_word read_headers c_string
parse_request received =
    let method = read_word (c_string received) in
    let path = read_word method.1 in
    let version = read_word path.1 in
    with_headers method.0 path.0 (read_headers (length version.1) 0 version.1)

-- `params[name] = value`.
abbrev pub Params : Type 0
Params = List (List ℕ × List ℕ)

unfoldable pub put_param : Params → List ℕ → List ℕ → Params
put_param [] name value = (name, value) ∷ []
put_param ((n, v) ∷ params) name value =
    let rest = put_param params name value in
    if same_text n name then (n, value) ∷ params else (n, v) ∷ rest

unfoldable pub count_param : Params → List ℕ → Bool
count_param [] name = false
count_param ((n, v) ∷ params) name =
    let rest = count_param params name in if same_text n name then true else rest

abbrev pub add_pair : Params → List ℕ → Params
add_pair params pair =
    if has b'=' pair then put_param params (split_at b'=' pair).0 (split_at b'=' pair).1 else params

abbrev pub on_pair : Params → Option (List ℕ × List ℕ) → (Params → List ℕ → Params) → Params
on_pair params none next = params
on_pair params (some (pair, rest)) next = next (add_pair params pair) rest

unfoldable pub read_params : ℕ → Params → List ℕ → Params
unfolding get_line split_at put_param
read_params zero params query = params
read_params (suc fuel) params query =
    on_pair params (get_line b'&' query) (λ more rest. read_params fuel more rest)

abbrev pub query_params : List ℕ → Params
query_params path = let query = (split_at b'?' path).1 in read_params (length query) [] query

-- A handler on a state: path, method, body and parameters.
abbrev pub Handler : Type 0 → Type 0
Handler S = S → List ℕ → List ℕ → List ℕ → Params → S × List ℕ

abbrev default_body : List ℕ
default_body = text "{\"status\":\"ok\",\"service\":\"ECU Multi-Emulator\",\"version\":\"1.0.0\"}"

abbrev pub not_found : List ℕ
not_found = text "{\"error\":\"Not Found\"}"

abbrev pub respond : List ℕ → List ℕ
unfolding build_response
respond [] = build_response 404 not_found
respond (c ∷ body) = build_response 200 (c ∷ body)

module _ {S : Type 0} where
  abbrev pub call : Option (Handler S) → S → Request → S × List ℕ
  call none s r = (s, default_body)
  call (some handler) s r = handler s (split_at b'?' r.path).0 r.method r.body (query_params r.path)

  abbrev pub answer : Option (Handler S) → S → Request → S × List ℕ
  answer handler s r =
      if same_text r.method (text "OPTIONS")
      then (s, build_response 200 [])
      else ((call handler s r).0, respond (call handler s r).1)

  -- How a connection ends: the state and what is written to it, or the end of the program.
  abbrev pub serve_parsed : Option (Handler S) → S → Parsed → Option (S × List ℕ)
  serve_parsed handler s Parsed.undefined = none
  serve_parsed handler s Parsed.thrown = none
  serve_parsed handler s (parsed r) = some (answer handler s r)

  -- One round of the loop for a client whose read gives `received`; a read of nothing closes the connection.
  unfoldable pub serve : Option (Handler S) → S → List ℕ → Option (S × List ℕ)
  unfolding parse_request split_at read_params build_response
  serve handler s [] = some (s, [])
  serve handler s (c ∷ received) = serve_parsed handler s (parse_request (c ∷ received))

pub record RestApi (S : Type 0) : Type 0 where
  pub running : Bool
  pub thread_runs : Bool
  pub custom_handler : Option (Handler S)

module _ {S : Type 0} where
  unfoldable pub start : RestApi S → RestApi S × Bool
  start a = if a.running then (a, true) else (record a { running = true; thread_runs = true }, true)

  -- `stop` waits for the loop to see that it has to end.
  unfoldable pub stop : RestApi S → RestApi S
  stop a = record a { running = false; thread_runs = false }

  unfoldable pub set_route_handler : RestApi S → Handler S → RestApi S
  set_route_handler a handler = record a { custom_handler = some handler }
