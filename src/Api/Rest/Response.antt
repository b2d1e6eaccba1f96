-- ===== src/Api/Rest/Response.antt =====
-- src/api/rest_api.cpp, buildResponse: the text of a response.
use mcp2515_rpi.Base.{
  ℕ, zero, suc, ◌+◌, ◌/◌, ◌%◌, List, [], ◌∷◌, ◌++◌, length, ltb, ◌==◌, if◌then◌else◌,
}
use mcp2515_rpi.Base.Texts.{text}

unfoldable pub decimal : ℕ → ℕ → List ℕ
decimal zero n = (48 + n % 10) ∷ []
decimal (suc more) n =
    let front = decimal more (n / 10) in
    if ltb n 10 then (48 + n) ∷ [] else front ++ (48 + n % 10) ∷ []

unfoldable pub status_text : ℕ → List ℕ
status_text status =
    if status == 200
    then text "OK"
    else if status == 201
    then text "Created"
    else if status == 400
    then text "Bad Request"
    else if status == 404
    then text "Not Found"
    else if status == 405
    then text "Method Not Allowed"
    else if status == 500
    then text "Internal Server Error"
    else text "Unknown"

abbrev crlf : List ℕ
crlf = 13 ∷ 10 ∷ []

-- Twenty digits hold every size.
unfoldable pub build_response : ℕ → List ℕ → List ℕ
unfolding decimal status_text
build_response status body =
    text "HTTP/1.1 "
    ++ (decimal 20 status
        ++ (32
            ∷ (status_text status
                ++ (crlf
                    ++ (text "Content-Type: application/json"
                        ++ (crlf
                            ++ (text "Access-Control-Allow-Origin: *"
                                ++ (crlf
                                    ++ (text
                                          "Access-Control-Allow-Methods: GET, POST, PUT, DELETE, OPTIONS"
                                        ++ (crlf
                                            ++ (text
                                                  "Access-Control-Allow-Headers: Content-Type, Authorization"
                                                ++ (crlf
                                                    ++ (text "Content-Length: "
                                                        ++ (decimal 20 (length body)
                                                            ++ (crlf
                                                            ++ (text "Connection: close"
                                                            ++ (crlf
                                                            ++ (crlf ++ body))))))))))))))))))
