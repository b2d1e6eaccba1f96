-- ===== src/Api/Rest/Replies.antt =====
-- src/api/rest_api.cpp, buildResponse: what a client gets for the text of a handler.
use mcp2515_rpi.Base.{
  ℕ, zero, suc, ◌+◌, ◌-◌, ◌*◌, ◌/◌, ◌%◌, ◌<◌, ◌≤◌, ◌≡◌, refl, ◌∙◌, List, [], ◌∷◌, ◌++◌, length, All,
  ltb, if◌then◌else◌, arith, inl, inr, Bool-cases,
}
use mcp2515_rpi.Base.Texts.{text}
use mcp2515_rpi.Api.Rest.Response.{decimal, status_text, build_response}
use mcp2515_rpi.Api.Rest.{respond}

-- The number that decimal digits stand for, after a number.
abbrev number : ℕ → List ℕ → ℕ
number n [] = n
number n (d ∷ digits) = number (n * 10 + (d - 48)) digits

abbrev pub IsDecimal : List ℕ → ℕ → Type 0
IsDecimal digits n = All (λ d. (48 ≤ d) × (d ≤ 57)) digits × (number 0 digits ≡ n)

number-append :
    (n d : ℕ) (digits : List ℕ) → number n (digits ++ (d ∷ [])) ≡ number n digits * 10 + (d - 48)
number-append n d [] = refl
number-append n d (c ∷ digits) = number-append (n * 10 + (c - 48)) d digits

All-append : (P : ℕ → Type 0) (xs : List ℕ) (x : ℕ) → All P xs → P x → All P (xs ++ (x ∷ []))
All-append P [] x hs h = (h, tt)
All-append P (y ∷ xs) x hs h = (hs.0, All-append P xs x hs.1 h)

abbrev limit : ℕ → ℕ
limit zero = 10
limit (suc more) = 10 * limit more

decimal-IsDecimal : (more n : ℕ) → n < limit more → IsDecimal (decimal more n) n
unfolding decimal
decimal-IsDecimal zero n h = (((omega arith, omega arith), tt), omega arith)
decimal-IsDecimal (suc more) n h = elim (Bool-cases (ltb n 10)) [
  | inl small ↦
      let less : n < 10 = ground (arith, small) in
      rw (small, if◌then◌else◌) (((omega arith, omega arith), tt), omega arith)
  | inr large ↦
      let (digits, value) = decimal-IsDecimal more (n / 10) (omega arith) in
      rw (large, if◌then◌else◌)
        (
          All-append (λ d. (48 ≤ d) × (d ≤ 57)) (decimal more (n / 10)) (48 + n % 10) digits
              (omega arith, omega arith),
          number-append 0 (48 + n % 10) (decimal more (n / 10)) ∙ omega (arith, value),
        )
]

-- A handler's empty text stands for a path that it does not know.
abbrev pub status_of : List ℕ → List ℕ
status_of [] = text "404 Not Found"
status_of (c ∷ body) = text "200 OK"

abbrev pub content_of : List ℕ → List ℕ
content_of [] = text "{\"error\":\"Not Found\"}"
content_of (c ∷ body) = c ∷ body

abbrev line_end : List ℕ
line_end = 13 ∷ 10 ∷ []

abbrev header : List ℕ → List ℕ → List ℕ
header line rest = line ++ (line_end ++ rest)

abbrev pub reply_text : List ℕ → List ℕ → List ℕ → List ℕ
reply_text status digits content = header (text "HTTP/1.1 " ++ status) (
    header (text "Content-Type: application/json") (
      header (text "Access-Control-Allow-Origin: *") (
        header (text "Access-Control-Allow-Methods: GET, POST, PUT, DELETE, OPTIONS") (
          header (text "Access-Control-Allow-Headers: Content-Type, Authorization") (
            text "Content-Length: "
            ++ (digits
                ++ (line_end ++ (header (text "Connection: close") (header [] content)))))))))

pub respond_lem :
    (body : List ℕ)
    → respond body
      ≡ reply_text (status_of body) (decimal 20 (length (content_of body))) (content_of body)
unfolding build_response status_text
respond_lem [] = unfold decimal in refl
respond_lem (c ∷ body) = unfold decimal in refl

pub length-IsDecimal :
    (body : List ℕ)
    → length body < 18446744073709551616
    → IsDecimal (decimal 20 (length (content_of body))) (length (content_of body))
length-IsDecimal [] h = decimal-IsDecimal 20 _ (omega arith)
length-IsDecimal (c ∷ body) h = decimal-IsDecimal 20 _ (omega arith)
