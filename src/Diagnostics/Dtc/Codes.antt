-- ===== src/Diagnostics/Dtc/Codes.antt =====
-- DTCManager::encodeCode and decodeCode. A text is the list of its characters' codes.
use Prim.Native.Nat.{bit_and, bit_or}
use mcp2515_rpi.Base.{
  ℕ, zero, suc, ◌+◌, ◌-◌, ◌*◌, ◌/◌, ◌%◌, ◌^◌, ◌<◌, ◌≡◌, ◌↔◌, refl, ◌∙◌, ap, Bool, true, false, not,
  ◌&&◌, ◌||◌, Option, none, some, List, [], ◌∷◌, ◌++◌, arith, u16, map, All, ◌<<◌, ◌>>◌, length,
  take, drop, leb, ltb, ◌==◌, if◌then◌else◌,
}
use mcp2515_rpi.Base.Bits.{bit_and_low, bit_and_0f, bit_and_shifted, bit_or_join}
use mcp2515_rpi.Base.Tables.{agree_below, all_below, below_table}

abbrev pub is_digit : ℕ → Bool
is_digit c = leb b'0' c && leb c b'9'

-- The number that the leading digits spell, and whether there is one.
unfoldable pub digits_value : Bool → ℕ → List ℕ → Option ℕ
digits_value seen acc [] = if seen then some acc else none
digits_value seen acc (c ∷ cs) =
    let rest = digits_value true (acc * 10 + (c - b'0')) cs in
    if is_digit c then rest else if seen then some acc else none

abbrev negate : Option ℕ → Option ℕ
negate none = none
negate (some n) = some ((2 ^ 32 - n) % 2 ^ 32)

signed_value : List ℕ → Option ℕ
unfolding digits_value
signed_value [] = none
signed_value (c ∷ cs) =
    if c == b'-'
    then negate (digits_value false 0 cs)
    else if c == b'+'
    then digits_value false 0 cs
    else digits_value false 0 (c ∷ cs)

abbrev is_space : ℕ → Bool
is_space c = c == 32 || (leb 9 c && leb c 13)

-- `std::stoi` as the bit pattern of its `int`; `none` is the exception that it throws.
unfoldable pub stoi : List ℕ → Option ℕ
unfolding signed_value
stoi [] = none
stoi (c ∷ cs) = let rest = stoi cs in if is_space c then rest else signed_value (c ∷ cs)

-- `std::to_string` of a number below 16.
unfoldable pub to_string : ℕ → List ℕ
to_string n = if ltb n 10 then (b'0' + n) ∷ [] else b'1' ∷ (b'0' + (n - 10)) ∷ []

abbrev pub letter_bits : ℕ → Option ℕ
letter_bits c =
    if c == b'P'
    then some 0x0000
    else if c == b'C'
    then some 0x4000
    else if c == b'B'
    then some 0x8000
    else if c == b'U'
    then some 0xC000
    else none

-- The two numbers behind the letter, put together with its bits.
abbrev pub join_code : ℕ → ℕ → ℕ → ℕ
join_code bits high low = u16 (bit_or (u16 (bit_or bits (high << 12))) (bit_and low 0x0FFF))

unfoldable pub encode_code : List ℕ → Option ℕ
unfolding stoi
encode_code [] = some 0
encode_code (c ∷ cs) = if ltb (length (c ∷ cs)) 5 then some 0 else elim (letter_bits c) [
  | none ↦ some 0
  | some bits ↦ elim (stoi (take 1 cs)) [
    | none ↦ none
    | some high ↦ elim (stoi (take 3 (drop 1 cs))) [
      | none ↦ none
      | some low ↦ some (join_code bits high low)
    ]
  ]
]

abbrev pub letter : ℕ → ℕ
letter bits =
    if bits == 0x0000
    then b'P'
    else if bits == 0x4000
    then b'C'
    else if bits == 0x8000
    then b'B'
    else if bits == 0xC000
    then b'U'
    else b'?'

unfoldable pub decode_code : ℕ → List ℕ
unfolding to_string
decode_code code =
    letter (bit_and code 0xC000)
    ∷ (to_string (bit_and (code >> 12) 0x0F)
        ++ (to_string (bit_and (code >> 8) 0x0F)
            ++ (to_string (bit_and (code >> 4) 0x0F) ++ to_string (bit_and code 0x0F))))

p0301_shown : decode_code 0x0301 ≡ b'P' ∷ b'0' ∷ b'3' ∷ b'0' ∷ b'1' ∷ []
unfolding decode_code
p0301_shown = refl

p0301_read : encode_code (b'P' ∷ b'0' ∷ b'3' ∷ b'0' ∷ b'1' ∷ []) ≡ some 301
unfolding encode_code
p0301_read = refl

letter_mask : (d : ℕ) → d < 16 → bit_and (d * 4096) 0xC000 ≡ d / 4 * 16384
unfolding all_below
letter_mask = agree_below 16 (λ d. bit_and (d * 4096) 0xC000) (λ d. d / 4 * 16384) refl

letter_join : (d : ℕ) → d < 16 → bit_or (d / 4 * 16384) (d * 4096) ≡ d * 4096
unfolding all_below
letter_join = agree_below 16 (λ d. bit_or (d / 4 * 16384) (d * 4096)) (λ d. d * 4096) refl

-- `& 0xC000` of a code sees its top digit only.
top_letter : (code : ℕ) → code < 65536 → bit_and code 0xC000 ≡ code / 16384 * 16384
top_letter code h = ground (arith, bit_and_shifted 14 code 3, bit_and_low 2 (code / 16384))

-- The digits of a code, each at most 9.
pub record IsDecimal (code : ℕ) : Type 0 where
  pub top : code / 4096 < 10
  pub second : code / 256 % 16 < 10
  pub third : code / 16 % 16 < 10
  pub fourth : code % 16 < 10

shown :
    (code : ℕ)
    → code < 65536
    → IsDecimal code
    → decode_code code
      ≡ letter (code / 16384 * 16384)
        ∷ (b'0' + code / 4096)
        ∷ (b'0' + code / 256 % 16)
        ∷ (b'0' + code / 16 % 16)
        ∷ (b'0' + code % 16)
        ∷ []
unfolding decode_code
shown code h d = ground (
  arith,
  top_letter code h,
  bit_and_0f (code / 4096),
  bit_and_0f (code / 256),
  bit_and_0f (code / 16),
  bit_and_0f code,
)

-- A digit's character.
digit_is_digit : (d : ℕ) → d < 10 → is_digit (b'0' + d) ≡ true
unfolding all_below
digit_is_digit d h = below_table (λ d. is_digit (b'0' + d)) 10 d h refl

digit_is_no_space : (d : ℕ) → d < 10 → not (is_space (b'0' + d)) ≡ true
unfolding all_below
digit_is_no_space d h = below_table (λ d. not (is_space (b'0' + d))) 10 d h refl

read_digits : ℕ → List ℕ → ℕ
read_digits acc [] = acc
read_digits acc (d ∷ ds) = read_digits (acc * 10 + d) ds

digits_value-digits :
    (acc : ℕ) (ds : List ℕ)
    → All (λ d. d < 10) ds
    → digits_value true acc (map (λ d. b'0' + d) ds) ≡ some (read_digits acc ds)
unfolding digits_value read_digits
digits_value-digits acc [] h = refl
digits_value-digits acc (d ∷ ds) (h, hs) =
    ground (arith, digit_is_digit d h, digits_value-digits (acc * 10 + d) ds hs)

-- `stoi` of decimal digits is their number.
stoi-digits :
    (d : ℕ) (ds : List ℕ)
    → d < 10
    → All (λ d. d < 10) ds
    → stoi (map (λ d. b'0' + d) (d ∷ ds)) ≡ some (read_digits d ds)
unfolding stoi signed_value digits_value read_digits
stoi-digits d ds h hs =
    ground (arith, digit_is_digit d h, digit_is_no_space d h, digits_value-digits d ds hs)

read_one : (d : ℕ) → d < 10 → stoi ((b'0' + d) ∷ []) ≡ some d
unfolding read_digits
read_one d h = stoi-digits d [] h tt

read_three :
    (x y z : ℕ)
    → x < 10
    → y < 10
    → z < 10
    → stoi ((b'0' + x) ∷ (b'0' + y) ∷ (b'0' + z) ∷ []) ≡ some (x * 100 + y * 10 + z)
unfolding read_digits
read_three x y z hx hy hz =
    stoi-digits x (y ∷ z ∷ []) hx (hy, (hz, tt)) ∙ ap (λ n. some n) (omega arith)

-- The letter that stands for the top two bits is read back as those bits.
letter_read : (q : ℕ) → q < 4 → letter_bits (letter (q * 16384)) ≡ some (q * 16384)
letter_read zero h = refl
letter_read (suc zero) h = refl
letter_read (suc (suc zero)) h = refl
letter_read (suc (suc (suc zero))) h = refl
letter_read (suc (suc (suc (suc q)))) h = absurd (omega arith)

joined :
    (top low : ℕ) → top < 10 → low < 1000 → join_code (top / 4 * 16384) top low ≡ top * 4096 + low
joined top low h k = ground (arith, letter_join top, bit_and_low 12 low, bit_or_join 12 top low)

-- A code of four decimal digits, shown and read back, keeps its top digit with the letter; the low three
-- digits come back as the decimal number that they spell.
pub encode-decode_code :
    (code : ℕ)
    → code < 65536
    → IsDecimal code
    → encode_code (decode_code code)
      ≡ some (code / 4096 * 4096 + (code / 256 % 16 * 100 + code / 16 % 16 * 10 + code % 16))
unfolding encode_code
encode-decode_code code h d =
    rw
      (
        shown code h d,
        letter_read (code / 16384) (omega arith),
        read_one (code / 4096) d.top,
        read_three (code / 256 % 16) (code / 16 % 16) (code % 16) d.second d.third d.fourth,
      )
      (ap (λ n. some n)
        (ground
          (arith, joined (code / 4096) (code / 256 % 16 * 100 + code / 16 % 16 * 10 + code % 16))))

-- A code of four decimal digits below 0x10000 survives being shown and read back exactly when its second
-- and third digits are zero.
pub encode-decode_code_iff :
    (code : ℕ)
    → code < 65536
    → IsDecimal code
    → (encode_code (decode_code code) ≡ some code) ↔ (code / 256 % 16 ≡ 0) × (code / 16 % 16 ≡ 0)
encode-decode_code_iff code h d = rw (encode-decode_code code h d) (grind arith, grind arith)
