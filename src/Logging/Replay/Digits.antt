-- ===== src/Logging/Replay/Digits.antt =====
-- src/logging/replay_analyzer.cpp: hexadecimal numbers as they are printed and read.
use mcp2515_rpi.Base.{
  ℕ, zero, suc, ◌+◌, ◌*◌, ◌/◌, ◌%◌, ◌<◌, ◌≡◌, refl, ap, ◌∙◌, Bool, true, false, not, ◌||◌, List, [],
  ◌∷◌, ◌++◌, append_assoc, All-append, All, arith, ltb, ◌==◌, inl, inr, Bool-cases, if◌then◌else◌,
}
use mcp2515_rpi.Base.Tables.{all_below, below_table, agree_below}
use mcp2515_rpi.Logging.Replay.Text.{
  is_space, is_hex, hex_value, hex_digit, hex_digits, hex_text, starts_hex,
}

-- A digit that is printed is one that is read.
pub hex_digit_value : (d : ℕ) → d < 16 → hex_value (hex_digit d) ≡ d
unfolding all_below
hex_digit_value d h = agree_below 16 (λ d. hex_value (hex_digit d)) (λ d. d) refl d h

pub hex_digit-is_hex : (d : ℕ) → d < 16 → is_hex (hex_digit d) ≡ true
unfolding all_below
hex_digit-is_hex d h = below_table (λ d. is_hex (hex_digit d)) 16 d h refl

-- A number of `more + 1` hexadecimal digits.
abbrev pub Fits : ℕ → ℕ → Type 0
Fits zero n = n < 16
Fits (suc more) n = Fits more (n / 16)

pub hex_digits-hex_digit :
    (value d : ℕ) (rest : List ℕ)
    → d < 16
    → hex_digits value (hex_digit d ∷ rest) ≡ hex_digits (value * 16 + d) rest
unfolding hex_digits
hex_digits-hex_digit value d rest h =
    rw (hex_digit-is_hex d h, if◌then◌else◌, hex_digit_value d h) refl

-- Reading a printed number gives the number and goes on after it.
pub hex_digits-hex_text :
    (more n : ℕ) (rest : List ℕ)
    → Fits more n
    → hex_digits 0 (hex_text more n ++ rest) ≡ hex_digits n rest
unfolding hex_text
hex_digits-hex_text zero n rest h =
    hex_digits-hex_digit 0 (n % 16) rest (omega arith)
    ∙ ap (λ v. hex_digits v rest) {x = 0 * 16 + n % 16} (omega arith)
hex_digits-hex_text (suc more) n rest h = elim (Bool-cases (ltb n 16)) [
  | inl small ↦
      rw (small, if◌then◌else◌)
        (hex_digits-hex_digit 0 n rest (ground (arith, small))
          ∙ ap (λ v. hex_digits v rest) {x = 0 * 16 + n} (omega arith))
  | inr large ↦
      rw
        (
          large,
          if◌then◌else◌,
          append_assoc (hex_text more (n / 16)) (hex_digit (n % 16) ∷ []) rest,
          hex_digits-hex_text more (n / 16) (hex_digit (n % 16) ∷ rest) h,
          hex_digits-hex_digit (n / 16) (n % 16) rest (omega arith),
        )
        (ap (λ v. hex_digits v rest) {x = n / 16 * 16 + n % 16} (omega arith))
]

-- A character that is no space, no sign and no `x`.
abbrev pub is_plain : ℕ → Bool
is_plain c = not (is_space c || c == b'-' || c == b'+' || c == b'x' || c == b'X')

pub hex_digit-is_plain : (d : ℕ) → d < 16 → is_plain (hex_digit d) ≡ true
unfolding all_below
hex_digit-is_plain d h = below_table (λ d. is_plain (hex_digit d)) 16 d h refl

abbrev pub Ink : List ℕ → Type 0
Ink = All (λ c. is_space c ≡ false)

pub hex_digit_is_ink : (d : ℕ) → d < 16 → is_space (hex_digit d) ≡ false
hex_digit_is_ink d h = ground (arith, hex_digit-is_plain d h)

pub Ink-append : (xs ys : List ℕ) → Ink xs → Ink ys → Ink (xs ++ ys)
Ink-append = All-append (λ c. is_space c ≡ false)

pub hex_text-Ink : (more n : ℕ) → Fits more n → Ink (hex_text more n)
unfolding hex_text
hex_text-Ink zero n h = (hex_digit_is_ink (n % 16) (omega arith), tt)
hex_text-Ink (suc more) n h = elim (Bool-cases (ltb n 16)) [
  | inl small ↦ rw (small, if◌then◌else◌) (hex_digit_is_ink n (ground (arith, small)), tt)
  | inr large ↦
      rw (large, if◌then◌else◌)
        (Ink-append (hex_text more (n / 16)) (hex_digit (n % 16) ∷ [])
          (hex_text-Ink more (n / 16) h) (hex_digit_is_ink (n % 16) (omega arith), tt))
]

pub hex_text_starts :
    (more n : ℕ) (rest : List ℕ) → Fits more n → starts_hex (hex_text more n ++ rest) ≡ true
unfolding hex_text
hex_text_starts zero n rest h = hex_digit-is_hex (n % 16) (omega arith)
hex_text_starts (suc more) n rest h = elim (Bool-cases (ltb n 16)) [
  | inl small ↦ rw (small, if◌then◌else◌) (hex_digit-is_hex n (ground (arith, small)))
  | inr large ↦
      rw
        (large, if◌then◌else◌, append_assoc (hex_text more (n / 16)) (hex_digit (n % 16) ∷ []) rest)
        (hex_text_starts more (n / 16) (hex_digit (n % 16) ∷ rest) h)
]
