-- ===== src/Database/Codes.antt =====
-- src/database/db_manager.cpp: what loadDTCs reads after saveDTCs, for a library that does what the documentation of
-- SQLite says of the three statements.
use mcp2515_rpi.Base.{
  ℕ, zero, suc, ◌+◌, ◌-◌, ◌*◌, ◌/◌, ◌%◌, ◌<◌, ◌≡◌, refl, ap, sym, ◌∙◌, Bool, true, false, some,
  List, [], ◌∷◌, ◌++◌, All, if◌then◌else◌, arith, dec_lt,
}
use mcp2515_rpi.Base.Latest.{ltb-false}
use mcp2515_rpi.Base.{lt→ltb}
use mcp2515_rpi.Diagnostics.Dtc.Codes.{stoi, digits_value, is_digit}
use mcp2515_rpi.Api.Rest.Response.{decimal}

abbrev IsDigits : List ℕ → Type 0
IsDigits = All (λ c. is_digit c ≡ true)

-- One more digit.
digits_value-append :
    (seen : Bool) (acc value d : ℕ) (ds : List ℕ)
    → IsDigits ds
    → d < 10
    → digits_value seen acc ds ≡ some value
    → digits_value seen acc (ds ++ (48 + d) ∷ []) ≡ some (value * 10 + d)
unfolding digits_value
digits_value-append false acc value d [] ok small e = absurd (ground (arith, e))
digits_value-append true acc value d [] ok small e = ground (arith, e)
digits_value-append seen acc value d (c ∷ ds) ok small e =
    let step : digits_value true (acc * 10 + (c - 48)) ds ≡ some value =
      sym (rw (ok.0, if◌then◌else◌) refl) ∙ e in
    rw (ok.0, if◌then◌else◌)
      (digits_value-append true (acc * 10 + (c - 48)) value d ds ok.1 small step)

-- Ten to the power of the digits that the fuel can write.
abbrev bound : ℕ → ℕ
bound zero = 10
bound (suc more) = 10 * bound more

append-IsDigits : (xs : List ℕ) (d : ℕ) → IsDigits xs → d < 10 → IsDigits (xs ++ (48 + d) ∷ [])
append-IsDigits [] d h small = (ground arith, tt)
append-IsDigits (x ∷ xs) d h small = (h.0, append-IsDigits xs d h.1 small)

decimal-IsDigits : (fuel n : ℕ) → IsDigits (decimal fuel n)
unfolding decimal
decimal-IsDigits zero n = (ground arith, tt)
decimal-IsDigits (suc more) n = elim (dec_lt n 10) [
  | yes small ↦ rw (lt→ltb n 10 small, if◌then◌else◌) (ground (arith, small), tt)
  | no large ↦
      rw (ltb-false n 10 (omega arith), if◌then◌else◌)
        (append-IsDigits (decimal more (n / 10)) (n % 10) (decimal-IsDigits more (n / 10))
          (omega arith))
]

decimal_value : (fuel n : ℕ) → n < bound fuel → digits_value false 0 (decimal fuel n) ≡ some n
unfolding decimal digits_value
decimal_value zero n h = ground (arith, h)
decimal_value (suc more) n h = elim (dec_lt n 10) [
  | yes small ↦ rw (lt→ltb n 10 small, if◌then◌else◌) (ground (arith, small))
  | no large ↦
      rw (ltb-false n 10 (omega arith), if◌then◌else◌)
        (digits_value-append false 0 (n / 10) (n % 10) (decimal more (n / 10))
            (decimal-IsDigits more (n / 10)) (omega arith)
            (decimal_value more (n / 10) (omega arith))
          ∙ ap (λ k. some k) {x = n / 10 * 10 + n % 10} (omega arith))
]

stoi_digits :
    (c : ℕ) (cs : List ℕ) → is_digit c ≡ true → stoi (c ∷ cs) ≡ digits_value false 0 (c ∷ cs)
unfolding stoi digits_value
stoi_digits c cs h = ground (arith, h)

some_long :
    (ds : List ℕ) (n : ℕ) → IsDigits ds → digits_value false 0 ds ≡ some n → stoi ds ≡ some n
unfolding digits_value
some_long [] n ok e = absurd (ground (arith, e))
some_long (c ∷ ds) n ok e = stoi_digits c ds ok.0 ∙ e

-- The text of a code reads as the code.
pub stoi-decimal : (n : ℕ) → n < 65536 → stoi (decimal 20 n) ≡ some n
stoi-decimal n h =
    some_long (decimal 20 n) n (decimal-IsDigits 20 n) (decimal_value 20 n (omega arith))
