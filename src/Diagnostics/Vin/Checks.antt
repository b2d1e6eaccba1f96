-- ===== src/Diagnostics/Vin/Checks.antt =====
-- The check digit of a vehicle number, and the numbers that `generateVIN` makes.
use mcp2515_rpi.Base.{
  ℕ, zero, suc, ◌+◌, ◌≡◌, ap, ◌∙◌, refl, Bool, true, false, ◌||◌, Option, none, some, [], ◌∷◌, ◌++◌,
  arith, Bool-cases, inl, inr, get_or-set_same, length, length-set, take_all, set, get_or, ◌==◌,
  ==_iff, if◌then◌else◌,
}
use mcp2515_rpi.Diagnostics.Vin.{
  Text, generate_vin, wmi_of, validate_checksum, calculate_checksum, weighted_sum, decode,
  check_against, and_then, char_product,
}

module _ {ℓ} (P : Text → Type ℓ) where
  if-either : (b : Bool) (x y : Text) → P x → P y → P (if b then x else y)
  if-either true x y h k = h
  if-either false x y h k = k

and_then-cong :
    (o : Option ℕ) (f g : ℕ → Option ℕ) → ((n : ℕ) → f n ≡ g n) → and_then o f ≡ and_then o g
and_then-cong none f g h = refl
and_then-cong (some n) f g h = h n

-- The check skips its own position.
weighted_sum-set :
    (i j : ℕ) (cs : Text) (d sum : ℕ)
    → i + j ≡ 8
    → weighted_sum i (set cs j d) sum ≡ weighted_sum i cs sum
unfolding weighted_sum
weighted_sum-set i j [] d sum e = refl
weighted_sum-set i zero (c ∷ cs) d sum e =
    rw ((==_iff i 8).1 (omega (arith, e)), if◌then◌else◌) refl
weighted_sum-set i (suc j) (c ∷ cs) d sum e = elim (Bool-cases (i == 8)) [
  | inl at_check ↦ absurd (ground (arith, at_check, e))
  | inr other ↦
      rw (other, if◌then◌else◌)
        (and_then-cong (char_product i c)
          (λ product. weighted_sum (i + 1) (set cs j d) (sum + product))
          (λ product. weighted_sum (i + 1) cs (sum + product))
          (λ product. weighted_sum-set (i + 1) j cs d (sum + product) (omega (arith, e))))
]

get_or-set_check : (vin : Text) (d : ℕ) → length vin ≡ 17 → get_or (set vin 8 d) 8 0 ≡ d
get_or-set_check vin d e = get_or-set_same vin 8 d 0 (omega (arith, e))

checksum-set :
    (vin : Text) (d : ℕ)
    → length vin ≡ 17
    → calculate_checksum (set vin 8 d) ≡ calculate_checksum vin
unfolding calculate_checksum
checksum-set vin d e =
    rw
      (
        length-set vin 8 d,
        take_all 17 (set vin 8 d) (omega (arith, length-set vin 8 d, e)),
        take_all 17 vin (omega (arith, e)),
        weighted_sum-set 0 8 vin d 0 refl,
      )
      refl

checked :
    (vin : Text)
    → length vin ≡ 17
    → validate_checksum vin ≡ check_against vin (calculate_checksum vin)
unfolding validate_checksum
checked vin e = rw (e) refl

-- A number of seventeen characters whose check digit is computed without an exception passes the check once
-- that digit is written at its place.
pub validate-set :
    (vin : Text) (d : ℕ)
    → length vin ≡ 17
    → calculate_checksum vin ≡ some d
    → validate_checksum (set vin 8 d) ≡ some true
validate-set vin d e h =
    checked (set vin 8 d) (length-set vin 8 d ∙ e)
    ∙ ap (check_against (set vin 8 d)) (checksum-set vin d e ∙ h)
    ∙ ap (λ c. some (c == d || c == b'X')) (get_or-set_check vin d e)
    ∙ ap (λ b. some (b || d == b'X')) ((==_iff d d).1 refl)

abbrev numbered : Text → Text
numbered wmi =
    ((wmi ++ (b'Z' ∷ b'Z' ∷ b'Z' ∷ b'1' ∷ b'Z' ∷ [])) ++ (b'K' ∷ []))
    ++ (b'8' ∷ b'W' ∷ b'1' ∷ b'2' ∷ b'3' ∷ b'4' ∷ b'5' ∷ b'6' ∷ [])

abbrev Refused : ℕ → Text → Type 0
Refused undefined vin = (validate_checksum vin ≡ some false) × ((decode undefined vin).year ≡ 2008)

-- What holds of the nine prefixes holds of the prefix of every make.
wmi_of-elim {ℓ} :
    (P : Text → Type ℓ) (manufacturer : Text)
    → P (b'1' ∷ b'G' ∷ b'1' ∷ [])
    → P (b'1' ∷ b'F' ∷ b'A' ∷ [])
    → P (b'J' ∷ b'T' ∷ b'2' ∷ [])
    → P (b'W' ∷ b'B' ∷ b'A' ∷ [])
    → P (b'W' ∷ b'V' ∷ b'W' ∷ [])
    → P (b'W' ∷ b'D' ∷ b'B' ∷ [])
    → P (b'J' ∷ b'H' ∷ b'M' ∷ [])
    → P (b'J' ∷ b'N' ∷ b'1' ∷ [])
    → P (b'X' ∷ b'X' ∷ b'X' ∷ [])
    → P (wmi_of manufacturer)
unfolding wmi_of
wmi_of-elim P manufacturer h1 h2 h3 h4 h5 h6 h7 h8 h9 = if-either P _ _ _ h1 (
    if-either P _ _ _ h2 (
      if-either P _ _ _ h3 (
        if-either P _ _ _ h4 (
          if-either P _ _ _ h5
            (if-either P _ _ _ h6 (if-either P _ _ _ h7 (if-either P _ _ _ h8 h9)))))))

prefixes-Refused :
    (undefined : ℕ) (manufacturer : Text) → Refused undefined (numbered (wmi_of manufacturer))
unfolding validate_checksum decode
prefixes-Refused undefined manufacturer =
    wmi_of-elim (λ wmi. Refused undefined (numbered wmi)) manufacturer (refl, refl) (refl, refl)
      (refl, refl) (refl, refl) (refl, refl) (refl, refl) (refl, refl) (refl, refl) (refl, refl)

-- No number that `generateVIN` makes passes `validateChecksum`, whatever the make, the model and the year,
-- and each decodes to the year 2008.
pub generated_refused :
    (manufacturer model : Text) (year undefined : ℕ)
    → (validate_checksum (generate_vin manufacturer model year) ≡ some false)
      × ((decode undefined (generate_vin manufacturer model year)).year ≡ 2008)
unfolding generate_vin
generated_refused manufacturer model year undefined = prefixes-Refused undefined manufacturer
