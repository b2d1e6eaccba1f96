-- ===== src/Diagnostics/Vin.antt =====
-- src/diagnostics/vin_decoder.hpp and vin_decoder.cpp, VINDecoder. A text is the list of its ASCII codes.
pub mod Checks
use mcp2515_rpi.Base.Texts.{same_text}
use mcp2515_rpi.Base.{
  ℕ, zero, suc, ◌+◌, ◌-◌, ◌*◌, ◌%◌, ◌<◌, ◌≤◌, ◌≡◌, ◌⊎◌, inl, inr, refl, sym, Bool, true, false, not,
  ◌&&◌, ◌||◌, Option, none, some, List, [], ◌∷◌, ◌++◌, arith, ltb, leb, length, take, drop, get_or,
  ◌==◌, if◌then◌else◌, subst,
}
use Prim.Native.String.{String}

abbrev pub Text : Type 0
Text = List ℕ

abbrev substr : Text → ℕ → ℕ → Text
substr text start size = take size (drop start text)

abbrev to_upper : ℕ → ℕ
to_upper c = if leb b'a' c && leb c b'z' then c - 32 else c

abbrev between : ℕ → ℕ → ℕ → Bool
between low high c = leb low c && leb c high

pub get_model_year : ℕ → ℕ
get_model_year code =
    if between b'A' b'Y' (to_upper code)
    then 1980 + (to_upper code - b'A')
    else if between b'1' b'9' (to_upper code)
    then 2001 + (to_upper code - b'1')
    else 0

pub get_country : Text → String
get_country [] = "Unknown"
get_country (first ∷ rest) =
    if between b'A' b'H' first
    then "USA"
    else if first == b'J'
    then "Japan"
    else if between b'K' b'L' first
    then "Korea"
    else if between b'N' b'T' first
    then "Europe"
    else if first == b'V'
    then "France"
    else if first == b'W'
    then "Germany"
    else if first == b'X'
    then "Netherlands"
    else if first == b'Z'
    then "Italy"
    else "Other"

-- The prefixes that `getMakeFromWMI` knows, with the makes, in the order of its tests.
abbrev makes : List (Text × String)
makes =
    (b'1' ∷ b'G' ∷ b'1' ∷ [], "Chevrolet")
    ∷ (b'1' ∷ b'G' ∷ b'2' ∷ [], "Chevrolet")
    ∷ (b'1' ∷ b'G' ∷ b'3' ∷ [], "Chevrolet")
    ∷ (b'1' ∷ b'F' ∷ b'A' ∷ [], "Ford")
    ∷ (b'1' ∷ b'F' ∷ b'B' ∷ [], "Ford")
    ∷ (b'1' ∷ b'F' ∷ b'C' ∷ [], "Ford")
    ∷ (b'J' ∷ b'T' ∷ b'2' ∷ [], "Toyota")
    ∷ (b'J' ∷ b'T' ∷ b'3' ∷ [], "Toyota")
    ∷ (b'J' ∷ b'T' ∷ b'4' ∷ [], "Toyota")
    ∷ (b'W' ∷ b'B' ∷ b'A' ∷ [], "BMW")
    ∷ (b'W' ∷ b'B' ∷ b'S' ∷ [], "BMW")
    ∷ (b'W' ∷ b'B' ∷ b'E' ∷ [], "BMW")
    ∷ (b'W' ∷ b'V' ∷ b'W' ∷ [], "Volkswagen")
    ∷ (b'W' ∷ b'V' ∷ b'G' ∷ [], "Volkswagen")
    ∷ (b'W' ∷ b'D' ∷ b'B' ∷ [], "Mercedes-Benz")
    ∷ (b'W' ∷ b'D' ∷ b'D' ∷ [], "Mercedes-Benz")
    ∷ (b'W' ∷ b'D' ∷ b'C' ∷ [], "Mercedes-Benz")
    ∷ (b'J' ∷ b'H' ∷ b'M' ∷ [], "Honda")
    ∷ (b'J' ∷ b'H' ∷ b'G' ∷ [], "Honda")
    ∷ (b'J' ∷ b'N' ∷ b'1' ∷ [], "Nissan")
    ∷ (b'J' ∷ b'N' ∷ b'8' ∷ [], "Nissan")
    ∷ (b'K' ∷ b'M' ∷ b'H' ∷ [], "Hyundai/Kia")
    ∷ (b'K' ∷ b'N' ∷ b'A' ∷ [], "Hyundai/Kia")
    ∷ []

first_make : Text → List (Text × String) → String
first_make wmi [] = "Other"
first_make wmi ((prefix, make) ∷ rest) = if same_text wmi prefix then make else first_make wmi rest

unfoldable pub get_make_from_wmi : Text → String
unfolding first_make
get_make_from_wmi wmi = if ltb (length wmi) 3 then "Unknown" else first_make wmi makes

pub record VinInfo : Type 0 where
  pub vin : Text
  pub wmi : Text
  pub vds : Text
  pub vis : Text
  pub country : String
  pub manufacturer : String
  pub make : String
  pub model : String
  pub vehicle_type : String
  pub year : ℕ

abbrev no_info : ℕ → VinInfo
no_info undefined = record {
  vin = [];
  wmi = [];
  vds = [];
  vis = [];
  country = "";
  manufacturer = "";
  make = "";
  model = "";
  vehicle_type = "";
  year = undefined;
}

-- `undefined` is what the year holds before it is written.
pub decode : ℕ → Text → VinInfo
unfolding get_country get_make_from_wmi get_model_year
decode undefined vin =
    if ltb (length vin) 17 then no_info undefined else record (no_info undefined) {
      vin = vin;
      wmi = substr vin 0 3;
      vds = substr vin 3 6;
      vis = substr vin 9 8;
      country = get_country (substr vin 0 3);
      manufacturer = get_make_from_wmi (substr vin 0 3);
      make = get_make_from_wmi (substr vin 0 3);
      year = if leb 10 (length vin) then get_model_year (get_or vin 9 0) else undefined;
    }

pub wmi_of : Text → Text
wmi_of manufacturer =
    if same_text manufacturer (b'C' ∷ b'h' ∷ b'e' ∷ b'v' ∷ b'r' ∷ b'o' ∷ b'l' ∷ b'e' ∷ b't' ∷ [])
    then b'1' ∷ b'G' ∷ b'1' ∷ []
    else if same_text manufacturer (b'F' ∷ b'o' ∷ b'r' ∷ b'd' ∷ [])
    then b'1' ∷ b'F' ∷ b'A' ∷ []
    else if same_text manufacturer (b'T' ∷ b'o' ∷ b'y' ∷ b'o' ∷ b't' ∷ b'a' ∷ [])
    then b'J' ∷ b'T' ∷ b'2' ∷ []
    else if same_text manufacturer (b'B' ∷ b'M' ∷ b'W' ∷ [])
    then b'W' ∷ b'B' ∷ b'A' ∷ []
    else if same_text manufacturer
        (b'V' ∷ b'o' ∷ b'l' ∷ b'k' ∷ b's' ∷ b'w' ∷ b'a' ∷ b'g' ∷ b'e' ∷ b'n' ∷ [])
    then b'W' ∷ b'V' ∷ b'W' ∷ []
    else if same_text manufacturer (b'M' ∷ b'e' ∷ b'r' ∷ b'c' ∷ b'e' ∷ b'd' ∷ b'e' ∷ b's' ∷ [])
    then b'W' ∷ b'D' ∷ b'B' ∷ []
    else if same_text manufacturer (b'H' ∷ b'o' ∷ b'n' ∷ b'd' ∷ b'a' ∷ [])
    then b'J' ∷ b'H' ∷ b'M' ∷ []
    else if same_text manufacturer (b'N' ∷ b'i' ∷ b's' ∷ b's' ∷ b'a' ∷ b'n' ∷ [])
    then b'J' ∷ b'N' ∷ b'1' ∷ []
    else b'X' ∷ b'X' ∷ b'X' ∷ []

pub generate_vin : Text → Text → ℕ → Text
generate_vin manufacturer model year =
    ((wmi_of manufacturer ++ (b'Z' ∷ b'Z' ∷ b'Z' ∷ b'1' ∷ b'Z' ∷ [])) ++ (b'K' ∷ []))
    ++ (b'8' ∷ b'W' ∷ b'1' ∷ b'2' ∷ b'3' ∷ b'4' ∷ b'5' ∷ b'6' ∷ [])

-- `at` throws on a missing key.
abbrev at : ℕ → List (ℕ × ℕ) → Option ℕ
at key [] = none
at key ((k, v) ∷ rest) = if k == key then some v else at key rest

abbrev transliteration : List (ℕ × ℕ)
transliteration =
    (b'A', 1)
    ∷ (b'B', 2)
    ∷ (b'C', 3)
    ∷ (b'D', 4)
    ∷ (b'E', 5)
    ∷ (b'F', 6)
    ∷ (b'G', 7)
    ∷ (b'H', 8)
    ∷ (b'J', 1)
    ∷ (b'K', 2)
    ∷ (b'L', 3)
    ∷ (b'M', 4)
    ∷ (b'N', 5)
    ∷ (b'P', 7)
    ∷ (b'R', 9)
    ∷ (b'S', 2)
    ∷ (b'T', 3)
    ∷ (b'U', 4)
    ∷ (b'V', 5)
    ∷ (b'W', 6)
    ∷ (b'X', 7)
    ∷ (b'Y', 8)
    ∷ (b'Z', 9)
    ∷ []

abbrev weights : List (ℕ × ℕ)
weights =
    (b'1', 8)
    ∷ (b'2', 7)
    ∷ (b'3', 6)
    ∷ (b'4', 5)
    ∷ (b'5', 4)
    ∷ (b'6', 3)
    ∷ (b'7', 2)
    ∷ (b'8', 10)
    ∷ (b'9', 9)
    ∷ (b'0', 1)
    ∷ []

abbrev char_value : ℕ → Option ℕ
char_value c = if between b'0' b'9' c then some (c - b'0') else at c transliteration

abbrev and_then : Option ℕ → (ℕ → Option ℕ) → Option ℕ
and_then none f = none
and_then (some n) f = f n

-- The value of a character times the weight of its position.
char_product : ℕ → ℕ → Option ℕ
char_product i c =
    and_then (char_value (to_upper c))
      (λ value. and_then (at (b'0' + i % 10) weights) (λ weight. some (value * weight)))

-- The loop of `calculateChecksum`, from index `i`.
weighted_sum : ℕ → Text → ℕ → Option ℕ
unfolding char_product
weighted_sum i [] sum = some sum
weighted_sum i (c ∷ cs) sum =
    let skip = weighted_sum (i + 1) cs sum in
    if i == 8
    then skip
    else and_then (char_product i c) (λ product. weighted_sum (i + 1) cs (sum + product))

abbrev check_digit : ℕ → ℕ
check_digit sum = if sum % 11 == 10 then b'X' else b'0' + sum % 11

-- `none` is the exception of an unknown character.
unfoldable pub calculate_checksum : Text → Option ℕ
unfolding weighted_sum
calculate_checksum vin =
    if ltb (length vin) 17
    then some b'0'
    else and_then (weighted_sum 0 (take 17 vin) 0) (λ sum. some (check_digit sum))

abbrev check_against : Text → Option ℕ → Option Bool
check_against vin none = none
check_against vin (some expected) = some (get_or vin 8 0 == expected || get_or vin 8 0 == b'X')

unfoldable pub validate_checksum : Text → Option Bool
unfolding calculate_checksum
validate_checksum vin =
    if not (length vin == 17) then some false else check_against vin (calculate_checksum vin)
