-- ===== src/Protocol/Uds.antt =====
-- src/protocols/uds.cpp: response bytes and identifier ranges. The numbers of its enums are written out.
use mcp2515_rpi.Base.{
  ℕ, ◌+◌, ◌-◌, ◌*◌, ◌/◌, ◌<◌, ◌≡◌, ◌↔◌, ◌⊎◌, refl, Bool, true, false, ◌&&◌, ◌||◌, List, [], ◌∷◌,
  arith, u8, bit_and, leb, ◌==◌, if◌then◌else◌,
}
use mcp2515_rpi.Base.Tables.{agree_below, all_below}

unfoldable pub build_positive_response : ℕ → List ℕ → List ℕ
build_positive_response service bytes = u8 (service + 0x40) ∷ bytes

unfoldable pub build_negative_response : ℕ → ℕ → List ℕ
build_negative_response service nrc = 0x7F ∷ service ∷ nrc ∷ []

unfoldable pub is_positive_response : ℕ → Bool
is_positive_response response_byte = bit_and response_byte 0xC0 == 0x40

unfoldable pub is_negative_response : ℕ → Bool
is_negative_response response_byte = response_byte == 0x7F

unfoldable pub get_service_from_response : ℕ → ℕ
unfolding is_positive_response
get_service_from_response response_byte =
    if is_positive_response response_byte then u8 (response_byte + 256 - 0x40) else 0xFF

unfoldable pub is_standard_did : ℕ → Bool
is_standard_did did = leb 0xF000 did && leb did 0xF1FF

unfoldable pub is_manufacturer_did : ℕ → Bool
is_manufacturer_did did = (leb 0x1000 did && leb did 0x1FFF) || (leb 0x2000 did && leb did 0x2FFF)

unfoldable pub is_obd_did : ℕ → Bool
is_obd_did did = leb 0xF180 did && leb did 0xF1BF

top_two_bits : (b : ℕ) → b < 256 → bit_and b 0xC0 ≡ b / 64 * 64
unfolding all_below
top_two_bits = agree_below 256 (λ b. bit_and b 0xC0) (λ b. b / 64 * 64) refl

-- The first byte of a response.
abbrev pub response_byte : List ℕ → ℕ
response_byte [] = 0
response_byte (b ∷ bs) = b

-- The response to a service byte is read as a positive one exactly when the service is below 0x40, so
-- not for 0x83 to 0x87; its service is given back exactly for these and for 0xFF, the error value.
pub positive_response_iff :
    (service : ℕ) (bytes : List ℕ)
    → service < 256
    → let b = response_byte (build_positive_response service bytes) in
      ((is_positive_response b ≡ true) ↔ (service < 0x40))
      × ((get_service_from_response b ≡ service) ↔ ((service < 0x40) ⊎ (service ≡ 0xFF)))
unfolding build_positive_response get_service_from_response
positive_response_iff service bytes h = ground (arith, top_two_bits (u8 (service + 0x40)))

-- Every negative response is read as a positive one too, of the service 0x3F.
pub negative_read_as_positive :
    (service nrc : ℕ)
    → let b = response_byte (build_negative_response service nrc) in
      (is_negative_response b ≡ true)
      × (is_positive_response b ≡ true)
      × (get_service_from_response b ≡ 0x3F)
unfolding build_negative_response is_negative_response get_service_from_response
negative_read_as_positive service nrc = (refl, refl, refl)

-- The OBD identifiers are standard ones, and no identifier is both standard and a manufacturer's.
pub did_ranges :
    (did : ℕ)
    → (is_obd_did did ≡ true → is_standard_did did ≡ true)
      × ((is_standard_did did && is_manufacturer_did did) ≡ false)
unfolding is_obd_did is_standard_did is_manufacturer_did
did_ranges did = ground arith
