-- ===== src/Router.antt =====
-- src/core/protocol_router.hpp and protocol_router.cpp, ProtocolRouter. The implementations are of any type `I`
-- with the two operations that the router calls; the map is an association list. Names are ASCII codes.
pub mod Selection
pub mod Names
mod Runs
use Prim.Native.String.{String}
use mcp2515_rpi.Base.Texts.{same_text}
use mcp2515_rpi.Base.{
  ℕ, zero, suc, ◌+◌, Bool, true, false, not, ◌&&◌, ◌||◌, Option, none, some, List, [], ◌∷◌, map,
  leb, ◌==◌, if◌then◌else◌,
}
use mcp2515_rpi.Can.{CanFrame}

pub data Manufacturer : Type 0 where
  chevrolet ford toyota bmw volkswagen mercedes honda nissan hyundai unknown : Manufacturer

pub data ActiveProtocol : Type 0 where
  obd2 uds kwp2000 gmlan honda_hds nissan_consult ford_ms_can toyota_mode21 : ActiveProtocol

pub record ManufacturerConfig : Type 0 where
  pub id : Manufacturer
  pub name : String
  pub protocol : ActiveProtocol
  pub rx_id : ℕ
  pub tx_id : ℕ
  pub functional_id : ℕ
  pub bitrate : ℕ
  pub vin_prefix : String

abbrev config : Manufacturer → String → ActiveProtocol → String → ManufacturerConfig
config mfr name protocol vin_prefix = record {
  id = mfr;
  name = name;
  protocol = protocol;
  rx_id = 0x7E8;
  tx_id = 0x7E0;
  functional_id = 0x7DF;
  bitrate = 500000;
  vin_prefix = vin_prefix;
}

unfoldable pub get_config_for : Manufacturer → ManufacturerConfig
get_config_for Manufacturer.chevrolet =
    config Manufacturer.chevrolet "Chevrolet/GM" ActiveProtocol.gmlan "1G1"
get_config_for Manufacturer.ford = config Manufacturer.ford "Ford" ActiveProtocol.ford_ms_can "1FA"
get_config_for Manufacturer.toyota =
    config Manufacturer.toyota "Toyota" ActiveProtocol.toyota_mode21 "JT2"
get_config_for Manufacturer.bmw = config Manufacturer.bmw "BMW" ActiveProtocol.uds "WBA"
get_config_for Manufacturer.volkswagen =
    config Manufacturer.volkswagen "Volkswagen/Audi" ActiveProtocol.uds "WVW"
get_config_for Manufacturer.mercedes =
    config Manufacturer.mercedes "Mercedes-Benz" ActiveProtocol.uds "WDB"
get_config_for Manufacturer.honda = config Manufacturer.honda "Honda" ActiveProtocol.honda_hds "JHM"
get_config_for Manufacturer.nissan =
    config Manufacturer.nissan "Nissan" ActiveProtocol.nissan_consult "JN1"
get_config_for Manufacturer.hyundai =
    config Manufacturer.hyundai "Hyundai/Kia" ActiveProtocol.uds "KMH"
get_config_for Manufacturer.unknown =
    config Manufacturer.unknown "Unknown" ActiveProtocol.obd2 "XXX"

abbrev pub ordinal : Manufacturer → ℕ
ordinal Manufacturer.chevrolet = 0
ordinal Manufacturer.ford = 1
ordinal Manufacturer.toyota = 2
ordinal Manufacturer.bmw = 3
ordinal Manufacturer.volkswagen = 4
ordinal Manufacturer.mercedes = 5
ordinal Manufacturer.honda = 6
ordinal Manufacturer.nissan = 7
ordinal Manufacturer.hyundai = 8
ordinal Manufacturer.unknown = 9

abbrev pub same : Manufacturer → Manufacturer → Bool
same a b = ordinal a == ordinal b

abbrev pub Text : Type 0
Text = List ℕ

unfoldable pub manufacturer_to_string : Manufacturer → Text
manufacturer_to_string Manufacturer.chevrolet =
    b'c' ∷ b'h' ∷ b'e' ∷ b'v' ∷ b'r' ∷ b'o' ∷ b'l' ∷ b'e' ∷ b't' ∷ []
manufacturer_to_string Manufacturer.ford = b'f' ∷ b'o' ∷ b'r' ∷ b'd' ∷ []
manufacturer_to_string Manufacturer.toyota = b't' ∷ b'o' ∷ b'y' ∷ b'o' ∷ b't' ∷ b'a' ∷ []
manufacturer_to_string Manufacturer.bmw = b'b' ∷ b'm' ∷ b'w' ∷ []
manufacturer_to_string Manufacturer.volkswagen =
    b'v' ∷ b'o' ∷ b'l' ∷ b'k' ∷ b's' ∷ b'w' ∷ b'a' ∷ b'g' ∷ b'e' ∷ b'n' ∷ []
manufacturer_to_string Manufacturer.mercedes =
    b'm' ∷ b'e' ∷ b'r' ∷ b'c' ∷ b'e' ∷ b'd' ∷ b'e' ∷ b's' ∷ []
manufacturer_to_string Manufacturer.honda = b'h' ∷ b'o' ∷ b'n' ∷ b'd' ∷ b'a' ∷ []
manufacturer_to_string Manufacturer.nissan = b'n' ∷ b'i' ∷ b's' ∷ b's' ∷ b'a' ∷ b'n' ∷ []
manufacturer_to_string Manufacturer.hyundai = b'h' ∷ b'y' ∷ b'u' ∷ b'n' ∷ b'd' ∷ b'a' ∷ b'i' ∷ []
manufacturer_to_string Manufacturer.unknown = b'u' ∷ b'n' ∷ b'k' ∷ b'n' ∷ b'o' ∷ b'w' ∷ b'n' ∷ []

abbrev pub to_lower : ℕ → ℕ
to_lower c = if leb b'A' c && leb c b'Z' then c + 32 else c

pub from_lower : Text → Manufacturer
from_lower lower =
    if same_text lower (b'c' ∷ b'h' ∷ b'e' ∷ b'v' ∷ b'r' ∷ b'o' ∷ b'l' ∷ b'e' ∷ b't' ∷ [])
      || same_text lower (b'g' ∷ b'm' ∷ [])
      || same_text lower (b'c' ∷ b'h' ∷ b'e' ∷ b'v' ∷ b'y' ∷ [])
    then Manufacturer.chevrolet
    else if same_text lower (b'f' ∷ b'o' ∷ b'r' ∷ b'd' ∷ [])
    then Manufacturer.ford
    else if same_text lower (b't' ∷ b'o' ∷ b'y' ∷ b'o' ∷ b't' ∷ b'a' ∷ [])
    then Manufacturer.toyota
    else if same_text lower (b'b' ∷ b'm' ∷ b'w' ∷ [])
    then Manufacturer.bmw
    else if same_text lower
          (b'v' ∷ b'o' ∷ b'l' ∷ b'k' ∷ b's' ∷ b'w' ∷ b'a' ∷ b'g' ∷ b'e' ∷ b'n' ∷ [])
        || same_text lower (b'v' ∷ b'w' ∷ [])
        || same_text lower (b'a' ∷ b'u' ∷ b'd' ∷ b'i' ∷ [])
    then Manufacturer.volkswagen
    else if same_text lower (b'm' ∷ b'e' ∷ b'r' ∷ b'c' ∷ b'e' ∷ b'd' ∷ b'e' ∷ b's' ∷ [])
        || same_text lower (
            b'm' ∷ b'e' ∷ b'r' ∷ b'c' ∷ b'e' ∷ b'd' ∷ b'e' ∷ b's' ∷ b'-' ∷ b'b' ∷ b'e' ∷ b'n' ∷ b'z'
            ∷ [])
        || same_text lower (b'b' ∷ b'e' ∷ b'n' ∷ b'z' ∷ [])
    then Manufacturer.mercedes
    else if same_text lower (b'h' ∷ b'o' ∷ b'n' ∷ b'd' ∷ b'a' ∷ [])
    then Manufacturer.honda
    else if same_text lower (b'n' ∷ b'i' ∷ b's' ∷ b's' ∷ b'a' ∷ b'n' ∷ [])
    then Manufacturer.nissan
    else if same_text lower (b'h' ∷ b'y' ∷ b'u' ∷ b'n' ∷ b'd' ∷ b'a' ∷ b'i' ∷ [])
        || same_text lower (b'k' ∷ b'i' ∷ b'a' ∷ [])
    then Manufacturer.hyundai
    else Manufacturer.unknown

unfoldable pub string_to_manufacturer : Text → Manufacturer
unfolding from_lower
string_to_manufacturer str = from_lower (map to_lower str)

-- What the router calls of an implementation.
pub record Implementation (I : Type 0) : Type 0 where
  pub on_manufacturer_selected : I → ManufacturerConfig → I
  pub handle_can_frame : I → CanFrame → I

pub record ProtocolRouter (I : Type 0) : Type 0 where
  pub current_manufacturer : Manufacturer
  pub implementations : List (Manufacturer × I)

module _ {I : Type 0} where
  unfoldable pub init : ProtocolRouter I
  init = record { current_manufacturer = Manufacturer.unknown; implementations = [] }

  unfoldable pub find : List (Manufacturer × I) → Manufacturer → Option I
  find [] mfr = none
  find ((m, impl) ∷ rest) mfr = if same m mfr then some impl else find rest mfr

  unfoldable pub modify : (I → I) → List (Manufacturer × I) → Manufacturer → List (Manufacturer × I)
  modify f [] mfr = []
  modify f ((m, impl) ∷ rest) mfr =
      if same m mfr then (m, f impl) ∷ rest else (m, impl) ∷ modify f rest mfr

  abbrev pub is_some : Option I → Bool
  is_some none = false
  is_some (some impl) = true

  unfoldable pub get_current_implementation : ProtocolRouter I → Option I
  unfolding find
  get_current_implementation r = find r.implementations r.current_manufacturer

  unfoldable pub register_manufacturer :
      ProtocolRouter I → Manufacturer → I → ProtocolRouter I × Bool
  unfolding find
  register_manufacturer r mfr impl =
      if is_some (find r.implementations mfr)
      then (r, false)
      else (record r { implementations = (mfr, impl) ∷ r.implementations }, true)

  unfoldable pub select_manufacturer :
      Implementation I → ProtocolRouter I → Manufacturer → ProtocolRouter I × Bool
  unfolding find modify get_config_for
  select_manufacturer ops r mfr =
      if is_some (find r.implementations mfr)
      then (
        record {
          current_manufacturer = mfr;
          implementations =
              modify (λ impl. ops.on_manufacturer_selected impl (get_config_for mfr))
                r.implementations mfr;
        },
        true,
      )
      else (r, false)

  unfoldable pub route_can_frame : Implementation I → ProtocolRouter I → CanFrame → ProtocolRouter I
  unfolding get_current_implementation modify
  route_can_frame ops r frame =
      if is_some (get_current_implementation r)
      then record r {
        implementations =
            modify (λ impl. ops.handle_can_frame impl frame) r.implementations
              r.current_manufacturer;
      }
      else r
