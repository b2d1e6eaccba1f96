-- ===== src/Router/Runs.antt =====
-- Concrete runs of the router, and the theorems at concrete inputs.
use mcp2515_rpi.Base.{ℕ, ◌+◌, ◌≡◌, refl, some, [], ◌∷◌, map, if◌then◌else◌}
use mcp2515_rpi.Can.{CanFrame}
use mcp2515_rpi.Router.{
  Manufacturer, Implementation, ProtocolRouter, Text, to_lower, init, find,
  get_current_implementation, register_manufacturer, select_manufacturer, route_can_frame,
  get_config_for, same, string_to_manufacturer, manufacturer_to_string,
}
use mcp2515_rpi.Router.Selection.{changed, route_lem}

-- An implementation that counts: a selection adds 100, a frame 1.
abbrev counter : Implementation ℕ
counter = record {
  on_manufacturer_selected = λ n config. n + 100;
  handle_can_frame = λ n frame. n + 1;
}

abbrev frame : CanFrame
frame = record { can_id = 0x7E0; can_dlc = 0; bytes = [] }

abbrev two_makes : ProtocolRouter ℕ
two_makes =
    (register_manufacturer (register_manufacturer init Manufacturer.bmw 0).0 Manufacturer.ford 0).0

abbrev bmw_chosen : ProtocolRouter ℕ
bmw_chosen = (select_manufacturer counter two_makes Manufacturer.bmw).0

routed : get_current_implementation (route_can_frame counter bmw_chosen frame) ≡ some 101
unfolding route_can_frame select_manufacturer register_manufacturer init get_current_implementation
routed = refl

route_lem_example :
    (find (route_can_frame counter bmw_chosen frame).implementations Manufacturer.ford ≡ (
      if same Manufacturer.ford bmw_chosen.current_manufacturer
      then changed (λ n. n + 1) (find bmw_chosen.implementations Manufacturer.ford)
      else find bmw_chosen.implementations Manufacturer.ford))
    × ((route_can_frame counter bmw_chosen frame).current_manufacturer
        ≡ bmw_chosen.current_manufacturer)
route_lem_example = route_lem counter bmw_chosen frame Manufacturer.ford

abbrev shouted : Text
shouted = b'B' ∷ b'M' ∷ b'W' ∷ []

lowered : map to_lower shouted ≡ manufacturer_to_string Manufacturer.bmw
unfolding manufacturer_to_string
lowered = refl

gm_is_chevrolet : string_to_manufacturer (b'G' ∷ b'M' ∷ []) ≡ Manufacturer.chevrolet
unfolding string_to_manufacturer
gm_is_chevrolet = refl

bmw_speaks_uds : (get_config_for Manufacturer.bmw).tx_id ≡ 0x7E0
unfolding get_config_for
bmw_speaks_uds = refl
