-- ===== src/Manufacturer/OwnServices.antt =====
-- src/manufacturers/ford.cpp, toyota.cpp and chevrolet.cpp: `handleCanFrame` of the makes with services of their
-- own.
use mcp2515_rpi.Base.{
  ℕ, Bool, true, false, not, ◌&&◌, ◌||◌, Option, none, some, List, [], ◌∷◌, ◌++◌, bit_and, ltb, leb,
  ◌==◌, get_or, take, drop, if◌then◌else◌,
}
use mcp2515_rpi.Can.{CanFrame}
use mcp2515_rpi.Manufacturer.{Ecu, DtcInfo, send_negative_response, get_dtcs}
use mcp2515_rpi.Manufacturer.Profiles.{FloatOps, VehicleProfile, get_current_profile}
use mcp2515_rpi.Manufacturer.Pids.{high_low}
use mcp2515_rpi.Manufacturer.Modes.{
  handle_mode01, handle_mode02, handle_mode03, handle_mode05, handle_mode06, handle_mode07,
  handle_mode08, handle_mode09, handle_mode0a, four_bytes,
}
use mcp2515_rpi.Manufacturer.Uds.{handle_write_data_by_identifier}
use mcp2515_rpi.Manufacturer.Makes.{
  Inputs, word_at, checked_word_at, reply, unsupported, receive, security, control, present, mode01,
  mode04, bmw_handle_can_frame, volkswagen_handle_can_frame, mercedes_handle_can_frame,
  honda_handle_can_frame, nissan_handle_can_frame,
}

pub data Make : Type 0 where
  chevrolet ford toyota bmw volkswagen mercedes honda nissan : Make

unfoldable pub toyota_mode21 : ℕ → List ℕ
toyota_mode21 pid =
    if pid == 0x01
    then 0x61 ∷ 0x21 ∷ 0x01 ∷ 0x03 ∷ []
    else if pid == 0x02
    then 0x61 ∷ 0x21 ∷ 0x02 ∷ 0x01 ∷ []
    else if pid == 0x03
    then 0x61 ∷ 0x21 ∷ 0x03 ∷ 0x02 ∷ []
    else if pid == 0x04
    then 0x61 ∷ 0x21 ∷ 0x04 ∷ 0x01 ∷ []
    else 0x7F ∷ 0x15 ∷ 0x12 ∷ []

unfoldable pub toyota_mode22 : ℕ → List ℕ
toyota_mode22 pid = 0x62 ∷ 0x22 ∷ pid ∷ 0x00 ∷ []

abbrev find_code : ℕ → List DtcInfo → Bool
find_code code [] = false
find_code code (d ∷ ds) = if d.code == code then true else find_code code ds

abbrev pub not_negative : List ℕ → Bool
not_negative [] = false
not_negative (b ∷ bs) = not (b == 0x7F)

module _ {F : Type 0} where
  unfoldable pub handle_ford_enhanced_pids : FloatOps F → Ecu F → ℕ → List ℕ
  handle_ford_enhanced_pids ops e pid =
      if pid == 0x1001
      then 0x62 ∷ 0x10 ∷ 0x01 ∷ 0x04 ∷ []
      else if pid == 0x1002
      then 0x62 ∷ 0x10 ∷ 0x02 ∷ 0x01 ∷ []
      else if pid == 0x2001
      then 0x62 ∷ 0x20 ∷ 0x01 ∷ 0x1E ∷ []
      else if pid == 0x2002
      then 0x62 ∷ 0x20 ∷ 0x02 ∷ ops.to_u8 (ops.add e.intake_temp (ops.literal 40 1)) ∷ []
      else if pid == 0x3001
      then 0x62 ∷ 0x30 ∷ 0x01 ∷ 0x01 ∷ []
      else 0x7F ∷ 0x22 ∷ 0x12 ∷ []

  abbrev pub enhanced : FloatOps F → Ecu F → Option ℕ → Option (Ecu F)
  enhanced ops e none = none
  enhanced ops e (some pid) = reply e (handle_ford_enhanced_pids ops e pid)

  abbrev pub ford_write : Ecu F → List ℕ → Option ℕ → Option (Ecu F)
  ford_write e bytes none = none
  ford_write e bytes (some did) = reply e (handle_write_data_by_identifier did (drop 3 bytes))

  unfoldable pub ford_services : FloatOps F → Inputs F → Ecu F → ℕ → List ℕ → Option (Ecu F)
  ford_services ops io e dlc bytes =
      let service = get_or bytes 0 0 in
      if leb 0x01 service && leb service 0x0A
      then (if service == 0x03 then reply e (handle_mode03 e) else mode01 ops io e bytes)
      else if service == 0x22
      then enhanced ops e (checked_word_at bytes 1)
      else if service == 0x27
      then security io e bytes
      else if service == 0x2E
      then ford_write e bytes (checked_word_at bytes 1)
      else unsupported e service

  unfoldable pub ford_handle_can_frame : FloatOps F → Inputs F → Ecu F → CanFrame → Option (Ecu F)
  unfolding ford_services
  ford_handle_can_frame ops io e frame =
      receive e frame (λ bytes. ford_services ops io e frame.can_dlc bytes)

  unfoldable pub toyota_services : FloatOps F → Inputs F → Ecu F → ℕ → List ℕ → Option (Ecu F)
  toyota_services ops io e dlc bytes =
      let service = get_or bytes 0 0 in
      if service == 0x01
      then mode01 ops io e bytes
      else if service == 0x03
      then reply e (handle_mode03 e)
      else if service == 0x04
      then mode04 ops e
      else if service == 0x07
      then reply e (handle_mode07 e)
      else if service == 0x09
      then reply e (handle_mode09 e (get_or bytes 1 0))
      else if service == 0x15
      then reply e (toyota_mode21 (get_or bytes 1 0))
      else if service == 0x16
      then reply e (toyota_mode22 (get_or bytes 1 0))
      else if service == 0x27
      then security io e bytes
      else unsupported e service

  unfoldable pub toyota_handle_can_frame : FloatOps F → Inputs F → Ecu F → CanFrame → Option (Ecu F)
  unfolding toyota_services
  toyota_handle_can_frame ops io e frame =
      receive e frame (λ bytes. toyota_services ops io e frame.can_dlc bytes)

  abbrev profile_name : Option (VehicleProfile F) → List ℕ
  profile_name none = b'n' ∷ b'o' ∷ b'r' ∷ b'm' ∷ b'a' ∷ b'l' ∷ []
  profile_name (some p) = p.name

  unfoldable pub read_gm_did : FloatOps F → Ecu F → ℕ → List ℕ
  unfolding get_current_profile get_dtcs
  read_gm_did ops e did =
      if did == 0x1A00
      then 0x62 ∷ 0x1A ∷ 0x00 ∷ e.vin
      else if did == 0x1A01
      then 0x62 ∷ 0x1A ∷ 0x01 ∷ 0x1F ∷ []
      else if did == 0x1A02
      then 0x62 ∷ 0x1A ∷ 0x02 ∷ 0x06 ∷ []
      else if did == 0x1A0A
      then 0x62 ∷ 0x1A ∷ 0x0A ∷ 0x02 ∷ []
      else if did == 0xF000
      then 0x62 ∷ 0xF0 ∷ 0x00 ∷ b'G' ∷ b'M' ∷ b'_' ∷ b'B' ∷ b'O' ∷ b'O' ∷ b'T' ∷ b'_' ∷ b'V' ∷ b'1'
        ∷ b'.' ∷ b'2' ∷ []
      else if did == 0xF001
      then 0x62 ∷ 0xF0 ∷ 0x01 ∷ b'G' ∷ b'M' ∷ b'_' ∷ b'C' ∷ b'A' ∷ b'L' ∷ b'_' ∷ b'V' ∷ b'2' ∷ b'.'
        ∷ b'5' ∷ []
      else if did == 0xF002
      then 0x62 ∷ 0xF0 ∷ 0x02 ∷ b'E' ∷ b'7' ∷ b'8' ∷ b'_' ∷ b'R' ∷ b'e' ∷ b'v' ∷ b' ' ∷ b'C' ∷ []
      else if did == 0xF180
      then 0x62 ∷ 0xF1 ∷ 0x80 ∷ ops.to_u8 e.vehicle_speed ∷ []
      else if did == 0xF181
      then 0x62 ∷ 0xF1 ∷ 0x81 ∷ high_low (ops.to_u16 (ops.mul e.engine_rpm (ops.literal 4 1)))
      else if did == 0xF182
      then 0x62 ∷ 0xF1 ∷ 0x82 ∷ ops.to_u8 (ops.add e.coolant_temp (ops.literal 40 1)) ∷ []
      else if did == 0xF190
      then 0x62 ∷ 0xF1 ∷ 0x90 ∷ e.vin
      else if did == 0xF191
      then 0x62 ∷ 0xF1 ∷ 0x91 ∷ four_bytes (ops.to_u32 e.odometer_km)
      else if did == 0xF192
      then 0x62 ∷ 0xF1 ∷ 0x92 ∷ high_low (ops.to_u16 e.trip_km)
      else if did == 0xF193
      then 0x62 ∷ 0xF1 ∷ 0x93 ∷ profile_name (get_current_profile e.profile_manager)
      else if bit_and did 0xFF00 == 0x1200
      then 0x62
        ∷ (high_low did
            ++ (if find_code (bit_and did 0x00FF) (get_dtcs e true) then 0x01 else 0x00) ∷ [])
      else 0x7F ∷ 0x22 ∷ 0x12 ∷ []

  abbrev pub gm_mode01 : FloatOps F → Inputs F → Ecu F → List ℕ → Option (Ecu F)
  gm_mode01 ops io e bytes =
      let resp = handle_mode01 ops e io.noise (get_or bytes 1 0) in
      if not_negative resp then reply e resp else some (send_negative_response e 0x01 0x12)

  abbrev pub gm_read : FloatOps F → Ecu F → ℕ → List ℕ → Option (Ecu F)
  gm_read ops e dlc bytes =
      if leb 3 dlc then reply e (read_gm_did ops e (word_at bytes 1)) else some e

  unfoldable pub chevrolet_services : FloatOps F → Inputs F → Ecu F → ℕ → List ℕ → Option (Ecu F)
  chevrolet_services ops io e dlc bytes =
      let service = get_or bytes 0 0 in
      if service == 0x01
      then gm_mode01 ops io e bytes
      else if service == 0x02
      then reply e (handle_mode02 ops e io.noise (get_or bytes 1 0))
      else if service == 0x03
      then reply e (handle_mode03 e)
      else if service == 0x04
      then mode04 ops e
      else if service == 0x05
      then reply e (handle_mode05 (get_or bytes 1 0))
      else if service == 0x06
      then reply e (handle_mode06 (get_or bytes 1 0))
      else if service == 0x07
      then reply e (handle_mode07 e)
      else if service == 0x08
      then reply e (handle_mode08 (get_or bytes 1 0) (drop 2 bytes))
      else if service == 0x09
      then reply e (handle_mode09 e (get_or bytes 1 0))
      else if service == 0x0A
      then reply e (handle_mode0a e)
      else if service == 0x22
      then gm_read ops e dlc bytes
      else if service == 0x10
      then control io e bytes
      else if service == 0x27
      then security io e bytes
      else if service == 0x3E
      then present io e
      else unsupported e service

  unfoldable pub chevrolet_handle_can_frame :
      FloatOps F → Inputs F → Ecu F → CanFrame → Option (Ecu F)
  unfolding chevrolet_services
  chevrolet_handle_can_frame ops io e frame =
      let id = bit_and frame.can_id 0x7FF in
      if id == e.rx_id
      then some e
      else if id == e.functional_id
      then reply e (0x41 ∷ 0x01 ∷ 0x00 ∷ 0x07 ∷ 0xFF ∷ 0x00 ∷ 0x00 ∷ [])
      else if not (id == e.tx_id) || ltb frame.can_dlc 2
      then some e
      else chevrolet_services ops io e frame.can_dlc (take frame.can_dlc frame.bytes)

  -- The makes that `main` registers, and the handler of each.
  unfoldable pub handle_can_frame : Make → FloatOps F → Inputs F → Ecu F → CanFrame → Option (Ecu F)
  unfolding chevrolet_handle_can_frame ford_handle_can_frame toyota_handle_can_frame
      bmw_handle_can_frame volkswagen_handle_can_frame mercedes_handle_can_frame
      honda_handle_can_frame nissan_handle_can_frame
  handle_can_frame Make.chevrolet = chevrolet_handle_can_frame
  handle_can_frame Make.ford = ford_handle_can_frame
  handle_can_frame Make.toyota = toyota_handle_can_frame
  handle_can_frame Make.bmw = bmw_handle_can_frame
  handle_can_frame Make.volkswagen = volkswagen_handle_can_frame
  handle_can_frame Make.mercedes = mercedes_handle_can_frame
  handle_can_frame Make.honda = honda_handle_can_frame
  handle_can_frame Make.nissan = nissan_handle_can_frame
