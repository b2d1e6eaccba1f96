-- ===== src/Manufacturer/Runs.antt =====
-- Concrete runs of a control unit, with natural numbers as the floats, and the theorems at concrete inputs.
use mcp2515_rpi.Base.{
  ℕ, ◌+◌, ◌*◌, ◌<◌, ◌≤◌, ◌≡◌, refl, true, false, Option, none, some, List, [], ◌∷◌, map, arith, ltb,
  length, take, All,
}
use mcp2515_rpi.Can.{CanFrame, make_frame, frame_payload}
use mcp2515_rpi.Manufacturer.{
  Ecu, send_positive_response, send_negative_response, get_dtcs, apply_profile_dtcs, set_profile,
  reset,
}
use mcp2515_rpi.Manufacturer.Profiles.{get_current_profile}
use mcp2515_rpi.Manufacturer.Pids.{default_pids, get_supported_pids}
use mcp2515_rpi.Manufacturer.Pids.Supported.{mask_bit, present_bit, supported_bit}
use mcp2515_rpi.Manufacturer.Modes.{
  handle_mode01, handle_mode02, handle_mode03, handle_mode05, handle_mode06, handle_mode08,
  handle_mode09,
}
use mcp2515_rpi.Manufacturer.Uds.{
  handle_security_access, handle_read_data_by_identifier, handle_ecu_reset,
  handle_communication_control, handle_read_memory_by_address, handle_write_memory_by_address,
  handle_routine_control, handle_request_download, handle_request_upload, handle_transfer_data,
  handle_request_transfer_exit,
}
use mcp2515_rpi.Manufacturer.OwnServices.{
  Make, handle_can_frame, toyota_mode21, toyota_mode22, handle_ford_enhanced_pids, read_gm_did,
}
use mcp2515_rpi.Manufacturer.Laws.Responses.{Answers, handle-Answers}
use mcp2515_rpi.Manufacturer.Laws.Security.{paired_key_refused}
use mcp2515_rpi.Manufacturer.Laws.Codes.{read_response, find_dtc, mode03_read, profile_keeps}
use mcp2515_rpi.Manufacturer.Laws.Frames.{short_write_faults, vin_cut}
use mcp2515_rpi.Base.Latest.{ltb-false}
use mcp2515_rpi.Manufacturer.Profiles.{apply_rpm_profile}
use mcp2515_rpi.Manufacturer.Profiles.Laws.{apply_rpm_profile_lem}
use mcp2515_rpi.Manufacturer.Samples.{ops, misfire, profiles, vin, unit, io}

rpm_read : handle_mode01 ops unit 0 0x0C ≡ 0x41 ∷ 0x0C ∷ 0x0C ∷ 0x80 ∷ []
unfolding handle_mode01
rpm_read = refl

first_pids : get_supported_pids default_pids 0 ≡ 0xDF ∷ 0xFF ∷ 0xFF ∷ 0x09 ∷ []
unfolding get_supported_pids
first_pids = refl

fixed_modes :
    (handle_mode02 ops unit 0 0x0C ≡ 0x7F ∷ 0x02 ∷ 0x31 ∷ [])
    × (handle_mode05 1 ≡ 0x05 ∷ 0x00 ∷ [])
    × (handle_mode06 1 ≡ 0x06 ∷ 0x00 ∷ [])
    × (handle_mode08 1 [] ≡ 0x08 ∷ 0x00 ∷ [])
    × (handle_mode09 unit 0x08 ≡ 0x09 ∷ 0x08 ∷ 0x12 ∷ 0x34 ∷ 0x56 ∷ 0x78 ∷ [])
unfolding handle_mode02 handle_mode05 handle_mode06 handle_mode08 handle_mode09
fixed_modes = (refl, refl, refl, refl, refl)

fixed_services :
    (handle_ecu_reset 1 ≡ 0x51 ∷ 1 ∷ [])
    × (handle_communication_control 1 ≡ 0x50 ∷ 0x28 ∷ 0x00 ∷ [])
    × (handle_read_memory_by_address 0 4 ≡ 0x7F ∷ 0x23 ∷ 0x12 ∷ [])
    × (handle_write_memory_by_address 0 [] ≡ 0x7F ∷ 0x3D ∷ 0x12 ∷ [])
    × (handle_routine_control 1 0xFF00 [] ≡ 0x70 ∷ 0x31 ∷ 0xFF ∷ 0x00 ∷ 0x00 ∷ [])
    × (handle_request_download 0 0 0 ≡ 0x74 ∷ 0x20 ∷ [])
    × (handle_request_upload 0 0 0 ≡ 0x75 ∷ 0x20 ∷ [])
    × (handle_transfer_data 9 [] ≡ 0x76 ∷ 9 ∷ [])
    × (handle_request_transfer_exit ≡ 0x77 ∷ [])
unfolding handle_ecu_reset handle_communication_control handle_read_memory_by_address
    handle_write_memory_by_address handle_routine_control handle_request_download
    handle_request_upload handle_transfer_data handle_request_transfer_exit
fixed_services = (refl, refl, refl, refl, refl, refl, refl, refl, refl)

own_services :
    (toyota_mode21 4 ≡ 0x61 ∷ 0x21 ∷ 0x04 ∷ 0x01 ∷ [])
    × (toyota_mode22 5 ≡ 0x62 ∷ 0x22 ∷ 5 ∷ 0x00 ∷ [])
    × (handle_ford_enhanced_pids ops unit 0x2002 ≡ 0x62 ∷ 0x20 ∷ 0x02 ∷ 75 ∷ [])
    × (read_gm_did ops unit 0x1220 ≡ 0x62 ∷ 0x12 ∷ 0x20 ∷ 0x00 ∷ [])
    × (read_gm_did ops unit 0xF193 ≡ 0x62 ∷ 0xF1 ∷ 0x93 ∷ b'm' ∷ [])
unfolding toyota_mode21 toyota_mode22 handle_ford_enhanced_pids read_gm_did
own_services = (refl, refl, refl, refl, refl)

restarted :
    ((reset ops.literal 9 unit).dtcs ≡ [])
    × ((send_positive_response unit 0x10 []).sent ≡ make_frame 0x7E8 (0x50 ∷ []) false ∷ [])
unfolding reset send_positive_response
restarted = (refl, refl)

abbrev sent_of : Option (Ecu ℕ) → List CanFrame
sent_of none = []
sent_of (some e) = e.sent

-- The unknown service 0x85 is answered with the code 0x11.
abbrev unknown_service : CanFrame
unknown_service = make_frame 0x7E0 (0x85 ∷ 0x01 ∷ []) false

refused :
    sent_of (handle_can_frame Make.bmw ops io unit unknown_service)
    ≡ make_frame 0x7E8 (0x7F ∷ 0x85 ∷ 0x11 ∷ []) false ∷ []
unfolding handle_can_frame make_frame send_negative_response
refused = refl

handle-Answers_example : Answers unit (handle_can_frame Make.bmw ops io unit unknown_service)
handle-Answers_example = handle-Answers Make.bmw ops io unit unknown_service

paired_key_refused_example :
    let asked = (handle_security_access unit 1 (5 ∷ 6 ∷ []) 0x01 []).0 in
    handle_security_access asked 2 [] 0x02 (9 ∷ []) ≡ (asked, 0x7F ∷ 0x27 ∷ 0x35 ∷ [])
paired_key_refused_example =
    paired_key_refused unit 1 2 0x01 (5 ∷ 6 ∷ []) [] [] (9 ∷ []) (omega arith) refl

catalyst_active : length (get_dtcs unit true) ≤ 255
unfolding get_dtcs
catalyst_active = omega arith

catalyst_small : All (λ d. d.code < 65536) (get_dtcs unit true)
unfolding get_dtcs
catalyst_small = (omega arith, tt)

mode03_read_example :
    read_response (frame_payload (make_frame unit.rx_id (handle_mode03 unit) false))
    ≡ (length (get_dtcs unit true), take 3 (map (λ d. d.code) (get_dtcs unit true)))
mode03_read_example = mode03_read unit catalyst_active catalyst_small

misfire_chosen : get_current_profile unit.profile_manager ≡ some misfire
unfolding get_current_profile
misfire_chosen = refl

profile_keeps_example : find_dtc (apply_profile_dtcs unit).0.dtcs 0x0420 ≡ find_dtc unit.dtcs 0x0420
profile_keeps_example = profile_keeps unit misfire 0x0420 misfire_chosen refl

-- A return to the normal profile keeps the misfire codes.
faults_stay : length (set_profile (apply_profile_dtcs unit).0 (b'n' ∷ [])).0.dtcs ≡ 3
unfolding set_profile apply_profile_dtcs
faults_stay = refl

short_write_faults_example :
    let frame : CanFrame = record {
      can_id = 0x7E0;
      can_dlc = 2;
      bytes = 0x2E ∷ 0xF1 ∷ 0x90 ∷ [];
    } in
    (handle_can_frame Make.bmw ops io unit frame ≡ none)
    × (handle_can_frame Make.volkswagen ops io unit frame ≡ none)
    × (handle_can_frame Make.ford ops io unit frame ≡ none)
short_write_faults_example =
    short_write_faults ops io unit 0x7E0 0xF1 (0x90 ∷ []) refl (λ e. omega (arith, e))

vin_cut_example :
    frame_payload (make_frame 0x7E8 (handle_read_data_by_identifier ops unit 0xF190 []) false)
    ≡ 0x62 ∷ 0xF1 ∷ 0x90 ∷ take 5 vin
vin_cut_example = vin_cut ops unit []

supported_bit_example :
    mask_bit (get_supported_pids default_pids 1) 2 ≡ present_bit default_pids (1 * 32 + 2)
supported_bit_example = supported_bit default_pids 1 2 (omega arith) (omega arith)

apply_rpm_profile_lem_example :
    (ltb (apply_rpm_profile ops profiles 3 0 9000 1).1 650 ≡ false)
    × (ltb 6000 (apply_rpm_profile ops profiles 3 0 9000 1).1 ≡ false)
apply_rpm_profile_lem_example =
    apply_rpm_profile_lem ops profiles misfire 3 0 9000 1 misfire_chosen
      (λ x. ltb-false x x (omega arith)) refl
