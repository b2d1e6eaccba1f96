-- ===== src/Manufacturer/Makes.antt =====
-- src/manufacturers: `handleCanFrame` of each make. The result is `none` where the source reads outside the data
-- of the frame, which is undefined there. `Inputs` is what one call reads from outside.
use mcp2515_rpi.Base.{
  ℕ, ◌+◌, not, ◌||◌, Option, none, some, List, bit_and, bit_or, u16, ◌<<◌, ltb, leb, ◌==◌, get_or,
  get_elem?, take, drop, if◌then◌else◌,
}
use mcp2515_rpi.Can.{CanFrame}
use mcp2515_rpi.Manufacturer.{Ecu, send_response, send_negative_response}
use mcp2515_rpi.Manufacturer.Profiles.{FloatOps}
use mcp2515_rpi.Manufacturer.Modes.{handle_mode01, handle_mode03, handle_mode04, handle_mode09}
use mcp2515_rpi.Manufacturer.Uds.{
  handle_diagnostic_session_control, handle_ecu_reset, handle_security_access,
  handle_tester_present, handle_read_data_by_identifier, handle_write_data_by_identifier,
  handle_routine_control,
}

pub record Inputs (F : Type 0) : Type 0 where
  pub now : ℕ
  pub generated : List ℕ
  pub noise : F

-- `(data[i] << 8) | data[i + 1]` where both are known to exist.
abbrev pub word_at : List ℕ → ℕ → ℕ
word_at bytes i = u16 (bit_or (get_or bytes i 0 << 8) (get_or bytes (i + 1) 0))

abbrev pub joined : Option ℕ → Option ℕ → Option ℕ
joined (some high) (some low) = some (u16 (bit_or (high << 8) low))
joined _ _ = none

-- The same where the source does not check that they exist.
abbrev pub checked_word_at : List ℕ → ℕ → Option ℕ
checked_word_at bytes i = joined (get_elem? bytes i) (get_elem? bytes (i + 1))

module _ {F : Type 0} where
  abbrev pub reply : Ecu F → List ℕ → Option (Ecu F)
  reply e resp = some (send_response e e.rx_id resp)

  abbrev pub reply_after : Ecu F × List ℕ → Option (Ecu F)
  reply_after (e, resp) = reply e resp

  abbrev pub unsupported : Ecu F → ℕ → Option (Ecu F)
  unsupported e service = some (send_negative_response e service 0x11)

  -- The start of every `handleCanFrame`: whose frames are answered, and by which services.
  abbrev pub receive : Ecu F → CanFrame → (List ℕ → Option (Ecu F)) → Option (Ecu F)
  receive e frame services =
      let id = bit_and frame.can_id 0x7FF in
      if id == e.rx_id
      then some e
      else if not (id == e.tx_id) || ltb frame.can_dlc 2
      then some e
      else services (take frame.can_dlc frame.bytes)

  abbrev pub read_did : FloatOps F → Ecu F → ℕ → List ℕ → Option (Ecu F)
  read_did ops e dlc bytes =
      if leb 3 dlc
      then reply e (handle_read_data_by_identifier ops e (word_at bytes 1) (drop 3 bytes))
      else some e

  abbrev pub write_did : Ecu F → List ℕ → Option ℕ → Option (Ecu F)
  write_did e bytes none = none
  write_did e bytes (some did) = reply e (handle_write_data_by_identifier did (drop 3 bytes))

  abbrev pub security : Inputs F → Ecu F → List ℕ → Option (Ecu F)
  security io e bytes =
      reply_after (handle_security_access e io.now io.generated (get_or bytes 1 0) (drop 2 bytes))

  abbrev pub routine : Ecu F → ℕ → List ℕ → Option (Ecu F)
  routine e dlc bytes =
      if leb 4 dlc
      then reply e (handle_routine_control (get_or bytes 1 0) (word_at bytes 2) (drop 4 bytes))
      else some e

  abbrev pub control : Inputs F → Ecu F → List ℕ → Option (Ecu F)
  control io e bytes = reply_after (handle_diagnostic_session_control e io.now (get_or bytes 1 0))

  abbrev pub present : Inputs F → Ecu F → Option (Ecu F)
  present io e = reply_after (handle_tester_present e io.now)

  abbrev pub mode01 : FloatOps F → Inputs F → Ecu F → List ℕ → Option (Ecu F)
  mode01 ops io e bytes = reply e (handle_mode01 ops e io.noise (get_or bytes 1 0))

  abbrev pub mode04 : FloatOps F → Ecu F → Option (Ecu F)
  mode04 ops e = reply_after (handle_mode04 (ops.literal 0 1) e)

  unfoldable pub bmw_services : FloatOps F → Inputs F → Ecu F → ℕ → List ℕ → Option (Ecu F)
  bmw_services ops io e dlc bytes =
      let service = get_or bytes 0 0 in
      if service == 0x10
      then control io e bytes
      else if service == 0x22
      then read_did ops e dlc bytes
      else if service == 0x27
      then security io e bytes
      else if service == 0x2E
      then write_did e bytes (checked_word_at bytes 1)
      else if service == 0x31
      then routine e dlc bytes
      else if service == 0x3E
      then present io e
      else unsupported e service

  unfoldable pub bmw_handle_can_frame : FloatOps F → Inputs F → Ecu F → CanFrame → Option (Ecu F)
  unfolding bmw_services
  bmw_handle_can_frame ops io e frame =
      receive e frame (λ bytes. bmw_services ops io e frame.can_dlc bytes)

  unfoldable pub volkswagen_services : FloatOps F → Inputs F → Ecu F → ℕ → List ℕ → Option (Ecu F)
  volkswagen_services ops io e dlc bytes =
      let service = get_or bytes 0 0 in
      if service == 0x01
      then mode01 ops io e bytes
      else if service == 0x03
      then reply e (handle_mode03 e)
      else if service == 0x04
      then mode04 ops e
      else if service == 0x09
      then reply e (handle_mode09 e (get_or bytes 1 0))
      else if service == 0x10
      then control io e bytes
      else if service == 0x11
      then reply e (handle_ecu_reset (get_or bytes 1 0))
      else if service == 0x22
      then read_did ops e dlc bytes
      else if service == 0x27
      then security io e bytes
      else if service == 0x2E
      then write_did e bytes (checked_word_at bytes 1)
      else if service == 0x3E
      then present io e
      else unsupported e service

  unfoldable pub volkswagen_handle_can_frame :
      FloatOps F → Inputs F → Ecu F → CanFrame → Option (Ecu F)
  unfolding volkswagen_services
  volkswagen_handle_can_frame ops io e frame =
      receive e frame (λ bytes. volkswagen_services ops io e frame.can_dlc bytes)

  unfoldable pub mercedes_services : FloatOps F → Inputs F → Ecu F → ℕ → List ℕ → Option (Ecu F)
  mercedes_services ops io e dlc bytes =
      let service = get_or bytes 0 0 in
      if service == 0x10
      then control io e bytes
      else if service == 0x22
      then read_did ops e dlc bytes
      else if service == 0x27
      then security io e bytes
      else if service == 0x31
      then routine e dlc bytes
      else if service == 0x3E
      then present io e
      else unsupported e service

  unfoldable pub mercedes_handle_can_frame :
      FloatOps F → Inputs F → Ecu F → CanFrame → Option (Ecu F)
  unfolding mercedes_services
  mercedes_handle_can_frame ops io e frame =
      receive e frame (λ bytes. mercedes_services ops io e frame.can_dlc bytes)

  unfoldable pub honda_services : FloatOps F → Inputs F → Ecu F → ℕ → List ℕ → Option (Ecu F)
  honda_services ops io e dlc bytes =
      let service = get_or bytes 0 0 in
      if service == 0x01
      then mode01 ops io e bytes
      else if service == 0x03
      then reply e (handle_mode03 e)
      else if service == 0x04
      then mode04 ops e
      else if service == 0x09
      then reply e (handle_mode09 e (get_or bytes 1 0))
      else if service == 0x10
      then control io e bytes
      else if service == 0x22
      then read_did ops e dlc bytes
      else if service == 0x27
      then security io e bytes
      else if service == 0x3E
      then present io e
      else unsupported e service

  unfoldable pub honda_handle_can_frame : FloatOps F → Inputs F → Ecu F → CanFrame → Option (Ecu F)
  unfolding honda_services
  honda_handle_can_frame ops io e frame =
      receive e frame (λ bytes. honda_services ops io e frame.can_dlc bytes)

  unfoldable pub nissan_services : FloatOps F → Inputs F → Ecu F → ℕ → List ℕ → Option (Ecu F)
  nissan_services ops io e dlc bytes =
      let service = get_or bytes 0 0 in
      if service == 0x01
      then mode01 ops io e bytes
      else if service == 0x03
      then reply e (handle_mode03 e)
      else if service == 0x04
      then mode04 ops e
      else if service == 0x09
      then reply e (handle_mode09 e (get_or bytes 1 0))
      else if service == 0x10
      then control io e bytes
      else if service == 0x22
      then read_did ops e dlc bytes
      else if service == 0x27
      then security io e bytes
      else if service == 0x3E
      then present io e
      else unsupported e service

  unfoldable pub nissan_handle_can_frame : FloatOps F → Inputs F → Ecu F → CanFrame → Option (Ecu F)
  unfolding nissan_services
  nissan_handle_can_frame ops io e frame =
      receive e frame (λ bytes. nissan_services ops io e frame.can_dlc bytes)
