-- ===== src/Manufacturer/Laws/Frames.antt =====
-- Which frames a control unit takes, and what fits in the frame that it sends.
use mcp2515_rpi.Base.{
  ℕ, ◌≡◌, ◌≢◌, refl, false, Option, none, some, List, ◌∷◌, arith, bit_and, ◌==◌, ==_iff, take,
  if◌then◌else◌,
}
use mcp2515_rpi.Can.{CanFrame, make_frame, frame_payload}
use mcp2515_rpi.Can.Transmit.{make_frame_lem}
use mcp2515_rpi.Manufacturer.{Ecu}
use mcp2515_rpi.Manufacturer.Profiles.{FloatOps}
use mcp2515_rpi.Manufacturer.Uds.{handle_read_data_by_identifier}
use mcp2515_rpi.Manufacturer.Makes.{
  Inputs, receive, mercedes_services, honda_services, nissan_services, bmw_services,
  volkswagen_services,
}
use mcp2515_rpi.Manufacturer.OwnServices.{Make, handle_can_frame, toyota_services, ford_services}

not_same : (a b : ℕ) → a ≢ b → (a == b) ≡ false
not_same a b h = ground (arith, h)

module _ {F : Type 0} where
  receive_own :
      (e : Ecu F) (frame : CanFrame) (services : List ℕ → Option (Ecu F))
      → bit_and frame.can_id 0x7FF ≡ e.rx_id
      → receive e frame services ≡ some e
  receive_own e frame services h =
      rw ((==_iff (bit_and frame.can_id 0x7FF) e.rx_id).1 h, if◌then◌else◌) refl

  -- No make reacts to a frame with its own response identifier, and so none answers its own answers.
  pub own_ignored :
      (make : Make) (ops : FloatOps F) (io : Inputs F) (e : Ecu F) (frame : CanFrame)
      → bit_and frame.can_id 0x7FF ≡ e.rx_id
      → handle_can_frame make ops io e frame ≡ some e
  unfolding handle_can_frame
  own_ignored Make.bmw ops io e frame h =
      receive_own e frame (λ bytes. bmw_services ops io e frame.can_dlc bytes) h
  own_ignored Make.volkswagen ops io e frame h =
      receive_own e frame (λ bytes. volkswagen_services ops io e frame.can_dlc bytes) h
  own_ignored Make.mercedes ops io e frame h =
      receive_own e frame (λ bytes. mercedes_services ops io e frame.can_dlc bytes) h
  own_ignored Make.honda ops io e frame h =
      receive_own e frame (λ bytes. honda_services ops io e frame.can_dlc bytes) h
  own_ignored Make.nissan ops io e frame h =
      receive_own e frame (λ bytes. nissan_services ops io e frame.can_dlc bytes) h
  own_ignored Make.ford ops io e frame h =
      receive_own e frame (λ bytes. ford_services ops io e frame.can_dlc bytes) h
  own_ignored Make.toyota ops io e frame h =
      receive_own e frame (λ bytes. toyota_services ops io e frame.can_dlc bytes) h
  own_ignored Make.chevrolet ops io e frame h =
      rw ((==_iff (bit_and frame.can_id 0x7FF) e.rx_id).1 h, if◌then◌else◌) refl

  receive_addressed :
      (e : Ecu F) (frame : CanFrame) (services : List ℕ → Option (Ecu F))
      → bit_and frame.can_id 0x7FF ≡ e.tx_id
      → e.tx_id ≢ e.rx_id
      → frame.can_dlc ≡ 2
      → receive e frame services ≡ services (take 2 frame.bytes)
  receive_addressed e frame services h differs two =
      rw (h, not_same e.tx_id e.rx_id differs, (==_iff e.tx_id e.tx_id).1 refl, two, if◌then◌else◌)
        refl

  -- Where the request and the response identifiers differ, a frame of two bytes under the request
  -- identifier that asks BMW, Volkswagen or Ford to write data makes them read a third byte that the frame
  -- does not have.
  pub short_write_faults :
      (ops : FloatOps F) (io : Inputs F) (e : Ecu F) (id did : ℕ) (rest : List ℕ)
      → bit_and id 0x7FF ≡ e.tx_id
      → e.tx_id ≢ e.rx_id
      → let frame : CanFrame = record { can_id = id; can_dlc = 2; bytes = 0x2E ∷ did ∷ rest } in
        (handle_can_frame Make.bmw ops io e frame ≡ none)
        × (handle_can_frame Make.volkswagen ops io e frame ≡ none)
        × (handle_can_frame Make.ford ops io e frame ≡ none)
  unfolding handle_can_frame bmw_services volkswagen_services ford_services
  short_write_faults ops io e id did rest h differs =
      let frame : CanFrame = record { can_id = id; can_dlc = 2; bytes = 0x2E ∷ did ∷ rest } in
      (
        receive_addressed e frame (λ bytes. bmw_services ops io e 2 bytes) h differs refl,
        receive_addressed e frame (λ bytes. volkswagen_services ops io e 2 bytes) h differs refl,
        receive_addressed e frame (λ bytes. ford_services ops io e 2 bytes) h differs refl,
      )

  -- Of the vehicle number that the UDS service reads, a frame carries the first five characters.
  pub vin_cut :
      (ops : FloatOps F) (e : Ecu F) (payload : List ℕ)
      → frame_payload
          (make_frame e.rx_id (handle_read_data_by_identifier ops e 0xF190 payload) false)
        ≡ 0x62 ∷ 0xF1 ∷ 0x90 ∷ take 5 e.vin
  unfolding handle_read_data_by_identifier
  vin_cut ops e payload = (make_frame_lem e.rx_id (0x62 ∷ 0xF1 ∷ 0x90 ∷ e.vin) false).0
