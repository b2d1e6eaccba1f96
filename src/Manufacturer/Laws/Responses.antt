-- ===== src/Manufacturer/Laws/Responses.antt =====
-- How often, and with which identifier, a control unit answers a frame.
use mcp2515_rpi.Base.{
  ℕ, ◌≡◌, ◌⊎◌, inl, inr, refl, Bool, true, false, ◌&&◌, Option, none, some, List, [], ◌∷◌, ◌++◌,
  leb, ◌==◌, bit_or, take, drop, get_or, if◌then◌else◌,
}
use mcp2515_rpi.Can.{CanFrame, make_frame}
use mcp2515_rpi.Session.{SessionManager, request_seed, send_key}
use mcp2515_rpi.Manufacturer.{Ecu, send_response, send_negative_response, clear_dtcs}
use mcp2515_rpi.Manufacturer.Profiles.{FloatOps}
use mcp2515_rpi.Manufacturer.Modes.{handle_mode01, handle_mode04}
use mcp2515_rpi.Manufacturer.Uds.{
  answer, handle_diagnostic_session_control, handle_security_access, handle_tester_present,
}
use mcp2515_rpi.Manufacturer.Makes.{
  Inputs, reply, reply_after, unsupported, receive, security, control, present, read_did, routine,
  write_did, checked_word_at, mode04, bmw_services, bmw_handle_can_frame, volkswagen_services,
  volkswagen_handle_can_frame, mercedes_services, mercedes_handle_can_frame, honda_services,
  honda_handle_can_frame, nissan_services, nissan_handle_can_frame,
}
use mcp2515_rpi.Manufacturer.OwnServices.{
  Make, handle_can_frame, enhanced, ford_write, gm_read, gm_mode01, not_negative, ford_services,
  ford_handle_can_frame, toyota_services, toyota_handle_can_frame, chevrolet_services,
  chevrolet_handle_can_frame,
}

-- The control unit sent nothing, or one frame under its response identifier; its identifiers are the same.
-- A read outside the data is not judged.
pub Answers : {F : Type 0} → Ecu F → Option (Ecu F) → Type 0
Answers e none = Unit
Answers e (some after) =
    ((after.sent ≡ e.sent)
      ⊎ ((payload : List ℕ) × (after.sent ≡ e.sent ++ make_frame e.rx_id payload false ∷ [])))
    × (after.rx_id ≡ e.rx_id)
    × (after.tx_id ≡ e.tx_id)

module _ {F : Type 0} where
  if-Answers :
      (e : Ecu F) (b : Bool) (x y : Option (Ecu F))
      → Answers e x
      → Answers e y
      → Answers e (if b then x else y)
  if-Answers e true x y h k = h
  if-Answers e false x y h k = k

  silent-Answers : (e : Ecu F) → Answers e (some e)
  unfolding Answers
  silent-Answers e = (inl refl, refl, refl)

  reply-Answers : (e : Ecu F) (resp : List ℕ) → Answers e (reply e resp)
  unfolding Answers send_response
  reply-Answers e resp = (inr (resp, refl), refl, refl)

  unsupported-Answers : (e : Ecu F) (service : ℕ) → Answers e (unsupported e service)
  unfolding Answers send_negative_response
  unsupported-Answers e service = (inr (0x7F ∷ service ∷ 0x11 ∷ [], refl), refl, refl)

  clear-Answers : (ops : FloatOps F) (e : Ecu F) → Answers e (mode04 ops e)
  unfolding Answers send_response handle_mode04 clear_dtcs
  clear-Answers ops e = (inr ((handle_mode04 (ops.literal 0 1) e).1, refl), refl, refl)

  control-Answers : (io : Inputs F) (e : Ecu F) (bytes : List ℕ) → Answers e (control io e bytes)
  unfolding Answers send_response handle_diagnostic_session_control
  control-Answers io e bytes = (inr (_, refl), refl, refl)

  answer-Answers :
      (e : Ecu F) (result : SessionManager × Bool) (positive negative : List ℕ)
      → Answers e (reply_after (answer e result positive negative))
  unfolding Answers send_response
  answer-Answers e result positive negative =
      (inr (if result.1 then positive else negative, refl), refl, refl)

  reply_after_if :
      (e : Ecu F) (b : Bool) (p q : Ecu F × List ℕ)
      → Answers e (reply_after p)
      → Answers e (reply_after q)
      → Answers e (reply_after (if b then p else q))
  reply_after_if e true p q h k = h
  reply_after_if e false p q h k = k

  security-Answers : (io : Inputs F) (e : Ecu F) (bytes : List ℕ) → Answers e (security io e bytes)
  unfolding handle_security_access
  security-Answers io e bytes =
      let level = get_or bytes 1 0 in
      let m = e.session_manager in
      reply_after_if e _ _ _
        (answer-Answers e (request_seed m level io.generated) (0x67 ∷ level ∷ [])
          (0x7F ∷ 0x27 ∷ 0x12 ∷ []))
        (answer-Answers e (send_key m io.now (bit_or level 0x01) (drop 2 bytes)) (0x67 ∷ level ∷ [])
          (0x7F ∷ 0x27 ∷ 0x35 ∷ []))

  present-Answers : (io : Inputs F) (e : Ecu F) → Answers e (present io e)
  unfolding Answers send_response handle_tester_present
  present-Answers io e = (inr ((handle_tester_present e io.now).1, refl), refl, refl)

  write-Answers : (e : Ecu F) (bytes : List ℕ) (did : Option ℕ) → Answers e (write_did e bytes did)
  unfolding Answers
  write-Answers e bytes none = tt
  write-Answers e bytes (some did) = reply-Answers e _

  ford_write-Answers :
      (e : Ecu F) (bytes : List ℕ) (did : Option ℕ) → Answers e (ford_write e bytes did)
  unfolding Answers
  ford_write-Answers e bytes none = tt
  ford_write-Answers e bytes (some did) = reply-Answers e _

  enhanced-Answers :
      (ops : FloatOps F) (e : Ecu F) (pid : Option ℕ) → Answers e (enhanced ops e pid)
  unfolding Answers
  enhanced-Answers ops e none = tt
  enhanced-Answers ops e (some pid) = reply-Answers e _

  receive-Answers :
      (e : Ecu F) (frame : CanFrame) (services : List ℕ → Option (Ecu F))
      → ((bytes : List ℕ) → Answers e (services bytes))
      → Answers e (receive e frame services)
  receive-Answers e frame services h =
      if-Answers e _ _ _ (silent-Answers e)
        (if-Answers e _ _ _ (silent-Answers e) (h (take frame.can_dlc frame.bytes)))

  read_did-Answers :
      (ops : FloatOps F) (e : Ecu F) (dlc : ℕ) (bytes : List ℕ)
      → Answers e (read_did ops e dlc bytes)
  read_did-Answers ops e dlc bytes =
      if-Answers e (leb 3 dlc) _ _ (reply-Answers e _) (silent-Answers e)

  routine-Answers : (e : Ecu F) (dlc : ℕ) (bytes : List ℕ) → Answers e (routine e dlc bytes)
  routine-Answers e dlc bytes = if-Answers e (leb 4 dlc) _ _ (reply-Answers e _) (silent-Answers e)

  gm_read-Answers :
      (ops : FloatOps F) (e : Ecu F) (dlc : ℕ) (bytes : List ℕ)
      → Answers e (gm_read ops e dlc bytes)
  gm_read-Answers ops e dlc bytes =
      if-Answers e (leb 3 dlc) _ _ (reply-Answers e _) (silent-Answers e)

  negative-Answers :
      (e : Ecu F) (service nrc : ℕ) → Answers e (some (send_negative_response e service nrc))
  unfolding Answers send_negative_response
  negative-Answers e service nrc = (inr (0x7F ∷ service ∷ nrc ∷ [], refl), refl, refl)

  gm_mode01-Answers :
      (ops : FloatOps F) (io : Inputs F) (e : Ecu F) (bytes : List ℕ)
      → Answers e (gm_mode01 ops io e bytes)
  gm_mode01-Answers ops io e bytes =
      if-Answers e (not_negative (handle_mode01 ops e io.noise (get_or bytes 1 0))) _ _
        (reply-Answers e _) (negative-Answers e 0x01 0x12)

  bmw-Answers :
      (ops : FloatOps F) (io : Inputs F) (e : Ecu F) (dlc : ℕ) (bytes : List ℕ)
      → Answers e (bmw_services ops io e dlc bytes)
  unfolding bmw_services
  bmw-Answers ops io e dlc bytes =
      if-Answers e ((get_or bytes 0 0) == 0x10) _ _ (control-Answers io e bytes) (
        if-Answers e ((get_or bytes 0 0) == 0x22) _ _ (read_did-Answers ops e dlc bytes) (
          if-Answers e ((get_or bytes 0 0) == 0x27) _ _ (security-Answers io e bytes) (
            if-Answers e ((get_or bytes 0 0) == 0x2E) _ _
              (write-Answers e bytes (checked_word_at bytes 1))
              (if-Answers e ((get_or bytes 0 0) == 0x31) _ _ (routine-Answers e dlc bytes) (
                if-Answers e ((get_or bytes 0 0) == 0x3E) _ _ (present-Answers io e)
                  (unsupported-Answers e (get_or bytes 0 0)))))))

  volkswagen-Answers :
      (ops : FloatOps F) (io : Inputs F) (e : Ecu F) (dlc : ℕ) (bytes : List ℕ)
      → Answers e (volkswagen_services ops io e dlc bytes)
  unfolding volkswagen_services
  volkswagen-Answers ops io e dlc bytes =
      if-Answers e ((get_or bytes 0 0) == 0x01) _ _ (reply-Answers e _) (
        if-Answers e ((get_or bytes 0 0) == 0x03) _ _ (reply-Answers e _) (
          if-Answers e ((get_or bytes 0 0) == 0x04) _ _ (clear-Answers ops e) (
            if-Answers e ((get_or bytes 0 0) == 0x09) _ _ (reply-Answers e _) (
              if-Answers e ((get_or bytes 0 0) == 0x10) _ _ (control-Answers io e bytes) (
                if-Answers e ((get_or bytes 0 0) == 0x11) _ _ (reply-Answers e _) (
                  if-Answers e ((get_or bytes 0 0) == 0x22) _ _ (read_did-Answers ops e dlc bytes) (
                    if-Answers e ((get_or bytes 0 0) == 0x27) _ _ (security-Answers io e bytes) (
                      if-Answers e ((get_or bytes 0 0) == 0x2E) _ _
                        (write-Answers e bytes (checked_word_at bytes 1))
                        (if-Answers e ((get_or bytes 0 0) == 0x3E) _ _ (present-Answers io e)
                          (unsupported-Answers e (get_or bytes 0 0)))))))))))

  mercedes-Answers :
      (ops : FloatOps F) (io : Inputs F) (e : Ecu F) (dlc : ℕ) (bytes : List ℕ)
      → Answers e (mercedes_services ops io e dlc bytes)
  unfolding mercedes_services
  mercedes-Answers ops io e dlc bytes =
      if-Answers e ((get_or bytes 0 0) == 0x10) _ _ (control-Answers io e bytes) (
        if-Answers e ((get_or bytes 0 0) == 0x22) _ _ (read_did-Answers ops e dlc bytes) (
          if-Answers e ((get_or bytes 0 0) == 0x27) _ _ (security-Answers io e bytes) (
            if-Answers e ((get_or bytes 0 0) == 0x31) _ _ (routine-Answers e dlc bytes) (
              if-Answers e ((get_or bytes 0 0) == 0x3E) _ _ (present-Answers io e)
                (unsupported-Answers e (get_or bytes 0 0))))))

  honda-Answers :
      (ops : FloatOps F) (io : Inputs F) (e : Ecu F) (dlc : ℕ) (bytes : List ℕ)
      → Answers e (honda_services ops io e dlc bytes)
  unfolding honda_services
  honda-Answers ops io e dlc bytes =
      if-Answers e ((get_or bytes 0 0) == 0x01) _ _ (reply-Answers e _) (
        if-Answers e ((get_or bytes 0 0) == 0x03) _ _ (reply-Answers e _) (
          if-Answers e ((get_or bytes 0 0) == 0x04) _ _ (clear-Answers ops e) (
            if-Answers e ((get_or bytes 0 0) == 0x09) _ _ (reply-Answers e _) (
              if-Answers e ((get_or bytes 0 0) == 0x10) _ _ (control-Answers io e bytes) (
                if-Answers e ((get_or bytes 0 0) == 0x22) _ _ (read_did-Answers ops e dlc bytes) (
                  if-Answers e ((get_or bytes 0 0) == 0x27) _ _ (security-Answers io e bytes) (
                    if-Answers e ((get_or bytes 0 0) == 0x3E) _ _ (present-Answers io e)
                      (unsupported-Answers e (get_or bytes 0 0)))))))))

  nissan-Answers :
      (ops : FloatOps F) (io : Inputs F) (e : Ecu F) (dlc : ℕ) (bytes : List ℕ)
      → Answers e (nissan_services ops io e dlc bytes)
  unfolding nissan_services
  nissan-Answers ops io e dlc bytes =
      if-Answers e ((get_or bytes 0 0) == 0x01) _ _ (reply-Answers e _) (
        if-Answers e ((get_or bytes 0 0) == 0x03) _ _ (reply-Answers e _) (
          if-Answers e ((get_or bytes 0 0) == 0x04) _ _ (clear-Answers ops e) (
            if-Answers e ((get_or bytes 0 0) == 0x09) _ _ (reply-Answers e _) (
              if-Answers e ((get_or bytes 0 0) == 0x10) _ _ (control-Answers io e bytes) (
                if-Answers e ((get_or bytes 0 0) == 0x22) _ _ (read_did-Answers ops e dlc bytes) (
                  if-Answers e ((get_or bytes 0 0) == 0x27) _ _ (security-Answers io e bytes) (
                    if-Answers e ((get_or bytes 0 0) == 0x3E) _ _ (present-Answers io e)
                      (unsupported-Answers e (get_or bytes 0 0)))))))))

  ford-Answers :
      (ops : FloatOps F) (io : Inputs F) (e : Ecu F) (dlc : ℕ) (bytes : List ℕ)
      → Answers e (ford_services ops io e dlc bytes)
  unfolding ford_services
  ford-Answers ops io e dlc bytes =
      if-Answers e (leb 0x01 (get_or bytes 0 0) && leb (get_or bytes 0 0) 0x0A) _ _
        (if-Answers e (get_or bytes 0 0 == 0x03) _ _ (reply-Answers e _) (reply-Answers e _))
        (if-Answers e ((get_or bytes 0 0) == 0x22) _ _
          (enhanced-Answers ops e (checked_word_at bytes 1))
          (if-Answers e ((get_or bytes 0 0) == 0x27) _ _ (security-Answers io e bytes) (
            if-Answers e ((get_or bytes 0 0) == 0x2E) _ _
              (ford_write-Answers e bytes (checked_word_at bytes 1))
              (unsupported-Answers e (get_or bytes 0 0)))))

  toyota-Answers :
      (ops : FloatOps F) (io : Inputs F) (e : Ecu F) (dlc : ℕ) (bytes : List ℕ)
      → Answers e (toyota_services ops io e dlc bytes)
  unfolding toyota_services
  toyota-Answers ops io e dlc bytes =
      if-Answers e ((get_or bytes 0 0) == 0x01) _ _ (reply-Answers e _) (
        if-Answers e ((get_or bytes 0 0) == 0x03) _ _ (reply-Answers e _) (
          if-Answers e ((get_or bytes 0 0) == 0x04) _ _ (clear-Answers ops e) (
            if-Answers e ((get_or bytes 0 0) == 0x07) _ _ (reply-Answers e _) (
              if-Answers e ((get_or bytes 0 0) == 0x09) _ _ (reply-Answers e _) (
                if-Answers e ((get_or bytes 0 0) == 0x15) _ _ (reply-Answers e _) (
                  if-Answers e ((get_or bytes 0 0) == 0x16) _ _ (reply-Answers e _) (
                    if-Answers e ((get_or bytes 0 0) == 0x27) _ _ (security-Answers io e bytes)
                      (unsupported-Answers e (get_or bytes 0 0)))))))))

  chevrolet-Answers :
      (ops : FloatOps F) (io : Inputs F) (e : Ecu F) (dlc : ℕ) (bytes : List ℕ)
      → Answers e (chevrolet_services ops io e dlc bytes)
  unfolding chevrolet_services
  chevrolet-Answers ops io e dlc bytes =
      if-Answers e ((get_or bytes 0 0) == 0x01) _ _ (gm_mode01-Answers ops io e bytes) (
        if-Answers e ((get_or bytes 0 0) == 0x02) _ _ (reply-Answers e _) (
          if-Answers e ((get_or bytes 0 0) == 0x03) _ _ (reply-Answers e _) (
            if-Answers e ((get_or bytes 0 0) == 0x04) _ _ (clear-Answers ops e) (
              if-Answers e ((get_or bytes 0 0) == 0x05) _ _ (reply-Answers e _) (
                if-Answers e ((get_or bytes 0 0) == 0x06) _ _ (reply-Answers e _) (
                  if-Answers e ((get_or bytes 0 0) == 0x07) _ _ (reply-Answers e _) (
                    if-Answers e ((get_or bytes 0 0) == 0x08) _ _ (reply-Answers e _) (
                      if-Answers e ((get_or bytes 0 0) == 0x09) _ _ (reply-Answers e _) (
                        if-Answers e ((get_or bytes 0 0) == 0x0A) _ _ (reply-Answers e _) (
                          if-Answers e ((get_or bytes 0 0) == 0x22) _ _
                            (gm_read-Answers ops e dlc bytes)
                            (if-Answers e ((get_or bytes 0 0) == 0x10) _ _
                              (control-Answers io e bytes)
                              (if-Answers e ((get_or bytes 0 0) == 0x27) _ _
                                (security-Answers io e bytes)
                                (if-Answers e ((get_or bytes 0 0) == 0x3E) _ _
                                  (present-Answers io e)
                                  (unsupported-Answers e (get_or bytes 0 0)))))))))))))))

  -- Every make answers a frame, where it does not read outside the frame's data, with at most one frame,
  -- sent under its response identifier after all that were sent before, and keeps its identifiers.
  pub handle-Answers :
      (make : Make) (ops : FloatOps F) (io : Inputs F) (e : Ecu F) (frame : CanFrame)
      → Answers e (handle_can_frame make ops io e frame)
  unfolding handle_can_frame bmw_handle_can_frame volkswagen_handle_can_frame
      mercedes_handle_can_frame honda_handle_can_frame nissan_handle_can_frame ford_handle_can_frame
      toyota_handle_can_frame chevrolet_handle_can_frame
  handle-Answers Make.bmw ops io e frame =
      receive-Answers e frame _ (λ bytes. bmw-Answers ops io e frame.can_dlc bytes)
  handle-Answers Make.volkswagen ops io e frame =
      receive-Answers e frame _ (λ bytes. volkswagen-Answers ops io e frame.can_dlc bytes)
  handle-Answers Make.mercedes ops io e frame =
      receive-Answers e frame _ (λ bytes. mercedes-Answers ops io e frame.can_dlc bytes)
  handle-Answers Make.honda ops io e frame =
      receive-Answers e frame _ (λ bytes. honda-Answers ops io e frame.can_dlc bytes)
  handle-Answers Make.nissan ops io e frame =
      receive-Answers e frame _ (λ bytes. nissan-Answers ops io e frame.can_dlc bytes)
  handle-Answers Make.ford ops io e frame =
      receive-Answers e frame _ (λ bytes. ford-Answers ops io e frame.can_dlc bytes)
  handle-Answers Make.toyota ops io e frame =
      receive-Answers e frame _ (λ bytes. toyota-Answers ops io e frame.can_dlc bytes)
  handle-Answers Make.chevrolet ops io e frame = if-Answers e _ _ _ (silent-Answers e) (
      if-Answers e _ _ _ (reply-Answers e _) (
        if-Answers e _ _ _ (silent-Answers e)
          (chevrolet-Answers ops io e frame.can_dlc (take frame.can_dlc frame.bytes))))
