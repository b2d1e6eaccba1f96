-- ===== src/Manufacturer/Laws/Security.antt =====
-- Security access through the control unit's own handler.
use mcp2515_rpi.Base.{
  ℕ, ◌+◌, ◌%◌, ◌/◌, ◌≡◌, ◌≢◌, refl, true, false, List, [], ◌∷◌, arith, bit_and, bit_or,
}
use mcp2515_rpi.Base.Bits.{bit_and_low, bit_or_join}
use mcp2515_rpi.Session.{SessionManager, request_seed, send_key}
use mcp2515_rpi.Manufacturer.{Ecu}
use mcp2515_rpi.Manufacturer.Uds.{handle_security_access}

even_or_one : (level : ℕ) → level % 2 ≡ 0 → bit_or level 0x01 ≡ level + 1
even_or_one level e = ground (arith, bit_or_join 1 (level / 2) 1)

low_bit : (level : ℕ) → bit_and level 0x01 ≡ level % 2
low_bit level = bit_and_low 1 level

refused_level :
    (m : SessionManager) (now level : ℕ) (key : List ℕ)
    → level ≢ m.active_seed_level
    → send_key m now level key ≡ (m, false)
unfolding send_key
refused_level m now level key h = ground (arith, h)

module _ {F : Type 0} where
  seeded :
      (e : Ecu F) (now level : ℕ) (generated payload : List ℕ)
      → level % 2 ≡ 1
      → e.session_manager.has_seed_generator ≡ true
      → (handle_security_access e now generated level payload).0.session_manager.active_seed_level
        ≡ level
  unfolding handle_security_access request_seed
  seeded e now level generated payload odd given = rw (low_bit level, odd, given) refl

  refused_at :
      (e : Ecu F) (now level : ℕ) (generated key : List ℕ)
      → level % 2 ≡ 0
      → level + 1 ≢ e.session_manager.active_seed_level
      → handle_security_access e now generated level key ≡ (e, 0x7F ∷ 0x27 ∷ 0x35 ∷ [])
  unfolding handle_security_access
  refused_at e now level generated key even h =
      rw
        (
          low_bit level,
          even,
          even_or_one level even,
          refused_level e.session_manager now (level + 1) key h,
        )
        refl

  -- Where a seed generator is installed, after a seed request at an odd level, the key sent at the next
  -- level, which is its sub-function in ISO 14229, is refused with 0x35 whatever the key is, and changes
  -- nothing.
  pub paired_key_refused :
      (e : Ecu F) (now later level : ℕ) (generated generated' payload key : List ℕ)
      → level % 2 ≡ 1
      → e.session_manager.has_seed_generator ≡ true
      → let asked = (handle_security_access e now generated level payload).0 in
        handle_security_access asked later generated' (level + 1) key
        ≡ (asked, 0x7F ∷ 0x27 ∷ 0x35 ∷ [])
  paired_key_refused e now later level generated generated' payload key odd given =
      refused_at (handle_security_access e now generated level payload).0 later (level + 1)
        generated' key (omega (arith, odd))
        (λ same. omega (arith, same, seeded e now level generated payload odd given))
