-- ===== src/Session/Runs.antt =====
-- Concrete runs of the session manager, and the theorems at concrete inputs.
use mcp2515_rpi.Base.{ℕ, ◌≡◌, refl, ◌⊎◌, true, false, some, List, [], ◌∷◌, arith}
use mcp2515_rpi.Session.{
  SessionManager, default_session, extended_session, locked, init, is_security_unlocked,
  change_session, send_key, tick,
}
use mcp2515_rpi.Session.Calls.{Call, change, key, ticks, step, run, IsOffered, run-init-IsOffered}
use mcp2515_rpi.Session.Unlock.{IsUnlock, step_unlocks, changes, key_replay}

-- A validator that wants the seed back, and a manager that has asked for a seed of level 1.
abbrev seeded : SessionManager
unfolding init
seeded = record (init 0) {
  current_session = extended_session;
  active_seed_level = 1;
  last_seed = 0x5A ∷ [];
  has_seed_generator = true;
  key_validator = some (λ seed bytes. true);
}

abbrev history : List (ℕ × Call)
history = (1, change 3) ∷ (2, change 4) ∷ (3, change 2) ∷ (6_000_000_000, ticks) ∷ []

history_ends : (run (init 0) history).current_session ≡ default_session
unfolding run step init change_session tick
history_ends = refl

run-init-IsOffered_example : IsOffered (run (init 0) history).current_session
run-init-IsOffered_example = run-init-IsOffered 0 history

unlocked : (send_key seeded 5 1 (7 ∷ [])).1 ≡ true
unfolding init send_key
unlocked = refl

step_unlocks_example :
    ((step seeded 5 (key 1 (7 ∷ []))).security_level ≡ locked)
    ⊎ IsUnlock seeded (key 1 (7 ∷ [])) (step seeded 5 (key 1 (7 ∷ []))).security_level
unfolding init step send_key
step_unlocks_example = step_unlocks seeded 5 (key 1 (7 ∷ [])) (omega arith)

seeded-IsOffered : IsOffered seeded.current_session
unfolding seeded
seeded-IsOffered = omega arith

key_replay_example :
    let first = (send_key seeded 5 1 (7 ∷ [])).0 in
    let locked_again =
      (change_session (run first (changes ((6, 1) ∷ (7, 3) ∷ []))) 8 default_session).0 in
    (first.security_level ≡ 1)
    × (locked_again.current_session ≡ default_session)
    × (locked_again.security_level ≡ locked)
    × ((send_key locked_again 9 1 (7 ∷ [])).1 ≡ true)
    × ((send_key locked_again 9 1 (7 ∷ [])).0.security_level ≡ 1)
key_replay_example =
    key_replay seeded 5 8 9 1 (7 ∷ []) ((6, 1) ∷ (7, 3) ∷ []) seeded-IsOffered unlocked

level_order :
    (is_security_unlocked (record seeded { security_level = 3 }) 2 ≡ true)
    × (is_security_unlocked seeded 1 ≡ false)
unfolding init is_security_unlocked
level_order = (refl, refl)
