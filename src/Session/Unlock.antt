-- ===== src/Session/Unlock.antt =====
-- What raises the security level, and what a key is good for.
use mcp2515_rpi.Base.{
  ℕ, ◌≡◌, ◌≢◌, refl, sym, subst, ◌∙◌, ◌⊎◌, inl, inr, true, Option, some, List, [], ◌∷◌, arith,
}
use mcp2515_rpi.Session.{
  SessionManager, KeyValidator, locked, default_session, is_session_allowed, change_session,
  request_seed, send_key, lock, reset_timers, set_tester_present, set_session_timeout,
  set_security_timeout, set_timeout_callback, set_seed_key_algorithm, tick,
}
use mcp2515_rpi.Session.Calls.{
  Call, change, seed_request, key, locks, ticks, step, run, IsOffered, run-IsOffered,
}

-- A key that the stored validator accepts for the seed of the level that was asked for last.
pub record IsUnlock (m : SessionManager) (c : Call) (level : ℕ) : Type 0 where
  pub bytes : List ℕ
  pub validator : KeyValidator
  pub is_key : c ≡ key level bytes
  pub requested : m.active_seed_level ≡ level
  pub seeded : m.last_seed ≢ []
  pub installed : m.key_validator ≡ some validator
  pub accepted : validator m.last_seed bytes ≡ true

send_key-IsUnlock :
    (m : SessionManager) (now level : ℕ) (bytes : List ℕ)
    → (send_key m now level bytes).1 ≡ true
    → IsUnlock m (key level bytes) level
unfolding send_key
send_key-IsUnlock m now level bytes h = unlock m.key_validator m.last_seed refl refl
  where
    unlock :
        (v : Option KeyValidator) (seed : List ℕ)
        → m.key_validator ≡ v
        → m.last_seed ≡ seed
        → IsUnlock m (key level bytes) level
    unlock v [] e e' = absurd (ground arith)
    unlock Option.none (x ∷ xs) e e' = absurd (ground arith)
    unlock (some f) (x ∷ xs) e e' = record {
      bytes = bytes;
      validator = f;
      is_key = refl;
      requested = ground arith;
      seeded = λ q. cc;
      installed = e;
      accepted = ground arith;
    }

send_key_level :
    (m : SessionManager) (now level : ℕ) (bytes : List ℕ)
    → ((send_key m now level bytes).0.security_level ≡ m.security_level)
      ⊎ (((send_key m now level bytes).0.security_level ≡ level)
          × ((send_key m now level bytes).1 ≡ true))
unfolding send_key
send_key_level m now level bytes = ground arith

-- A call that changes the security level either locks it, or is a key for the level that it is
-- then at, which is the level that a non-empty seed was last requested for, and the installed
-- validator accepts the key for that seed.
pub step_unlocks :
    (m : SessionManager) (now : ℕ) (c : Call)
    → (step m now c).security_level ≢ m.security_level
    → ((step m now c).security_level ≡ locked) ⊎ IsUnlock m c (step m now c).security_level
unfolding step change_session request_seed lock reset_timers set_tester_present set_session_timeout
    set_security_timeout set_timeout_callback set_seed_key_algorithm tick
step_unlocks m now (change session) h = inl (ground arith)
step_unlocks m now (seed_request level generated) h = absurd (ground arith)
step_unlocks m now (key level bytes) h = elim (send_key_level m now level bytes) [
  | inl same ↦ absurd (h same)
  | inr (at_level, done) ↦ inr (
      subst (IsUnlock m (key level bytes)) (sym at_level)
        (send_key-IsUnlock m now level bytes done))
]
step_unlocks m now locks h = inl refl
step_unlocks m now ticks h = inl (ground arith)
step_unlocks m now _ h = absurd (h refl)

-- What a key is checked against.
abbrev Same : SessionManager → SessionManager → Type 0
Same m n =
    (n.active_seed_level ≡ m.active_seed_level)
    × (n.last_seed ≡ m.last_seed)
    × (n.key_validator ≡ m.key_validator)

change_session-Same :
    (m : SessionManager) (now session : ℕ) → Same m (change_session m now session).0
unfolding change_session
change_session-Same m now session = ground arith

abbrev pub changes : List (ℕ × ℕ) → List (ℕ × Call)
changes [] = []
changes ((now, session) ∷ rest) = (now, change session) ∷ changes rest

run-Same : (m : SessionManager) (sessions : List (ℕ × ℕ)) → Same m (run m (changes sessions))
unfolding run step
run-Same m [] = (refl, refl, refl)
run-Same m ((now, session) ∷ rest) =
    let (level, seed, validator) = change_session-Same m now session in
    let (level', seed', validator') = run-Same (change_session m now session).0 rest in
    (level' ∙ level, seed' ∙ seed, validator' ∙ validator)

send_key-Same :
    (m n : SessionManager) (now later level : ℕ) (bytes : List ℕ)
    → Same (send_key m now level bytes).0 n
    → (send_key n later level bytes).1 ≡ (send_key m now level bytes).1
unfolding send_key
send_key-Same m n now later level bytes (l, s, v) = ground arith

unlocks :
    (m : SessionManager) (now level : ℕ) (bytes : List ℕ)
    → (send_key m now level bytes).1 ≡ true
    → (send_key m now level bytes).0.security_level ≡ level
unfolding send_key
unlocks m now level bytes h = ground (arith, h)

default_locks :
    (m : SessionManager) (now : ℕ)
    → (change_session m now default_session).1 ≡ true
    → ((change_session m now default_session).0.current_session ≡ default_session)
      × ((change_session m now default_session).0.security_level ≡ locked)
unfolding change_session
default_locks m now h = ground (arith, h)

-- A change to the default session is always allowed, from a session that the program offers.
allowed :
    (m : SessionManager) (now : ℕ)
    → IsOffered m.current_session
    → (change_session m now default_session).1 ≡ true
unfolding change_session is_session_allowed
allowed m now h = ground (arith, h)

send_key-IsOffered :
    (m : SessionManager) (now level : ℕ) (bytes : List ℕ)
    → IsOffered m.current_session
    → IsOffered (send_key m now level bytes).0.current_session
unfolding send_key
send_key-IsOffered m now level bytes h = ground (arith, h)

Same-trans : (m n o : SessionManager) → Same m n → Same n o → Same m o
Same-trans m n o h k = (k.0 ∙ h.0, k.1 ∙ h.1, k.2 ∙ h.2)

-- A key is not used up. Where it is accepted, in a session that the program offers, the level is unlocked; after any
-- changes of session and a last one to the default session the level is locked; and the same key, with no new seed,
-- is accepted again and unlocks the level again.
pub key_replay :
    (m : SessionManager) (now back later level : ℕ) (bytes : List ℕ) (sessions : List (ℕ × ℕ))
    → IsOffered m.current_session
    → (send_key m now level bytes).1 ≡ true
    → let first = (send_key m now level bytes).0 in
      let locked_again = (change_session (run first (changes sessions)) back default_session).0 in
      (first.security_level ≡ level)
      × (locked_again.current_session ≡ default_session)
      × (locked_again.security_level ≡ locked)
      × ((send_key locked_again later level bytes).1 ≡ true)
      × ((send_key locked_again later level bytes).0.security_level ≡ level)
key_replay m now back later level bytes sessions offered h =
    let first = (send_key m now level bytes).0 in
    let moved = run first (changes sessions) in
    let locked_again = (change_session moved back default_session).0 in
    let (at_default, is_locked) = default_locks moved back (
      allowed moved back
        (run-IsOffered first (changes sessions) (send_key-IsOffered m now level bytes offered))) in
    let same =
      Same-trans first moved locked_again (run-Same first sessions)
        (change_session-Same moved back default_session) in
    let accepted : (send_key locked_again later level bytes).1 ≡ true =
      send_key-Same m locked_again now later level bytes same ∙ h in
    (
      unlocks m now level bytes h,
      at_default,
      is_locked,
      accepted,
      unlocks locked_again later level bytes accepted,
    )
