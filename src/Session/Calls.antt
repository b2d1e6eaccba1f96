-- ===== src/Session/Calls.antt =====
-- The calls of the session manager as one step function, and what every history of them keeps.
use mcp2515_rpi.Base.{ℕ, ◌≤◌, ◌≡◌, refl, ◌⊎◌, inr, Bool, Option, List, [], ◌∷◌, arith}
use mcp2515_rpi.Session.{
  SessionManager, KeyValidator, default_session, init, change_session, request_seed, send_key, lock,
  reset_timers, set_tester_present, set_session_timeout, set_security_timeout, set_timeout_callback,
  set_seed_key_algorithm, tick,
}

pub data Call : Type 0 where
  change : ℕ → Call
  seed_request : ℕ → List ℕ → Call
  key : ℕ → List ℕ → Call
  locks : Call
  timers : Call
  tester : Bool → Call
  session_limit : ℕ → Call
  security_limit : ℕ → Call
  callback : Bool → Call
  algorithm : Bool → Option KeyValidator → Call
  ticks : Call

unfoldable pub step : SessionManager → ℕ → Call → SessionManager
step m now (change session) = (change_session m now session).0
step m now (seed_request level generated) = (request_seed m level generated).0
step m now (key level bytes) = (send_key m now level bytes).0
step m now locks = lock m
step m now timers = reset_timers m now
step m now (tester present) = set_tester_present m present
step m now (session_limit timeout) = set_session_timeout m timeout
step m now (security_limit timeout) = set_security_timeout m timeout
step m now (callback present) = set_timeout_callback m present
step m now (algorithm generator validator) = set_seed_key_algorithm m generator validator
step m now ticks = (tick m now).0

unfoldable pub run : SessionManager → List (ℕ × Call) → SessionManager
run m [] = m
run m ((now, c) ∷ cs) = run (step m now c) cs

-- A session that the program can be in.
abbrev pub IsOffered : ℕ → Type 0
IsOffered session = (1 ≤ session) × (session ≤ 3)

step-IsOffered :
    (m : SessionManager) (now : ℕ) (c : Call)
    → IsOffered m.current_session
    → IsOffered (step m now c).current_session
unfolding step change_session request_seed send_key lock reset_timers set_tester_present
    set_session_timeout set_security_timeout set_timeout_callback set_seed_key_algorithm tick
step-IsOffered m now (change session) h = ground arith
step-IsOffered m now (seed_request level generated) h = ground arith
step-IsOffered m now (key level bytes) h = ground arith
step-IsOffered m now ticks h = ground arith
step-IsOffered m now _ h = h

pub run-IsOffered :
    (m : SessionManager) (cs : List (ℕ × Call))
    → IsOffered m.current_session
    → IsOffered (run m cs).current_session
unfolding run
run-IsOffered m [] h = h
run-IsOffered m ((now, c) ∷ cs) h = run-IsOffered (step m now c) cs (step-IsOffered m now c h)

-- After any history of calls the session is the default, the programming or the extended one: the
-- safety session is never entered, and neither is a byte that names no session.
pub run-init-IsOffered :
    (start : ℕ) (cs : List (ℕ × Call)) → IsOffered (run (init start) cs).current_session
run-init-IsOffered start cs = run-IsOffered (init start) cs (unfold init in omega arith)

-- No call moves between two sessions other than the default one directly: the session before it or
-- the session after it is the default, or it keeps the session.
pub step_through_default :
    (m : SessionManager) (now : ℕ) (c : Call)
    → (m.current_session ≡ default_session)
      ⊎ ((step m now c).current_session ≡ default_session)
      ⊎ ((step m now c).current_session ≡ m.current_session)
unfolding step change_session request_seed send_key lock reset_timers set_tester_present
    set_session_timeout set_security_timeout set_timeout_callback set_seed_key_algorithm tick
step_through_default m now (change session) = ground arith
step_through_default m now (seed_request level generated) = ground arith
step_through_default m now (key level bytes) = ground arith
step_through_default m now ticks = ground arith
step_through_default m now _ = inr (inr refl)
