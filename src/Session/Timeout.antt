-- ===== src/Session/Timeout.antt =====
-- What `tick` promises.
use mcp2515_rpi.Base.{ℕ, ◌≡◌, ◌≢◌, true, false, [], arith}
use mcp2515_rpi.Session.Calls.{IsOffered}
use mcp2515_rpi.Session.{
  SessionManager, default_session, locked, is_session_expired, is_security_expired, change_session,
  lock, tick,
}

-- In a session that the program can be in, after a tick no expired privilege is left, as judged by the manager before it: an expired session
-- is back at the default, and an expired security level is locked. The callback is told of the
-- default session once, and only if a session other than the default has expired.
pub tick_expires :
    (m : SessionManager) (now : ℕ)
    → IsOffered m.current_session
    → (is_session_expired m now ≡ true → (tick m now).0.current_session ≡ default_session)
      × (is_security_expired m now ≡ true → (tick m now).0.security_level ≡ locked)
      × ((tick m now).1 ≢ []
          → (m.current_session ≢ default_session) × (is_session_expired m now ≡ true))
unfolding tick change_session lock
tick_expires m now offered = ground arith

-- A tick takes nothing away that has not expired. While a tester is present it changes nothing.
pub tick_keeps :
    (m : SessionManager) (now : ℕ)
    → (is_session_expired m now ≡ false → (tick m now).0.current_session ≡ m.current_session)
      × (is_session_expired m now ≡ false
          → is_security_expired m now ≡ false
          → (tick m now) ≡ (m, []))
      × (m.tester_present ≡ true → tick m now ≡ (m, []))
unfolding tick change_session lock
tick_keeps m now = ground arith
