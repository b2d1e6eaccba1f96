-- ===== src/Session.antt =====
-- src/core/session_manager.hpp and session_manager.cpp: the UDS session, the security level that a
-- seed and key exchange unlocks, and the timeouts of both.
-- A session or a level is the number behind the enum, since the program casts any byte to it. The
-- steady clock is an argument `now`, in nanoseconds, read once in each call. What a call of the seed
-- generator returns is an argument too; the key validator is a function that the object stores.
pub mod Calls
pub mod Unlock
pub mod Timeout
mod Runs
use mcp2515_rpi.Base.{
  ℕ, ◌-◌, ◌*◌, Bool, true, false, not, ◌&&◌, ◌||◌, Option, none, some, List, [], ◌∷◌, leb, ltb,
  ◌==◌, if◌then◌else◌,
}

abbrev pub default_session : ℕ
default_session = 0x01

abbrev pub programming_session : ℕ
programming_session = 0x02

abbrev pub extended_session : ℕ
extended_session = 0x03

abbrev pub safety_session : ℕ
safety_session = 0x04

abbrev pub locked : ℕ
locked = 0x00

abbrev ns_per_second : ℕ
ns_per_second = 1_000_000_000

abbrev pub KeyValidator : Type 0
KeyValidator = List ℕ → List ℕ → Bool

pub record SessionManager : Type 0 where
  pub current_session : ℕ
  pub security_level : ℕ
  pub tester_present : Bool
  pub session_start : ℕ
  pub security_unlock_time : ℕ
  pub session_timeout : ℕ
  pub security_timeout : ℕ
  pub has_timeout_callback : Bool
  pub active_seed_level : ℕ
  pub last_seed : List ℕ
  pub has_seed_generator : Bool
  pub key_validator : Option KeyValidator

unfoldable pub init : ℕ → SessionManager
init now = record {
  current_session = default_session;
  security_level = locked;
  tester_present = false;
  session_start = now;
  security_unlock_time = now;
  session_timeout = 5;
  security_timeout = 10;
  has_timeout_callback = false;
  active_seed_level = 0;
  last_seed = [];
  has_seed_generator = false;
  key_validator = none;
}

unfoldable pub is_session_allowed : SessionManager → ℕ → Bool
is_session_allowed m session =
    if m.current_session == default_session
    then session == default_session || session == extended_session || session == programming_session
    else if m.current_session == extended_session
    then session == default_session || session == extended_session
    else if m.current_session == programming_session
    then session == default_session
    else false

unfoldable pub change_session : SessionManager → ℕ → ℕ → SessionManager × Bool
unfolding is_session_allowed
change_session m now session =
    if not (is_session_allowed m session)
    then (m, false)
    else let m' = record m { current_session = session; session_start = now } in
      (if session == default_session then record m' { security_level = locked } else m', true)

-- `generated` is what the stored generator returns for this call.
unfoldable pub request_seed : SessionManager → ℕ → List ℕ → SessionManager × Bool
request_seed m level generated =
    if not m.has_seed_generator
    then (m, false)
    else (record m { active_seed_level = level; last_seed = generated }, true)

abbrev is_empty : List ℕ → Bool
is_empty [] = true
is_empty (x ∷ xs) = false

abbrev accepts : Option KeyValidator → List ℕ → List ℕ → Bool
accepts none seed key = false
accepts (some validator) seed key = validator seed key

unfoldable pub send_key : SessionManager → ℕ → ℕ → List ℕ → SessionManager × Bool
send_key m now level key =
    if not (level == m.active_seed_level) || is_empty m.last_seed
    then (m, false)
    else if accepts m.key_validator m.last_seed key
    then (record m { security_level = level; security_unlock_time = now }, true)
    else (m, false)

pub is_security_unlocked : SessionManager → ℕ → Bool
is_security_unlocked m level = leb level m.security_level

unfoldable pub lock : SessionManager → SessionManager
lock m = record m { security_level = locked; last_seed = []; active_seed_level = 0 }

-- The clock is monotonic, so that the truncated difference is the source's.
pub is_session_expired : SessionManager → ℕ → Bool
is_session_expired m now =
    if m.tester_present
    then false
    else ltb (m.session_timeout * ns_per_second) (now - m.session_start)

pub is_security_expired : SessionManager → ℕ → Bool
is_security_expired m now =
    if m.tester_present
    then false
    else ltb (m.security_timeout * ns_per_second) (now - m.security_unlock_time)

unfoldable pub reset_timers : SessionManager → ℕ → SessionManager
reset_timers m now = record m { session_start = now; security_unlock_time = now }

unfoldable pub set_tester_present : SessionManager → Bool → SessionManager
set_tester_present m present = record m { tester_present = present }

pub set_session_timeout : SessionManager → ℕ → SessionManager
set_session_timeout m timeout = record m { session_timeout = timeout }

pub set_security_timeout : SessionManager → ℕ → SessionManager
set_security_timeout m timeout = record m { security_timeout = timeout }

pub set_timeout_callback : SessionManager → Bool → SessionManager
set_timeout_callback m present = record m { has_timeout_callback = present }

-- The generator and the validator may be empty functions.
pub set_seed_key_algorithm : SessionManager → Bool → Option KeyValidator → SessionManager
set_seed_key_algorithm m generator validator = record m {
  has_seed_generator = generator;
  key_validator = validator;
}

expire_session : SessionManager → ℕ → SessionManager × List ℕ
unfolding is_session_expired change_session
expire_session m now =
    if is_session_expired m now && not (m.current_session == default_session)
    then (
      (change_session m now default_session).0,
      if m.has_timeout_callback then default_session ∷ [] else [],
    )
    else (m, [])

expire_security : SessionManager → ℕ → SessionManager
unfolding is_security_expired lock
expire_security m now =
    if is_security_expired m now && not (m.security_level == locked) then lock m else m

-- With the sessions that the timeout callback is called on.
pub tick : SessionManager → ℕ → SessionManager × List ℕ
unfolding expire_session expire_security
tick m now = let (m', calls) = expire_session m now in (expire_security m' now, calls)
