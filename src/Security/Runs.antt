-- ===== src/Security/Runs.antt =====
-- Concrete runs of the security components, and the theorems at concrete inputs.
use Prim.Native.String.{String}
use mcp2515_rpi.Base.{ℕ, ◌+◌, ◌≡◌, refl, true, false, List, [], ◌∷◌, arith}
use mcp2515_rpi.Security.Algorithms.{Algorithm, expected, check_loop, key_ok, apply}
use mcp2515_rpi.Security.SecureComm.{
  set_session_key, encrypt, decrypt, sign, verify, decrypt-encrypt, verify-sign,
}
use mcp2515_rpi.Security.SecureComm
use mcp2515_rpi.Security.Access.{
  AccessControl, UserInfo, AccessLevel, find, authenticate, authorize, authorize_any,
  get_access_level, set_max_attempts, level_to_string,
}
use mcp2515_rpi.Security.Access.Lockout.{Attempt, attempts, lockout}

abbrev seed : List ℕ
seed = 0x11 ∷ 0x22 ∷ 0x33 ∷ 0x44 ∷ []

abbrev ford_key : List ℕ
ford_key = 0x4B ∷ 0x79 ∷ 0x6B ∷ 0x21 ∷ []

ford_accepts : apply Algorithm.ford seed ford_key false ≡ 1 ∷ []
unfolding apply key_ok check_loop expected
ford_accepts = refl

nissan_accepts : apply Algorithm.nissan seed (0x94 ∷ 0x83 ∷ 0x72 ∷ 0x60 ∷ []) false ≡ 1 ∷ []
unfolding apply key_ok
nissan_accepts = refl

-- A hash that keeps the password, and a user of it.
abbrev plain : String → String
plain password = password

abbrev tester : UserInfo
tester = record {
  password_hash = "right";
  level = AccessLevel.diagnostic;
  failed_attempts = 0;
  locked_until = 0;
}

abbrev two_tries : AccessControl
two_tries = record { users = ("tester", tester) ∷ []; max_attempts = 2; lockout_duration = 60 }

abbrev try_at : ℕ → String → Attempt
try_at now password = record { now = now; after = now + 1; password = password }

lockout_example :
    (authenticate plain
      (attempts plain
        (attempts plain two_tries "tester" (try_at 10 "a" ∷ try_at 20 "b" ∷ []))
        "tester"
        (try_at 30 "right" ∷ []))
      80
      81
      "tester"
      "right").1
    ≡ false
unfolding find
lockout_example =
    lockout plain two_tries "tester" (try_at 10 "a" ∷ []) (try_at 30 "right" ∷ []) (try_at 20 "b")
      (try_at 80 "right") tester refl (((λ e. cc), omega arith), (((λ e. cc), omega arith), tt))
      (omega arith) (omega arith, tt) (omega arith)

new_key : (set_session_key SecureComm.init (9 ∷ [])).session_key ≡ 9 ∷ []
unfolding set_session_key
new_key = refl

tester_rights :
    (authorize two_tries "tester" AccessLevel.read_only ≡ true)
    × (authorize two_tries "tester" AccessLevel.programming ≡ false)
    × (authorize two_tries "nobody" AccessLevel.no_access ≡ false)
    × (get_access_level two_tries "tester" ≡ AccessLevel.diagnostic)
    × (authorize_any AccessLevel.diagnostic ≡ true)
unfolding authorize get_access_level authorize_any find
tester_rights = (refl, refl, refl, refl, refl)

at_least_one : (set_max_attempts two_tries 0).max_attempts ≡ 1
unfolding set_max_attempts
at_least_one = refl

level_name : level_to_string AccessLevel.full ≡ "full"
unfolding level_to_string
level_name = refl
