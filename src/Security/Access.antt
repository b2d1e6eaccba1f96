-- ===== src/Security/Access.antt =====
-- src/security/access_control.hpp and access_control.cpp: users, failed attempts and lockouts.
-- The system clock is an argument `now`, in seconds; `std::hash` printed as hexadecimal is a parameter.
pub mod Lockout
use Prim.Native.String.{String}
use text.Mathlib.Text.{◌==◌ as str_eq}
use mcp2515_rpi.Base.{
  ℕ, ◌+◌, Bool, true, false, Option, none, some, List, [], ◌∷◌, max, leb, ltb, if◌then◌else◌,
}

-- NONE, READ_ONLY, DIAGNOSTIC, PROGRAMMING, ENGINEERING, FULL, which the source compares as numbers.
pub data AccessLevel : Type 0 where
  no_access read_only diagnostic programming engineering full : AccessLevel

abbrev pub rank : AccessLevel → ℕ
rank AccessLevel.no_access = 0
rank AccessLevel.read_only = 1
rank AccessLevel.diagnostic = 2
rank AccessLevel.programming = 3
rank AccessLevel.engineering = 4
rank AccessLevel.full = 5

pub record UserInfo : Type 0 where
  pub password_hash : String
  pub level : AccessLevel
  pub failed_attempts : ℕ
  pub locked_until : ℕ

abbrev pub Users : Type 0
Users = List (String × UserInfo)

pub record AccessControl : Type 0 where
  pub users : Users
  pub max_attempts : ℕ
  pub lockout_duration : ℕ

unfoldable pub find : String → Users → Option UserInfo
find user [] = none
find user ((name, info) ∷ rest) = if str_eq name user then some info else find user rest

-- A change through an iterator that `find` returned.
pub update : String → UserInfo → Users → Users
update user info [] = []
update user info ((name, old) ∷ rest) =
    if str_eq name user then (name, info) ∷ rest else (name, old) ∷ update user info rest

erase : String → Users → Users
erase user [] = []
erase user ((name, info) ∷ rest) = if str_eq name user then rest else (name, info) ∷ erase user rest

pub is_locked_out : AccessControl → ℕ → String → Bool
unfolding find
is_locked_out a now user = elim (find user a.users) [
  | none ↦ false
  | some info ↦ ltb now info.locked_until
]

pub lockout_user : AccessControl → ℕ → String → AccessControl
unfolding update
lockout_user a now user = elim (find user a.users) [
  | none ↦ a
  | some info ↦ record a {
    users = update user (record info { locked_until = now + a.lockout_duration }) a.users;
  }
]

pub unlock_user : AccessControl → ℕ → String → AccessControl
unfolding update
unlock_user a now user = elim (find user a.users) [
  | none ↦ a
  | some info ↦ record a {
    users = update user (record info { failed_attempts = 0; locked_until = now }) a.users;
  }
]

module _ (hash : String → String) where
  pub add_user : AccessControl → ℕ → String → String → AccessLevel → AccessControl × Bool
  unfolding find
  add_user a now user password level = elim (find user a.users) [
    | some info ↦ (a, false)
    | none ↦ (
      record a {
        users =
            (
              user,
              record {
                password_hash = hash password;
                level = level;
                failed_attempts = 0;
                locked_until = now;
              },
            )
            ∷ a.users;
      },
      true,
    )
  ]

  pub init : ℕ → AccessControl
  unfolding add_user
  init now =
      let empty : AccessControl = record { users = []; max_attempts = 5; lockout_duration = 60 } in
      let a = (add_user empty now "admin" "admin123" AccessLevel.full).0 in
      (add_user a now "diag" "diag123" AccessLevel.diagnostic).0

  -- A wrong password: the count goes up, and the user is locked out when it reaches the limit.
  pub fail : AccessControl → ℕ → String → UserInfo → AccessControl
  fail a now user info =
      let failed : ℕ = info.failed_attempts + 1 in
      let a' = record a {
        users = update user (record info { failed_attempts = failed }) a.users;
      } in
      if leb a.max_attempts failed then lockout_user a' now user else a'

  -- `now` is the clock when isLockedOut reads it, `after` when lockoutUser does.
  pub authenticate : AccessControl → ℕ → ℕ → String → String → AccessControl × Bool
  unfolding fail
  authenticate a now after user password = elim (find user a.users) [
    | none ↦ (a, false)
    | some info ↦
        if is_locked_out a now user
        then (a, false)
        else if str_eq info.password_hash (hash password)
        then (record a { users = update user (record info { failed_attempts = 0 }) a.users }, true)
        else (fail a after user info, false)
  ]

pub remove_user : AccessControl → String → AccessControl × Bool
unfolding erase
remove_user a user = elim (find user a.users) [
  | none ↦ (a, false)
  | some info ↦ (record a { users = erase user a.users }, true)
]

unfoldable pub set_max_attempts : AccessControl → ℕ → AccessControl
set_max_attempts a attempts = record a { max_attempts = max 1 attempts }

-- The check with no user.
unfoldable pub authorize_any : AccessLevel → Bool
authorize_any required_level = leb (rank required_level) (rank AccessLevel.diagnostic)

unfoldable pub authorize : AccessControl → String → AccessLevel → Bool
authorize a user required_level = elim (find user a.users) [
  | none ↦ false
  | some info ↦ leb (rank required_level) (rank info.level)
]

unfoldable pub get_access_level : AccessControl → String → AccessLevel
get_access_level a user = elim (find user a.users) [
  | none ↦ AccessLevel.no_access
  | some info ↦ info.level
]

unfoldable pub level_to_string : AccessLevel → String
level_to_string AccessLevel.no_access = "none"
level_to_string AccessLevel.read_only = "read_only"
level_to_string AccessLevel.diagnostic = "diagnostic"
level_to_string AccessLevel.programming = "programming"
level_to_string AccessLevel.engineering = "engineering"
level_to_string AccessLevel.full = "full"
