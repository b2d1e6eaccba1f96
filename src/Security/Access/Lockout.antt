-- ===== src/Security/Access/Lockout.antt =====
-- When a password lets a user in, and what failures lead to.
use Prim.Native.String.{String}
use text.Mathlib.Text.{◌==◌ as str_eq}
use text.Mathlib.TextEquality.{eq_iff}
use mcp2515_rpi.Base.{
  ℕ, suc, ◌+◌, ◌-◌, ◌++◌, ap, ◌∙◌, ◌≤◌, ◌<◌, ◌≡◌, ◌≢◌, ◌↔◌, refl, sym, subst, true, false, none,
  some, List, [], ◌∷◌, arith, leb, if◌then◌else◌, Option-cases, inl, inr, length, All,
}
use mcp2515_rpi.Security.Access.{
  UserInfo, Users, AccessControl, find, update, is_locked_out, lockout_user, fail, authenticate,
}

find-update :
    (user other : String) (info : UserInfo) (us : Users)
    → find other (update user info us) ≡ (
        if str_eq user other
        then elim (find user us) [ none ↦ none | some old ↦ some info ]
        else find other us)
unfolding find update
find-update user other info [] = ground arith
find-update user other info ((name, old) ∷ us) =
    ground (
      arith,
      eq_iff user other,
      eq_iff name user,
      eq_iff name other,
      find-update user other info us,
    )

find-update_self :
    (user : String) (info old : UserInfo) (us : Users)
    → find user us ≡ some old
    → find user (update user info us) ≡ some info
find-update_self user info old us e =
    ground (arith, find-update user user info us, eq_iff user user, e)

-- One call of `authenticate`: the two readings of the clock and the password.
pub record Attempt : Type 0 where
  pub now : ℕ
  pub after : ℕ
  pub password : String

module _ (hash : String → String) where
  -- What a failure stores about the user.
  abbrev failed_info : AccessControl → ℕ → UserInfo → UserInfo
  failed_info a now info = record info {
    failed_attempts = info.failed_attempts + 1;
    locked_until =
        if leb a.max_attempts (info.failed_attempts + 1)
        then now + a.lockout_duration
        else info.locked_until;
  }

  wrong_attempt :
      (a : AccessControl) (now after : ℕ) (user password : String) (info : UserInfo)
      → find user a.users ≡ some info
      → info.password_hash ≢ hash password
      → info.locked_until ≤ now
      → let a' = (authenticate hash a now after user password).0 in
        (find user a'.users ≡ some (failed_info a after info))
        × (a'.max_attempts ≡ a.max_attempts)
        × (a'.lockout_duration ≡ a.lockout_duration)
  unfolding authenticate is_locked_out fail lockout_user
  wrong_attempt a now after user password info e wrong unlocked =
      let failed : UserInfo = record info { failed_attempts = info.failed_attempts + 1 } in
      let counted : find user (update user failed a.users) ≡ some failed =
        find-update_self user failed info a.users e in
      ground (
        arith,
        e,
        eq_iff info.password_hash (hash password),
        counted,
        find-update_self user (failed_info a after info) failed (update user failed a.users)
            counted,
      )

  locked_attempt :
      (a : AccessControl) (now after : ℕ) (user password : String) (info : UserInfo)
      → find user a.users ≡ some info
      → now < info.locked_until
      → authenticate hash a now after user password ≡ (a, false)
  unfolding authenticate is_locked_out
  locked_attempt a now after user password info e locked = ground (arith, e)

  -- Attempts one after the other, each at its own time.
  pub attempts : AccessControl → String → List Attempt → AccessControl
  attempts a user [] = a
  attempts a user (t ∷ rest) =
      attempts (authenticate hash a t.now t.after user t.password).0 user rest

  -- A user is let in exactly when it exists, is not locked out at that time, and the hash of the
  -- password is the stored one.
  pub authenticate_iff :
      (a : AccessControl) (now after : ℕ) (user password : String)
      → ((authenticate hash a now after user password).1 ≡ true) ↔ (
          (info : UserInfo) × (find user a.users ≡ some info)
          × (info.locked_until ≤ now)
          × (info.password_hash ≡ hash password))
  unfolding authenticate is_locked_out
  authenticate_iff a now after user password = elim (Option-cases (find user a.users)) [
    | inl e ↦ (
      λ h. absurd (ground (arith, e)),
      λ (info, found, unlocked, same). absurd (ground (arith, e, found)),
    )
    | inr (info, e) ↦ (
      λ h. (
        info,
        e,
        ground (arith, e),
        ground (arith, e, eq_iff info.password_hash (hash password)),
      ),
      λ (info', found, unlocked, same).
          ground (arith, e, found, eq_iff info.password_hash (hash password)),
    )
  ]

  locked_attempts :
      (a : AccessControl) (user : String) (tries : List Attempt) (info : UserInfo)
      → find user a.users ≡ some info
      → All (λ t. t.now < info.locked_until) tries
      → attempts a user tries ≡ a
  unfolding attempts
  locked_attempts a user [] info e locked = refl
  locked_attempts a user (t ∷ rest) info e locked =
      rw (locked_attempt a t.now t.after user t.password info e locked.0)
        (locked_attempts a user rest info e locked.1)

  -- Attempts with a wrong password, while the user is not locked out.
  abbrev pub AllWrong : UserInfo → List Attempt → Type 0
  AllWrong info = All (λ t. (info.password_hash ≢ hash t.password) × (info.locked_until ≤ t.now))

  -- Before the limit is reached, the failures only count.
  counted_attempts :
      (a : AccessControl) (user : String) (tries : List Attempt) (info : UserInfo)
      → find user a.users ≡ some info
      → AllWrong info tries
      → length tries ≤ a.max_attempts - (info.failed_attempts + 1)
      → let a' = attempts a user tries in
        (find user a'.users
          ≡ some (record info { failed_attempts = info.failed_attempts + length tries }))
        × (a'.max_attempts ≡ a.max_attempts)
        × (a'.lockout_duration ≡ a.lockout_duration)
  unfolding attempts
  counted_attempts a user [] info e wrong few = (
    e
        ∙ ap (λ n. some (record info { failed_attempts = n })) {x = info.failed_attempts}
            {y = info.failed_attempts + 0} (omega arith),
    refl,
    refl,
  )
  counted_attempts a user (t ∷ rest) info e wrong few =
      let a' = (authenticate hash a t.now t.after user t.password).0 in
      let next : UserInfo = record info { failed_attempts = info.failed_attempts + 1 } in
      let (found, limit, duration) =
        wrong_attempt a t.now t.after user t.password info e wrong.0.0 wrong.0.1 in
      let room : leb a.max_attempts (info.failed_attempts + 1) ≡ false = ground (arith, few) in
      let (found', limit', duration') =
        counted_attempts a' user rest next (found ∙ rw (room, if◌then◌else◌) refl) wrong.1
          (omega (arith, few, limit)) in
      (
        found'
            ∙ ap (λ n. some (record info { failed_attempts = n }))
                {x = info.failed_attempts + 1 + length rest}
                {y = info.failed_attempts + suc (length rest)} (omega arith),
        limit' ∙ limit,
        duration' ∙ duration,
      )

  attempts-append :
      (a : AccessControl) (user : String) (first second : List Attempt)
      → attempts a user (first ++ second) ≡ attempts (attempts a user first) user second
  unfolding attempts
  attempts-append a user [] second = refl
  attempts-append a user (t ∷ first) second =
      attempts-append (authenticate hash a t.now t.after user t.password).0 user first second

  -- What is stored once the limit is reached.
  limit_reached :
      (a : AccessControl) (user : String) (tries : List Attempt) (last : Attempt) (info : UserInfo)
      → find user a.users ≡ some info
      → AllWrong info (last ∷ tries)
      → length tries ≡ a.max_attempts - (info.failed_attempts + 1)
      → (info' : UserInfo) × (find user (attempts a user (tries ++ last ∷ [])).users ≡ some info')
        × (info'.locked_until ≡ last.after + a.lockout_duration)
  unfolding attempts
  limit_reached a user tries last info e wrong left =
      let before = attempts a user tries in
      let counted : UserInfo = record info {
        failed_attempts = info.failed_attempts + length tries;
      } in
      let (found, limit, duration) =
        counted_attempts a user tries info e wrong.1 (omega (arith, left)) in
      let (found', limit', duration') =
        wrong_attempt before last.now last.after user last.password counted found wrong.0.0
          wrong.0.1 in
      (
        failed_info before last.after counted,
        ap (λ b. find user b.users) (attempts-append a user tries (last ∷ [])) ∙ found',
        ground (arith, limit, duration, left),
      )

  -- The wrong passwords that are left to the limit, at any times at which the user is not locked out, lock it out: the
  -- last one stores a lockout that starts when lockoutUser reads the clock, and while it lasts, whatever
  -- was tried in the meantime, an attempt does not let the user in, with the right password either.
  pub lockout :
      (a : AccessControl) (user : String) (tries during : List Attempt) (last try : Attempt)
      (info : UserInfo)
      → find user a.users ≡ some info
      → AllWrong info (last ∷ tries)
      → length tries ≡ a.max_attempts - (info.failed_attempts + 1)
      → All (λ t. t.now < last.after + a.lockout_duration) during
      → try.now < last.after + a.lockout_duration
      → (authenticate hash
          (attempts (attempts a user (tries ++ last ∷ [])) user during)
          try.now
          try.after
          user
          try.password).1
        ≡ false
  lockout a user tries during last try info e wrong left inside soon =
      let b = attempts a user (tries ++ last ∷ []) in
      let (info', found, until) = limit_reached a user tries last info e wrong left in
      rw
        (
          locked_attempts b user during info' found
              (subst (λ n. All (λ t. t.now < n) during) (sym until) inside),
          locked_attempt b try.now try.after user try.password info' found
              (omega (arith, until, soon)),
        )
        refl
