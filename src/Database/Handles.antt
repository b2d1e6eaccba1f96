-- ===== src/Database/Handles.antt =====
-- src/database/db_manager.cpp: the handles that open and close get from SQLite and give back.
use mcp2515_rpi.Base.{
  ℕ, suc, ◌≡◌, refl, ap, sym, ◌∙◌, Bool, true, false, Option, none, some, List, [], ◌∷◌, ◌++◌,
  append-nil, length, length-append, if◌then◌else◌, arith, inl, inr, Bool-cases,
}
use mcp2515_rpi.Database.{DbManager, held, init, open_db, close_db}

-- The calls of a program that closes after an open that fails.
pub data Call : Type 0 where
  connects : ℕ → Call
  fails : Option ℕ → Call
  closes : Call

abbrev is_some : Option ℕ → Bool
is_some none = false
is_some (some handle) = true

nothing_held : (db : Option ℕ) → is_some db ≡ false → held db ≡ []
nothing_held none e = refl
nothing_held (some handle) e = absurd (ground (arith, e))

module _ {D : Type 0} where
  -- The handles opened are those closed and the one in use, which there is while the database is open.
  record Balanced (m : DbManager D) : Type 0 where
    balance : m.opened ≡ m.closed ++ held m.db
    in_use : m.is_open ≡ is_some m.db

  unfoldable pub call : DbManager D → Call → DbManager D
  call m (connects handle) = (open_db m (some handle) true).0
  call m (fails handle) = if m.is_open then m else (close_db (open_db m handle false).0).0
  call m closes = (close_db m).0

  unfoldable pub calls : DbManager D → List Call → DbManager D
  calls m [] = m
  calls m (c ∷ cs) = calls (call m c) cs

  close-Balanced : (m : DbManager D) → m.opened ≡ m.closed ++ held m.db → Balanced (close_db m).0
  unfolding close_db
  close-Balanced m h = record {
    balance = h ∙ sym (append-nil (m.closed ++ held m.db));
    in_use = refl;
  }

  opened_more :
      (m : DbManager D) (handle : Option ℕ)
      → Balanced m
      → m.is_open ≡ false
      → m.opened ++ held handle ≡ m.closed ++ held handle
  opened_more m handle h shut =
      ap (λ xs. xs ++ held handle)
        (h.balance
          ∙ ap (λ xs. m.closed ++ xs) (nothing_held m.db (sym h.in_use ∙ shut))
          ∙ append-nil m.closed)

  kept : (b : Bool) (m r : DbManager D) → b ≡ true → Balanced m → Balanced (if b then m else r)
  kept true m r e h = h
  kept false m r e h = absurd (ground (arith, e))

  kept_open :
      (b : Bool) (m : DbManager D) (r : DbManager D × Bool)
      → b ≡ true
      → Balanced m
      → Balanced (if◌then◌else◌ {A = DbManager D × Bool} b (m, true) r).0
  kept_open true m r e h = h
  kept_open false m r e h = absurd (ground (arith, e))

  call-Balanced : (m : DbManager D) (c : Call) → Balanced m → Balanced (call m c)
  unfolding call open_db
  call-Balanced m (connects handle) h = elim (Bool-cases m.is_open) [
    | inl on ↦ kept_open m.is_open m _ on h
    | inr off ↦
        rw (off, if◌then◌else◌)
          record { balance = opened_more m (some handle) h off; in_use = refl }
  ]
  call-Balanced m (fails handle) h = elim (Bool-cases m.is_open) [
    | inl on ↦ kept m.is_open m _ on h
    | inr off ↦
        rw (off, if◌then◌else◌)
          (close-Balanced
            (record m { db = handle; is_open = false; opened = m.opened ++ held handle })
            (opened_more m handle h off))
  ]
  call-Balanced m closes h = close-Balanced m h.balance

  calls-Balanced : (m : DbManager D) (cs : List Call) → Balanced m → Balanced (calls m cs)
  unfolding calls
  calls-Balanced m [] h = h
  calls-Balanced m (c ∷ cs) h = calls-Balanced (call m c) cs (call-Balanced m c h)

  -- A program that closes after every open that fails has given back all its handles once it closes, whatever calls it
  -- made before. From there an open that fails, another open and a close leave one handle that is never closed.
  pub handles_lem :
      (content : D) (cs : List Call) (first second : ℕ) (ok : Bool)
      → let m = (close_db (calls (init content) cs)).0 in
        let again = (open_db (open_db m (some first) false).0 (some second) ok).0 in
        (m.opened ≡ m.closed)
        × (length (close_db again).0.opened ≡ suc (length (close_db again).0.closed))
  unfolding init close_db open_db
  handles_lem content cs first second ok =
      let m = calls (init content) cs in
      let b =
        (calls-Balanced (init content) cs (record { balance = refl; in_use = refl })).balance in
      (
        b,
        omega (
          arith,
          ap length b,
          length-append (m.opened ++ first ∷ []) (second ∷ []),
          length-append m.opened (first ∷ []),
          length-append (m.closed ++ held m.db) (second ∷ []),
        ),
      )
