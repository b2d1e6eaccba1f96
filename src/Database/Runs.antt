-- ===== src/Database/Runs.antt =====
-- Concrete runs of the database, and its theorem at a concrete input.
use mcp2515_rpi.Base.{
  ℕ, suc, ◌≡◌, refl, Bool, true, false, some, List, [], ◌∷◌, map, length, take, leb, if◌then◌else◌,
  arith,
}
use mcp2515_rpi.Base.Texts.{same_text}
use mcp2515_rpi.Api.Rest.Response.{decimal}
use mcp2515_rpi.Database.{
  Sqlite, Executed, DbManager, init, open_db, close_db, delete_sql, insert_sql, codes_sql, quoted,
  save_dtcs, load_dtcs,
}
use mcp2515_rpi.Database.Handles.{connects, fails, closes, calls, handles_lem}
use mcp2515_rpi.Database.Laws.{row_of, count, Inserts, Documented, load-save}

abbrev executed : List ℕ → Bool → Executed (List ℕ)
executed codes ok = record { content = codes; rows = map row_of codes; ok = ok }

abbrev vin : List ℕ
vin = b'V' ∷ []

-- A library that knows the statements about two codes of one vehicle, and refuses all others.
abbrev store : Sqlite (List ℕ)
store = record {
  exec = λ h codes sql.
      if same_text sql (delete_sql vin)
      then executed [] true
      else if same_text sql (codes_sql vin)
      then executed codes true
      else if same_text sql (insert_sql vin 0x0301)
      then executed (0x0301 ∷ codes) true
      else if same_text sql (insert_sql vin 0x0420)
      then executed (0x0420 ∷ codes) true
      else executed codes false;
}

misfire-Inserts : Inserts store vin (λ codes. codes) 0x0301
unfolding delete_sql codes_sql insert_sql quoted decimal
misfire-Inserts = record {
  inserted = λ h d e. record { before = []; after = d; was = refl; is = refl };
  failed = λ h d e. absurd (ground (arith, e));
}

catalyst-Inserts : Inserts store vin (λ codes. codes) 0x0420
unfolding delete_sql codes_sql insert_sql quoted decimal
catalyst-Inserts = record {
  inserted = λ h d e. record { before = []; after = d; was = refl; is = refl };
  failed = λ h d e. absurd (ground (arith, e));
}

store-Documented : Documented store vin (λ codes. codes) (0x0301 ∷ 0x0420 ∷ [])
unfolding delete_sql codes_sql quoted
store-Documented = record {
  deleted = λ h d e. refl;
  inserts = (misfire-Inserts, (catalyst-Inserts, tt));
  selected = λ h d e. refl;
}

abbrev connected : DbManager (List ℕ)
connected = record { db = some 7; is_open = true; content = 5 ∷ []; opened = 7 ∷ []; closed = [] }

deletion_works : (store.exec 7 (5 ∷ []) (delete_sql vin)).ok ≡ true
unfolding delete_sql quoted
deletion_works = refl

query_works :
    (store.exec 7
      (save_dtcs store connected vin (0x0301 ∷ 0x0420 ∷ [])).0.content
      (codes_sql vin)).ok
    ≡ true
unfolding codes_sql delete_sql quoted
query_works = refl

load-save_example :
    (n : ℕ) × (loaded : List ℕ) × ((save_dtcs store connected vin (0x0301 ∷ 0x0420 ∷ [])).1
      ≡ leb 2 n)
    × ((load_dtcs store (save_dtcs store connected vin (0x0301 ∷ 0x0420 ∷ [])).0 vin).1
        ≡ some loaded)
    × ((k : ℕ) → count k loaded ≡ count k (take n (0x0301 ∷ 0x0420 ∷ [])))
load-save_example =
    load-save store vin (λ codes. codes) connected 7 (0x0301 ∷ 0x0420 ∷ []) store-Documented refl
      deletion_works query_works (omega arith, (omega arith, tt))

handles_lem_example :
    let m =
      (close_db (calls (init {D = List ℕ} []) (connects 1 ∷ closes ∷ fails (some 2) ∷ []))).0 in
    let again = (open_db (open_db m (some 3) false).0 (some 4) true).0 in
    (m.opened ≡ m.closed)
    × (length (close_db again).0.opened ≡ suc (length (close_db again).0.closed))
handles_lem_example = handles_lem [] (connects 1 ∷ closes ∷ fails (some 2) ∷ []) 3 4 true
