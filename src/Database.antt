-- ===== src/Database.antt =====
-- src/database/db_manager.hpp and db_manager.cpp, DBManager. The SQLite library is an argument: what it answers to an
-- open, and what it makes of a statement, for a content of any type. Texts are lists of characters.
pub mod Codes
pub mod Laws
pub mod Handles
mod Runs
pub mod Schema
pub mod Seeds
use mcp2515_rpi.Base.{
  ℕ, ◌+◌, Bool, true, false, Option, none, some, List, [], ◌∷◌, ◌++◌, if◌then◌else◌, u16,
}
use mcp2515_rpi.Base.Texts.{text}
use mcp2515_rpi.Diagnostics.Dtc.Codes.{stoi}
use mcp2515_rpi.Api.Rest.Response.{decimal}

-- A row as the callback gets it: a value is a text, or null.
abbrev pub Row : Type 0
Row = List (Option (List ℕ))

-- What `sqlite3_exec` makes of a statement: the content after it, the rows that it hands to the callback, and whether
-- it answers SQLITE_OK.
pub record Executed (D : Type 0) : Type 0 where
  pub content : D
  pub rows : List Row
  pub ok : Bool

-- `sqlite3_exec` on a handle. The callbacks of the source never stop it.
pub record Sqlite (D : Type 0) : Type 0 where
  pub exec : ℕ → D → List ℕ → Executed D

-- `opened` and `closed` are the handles that the library has given and got back.
pub record DbManager (D : Type 0) : Type 0 where
  pub db : Option ℕ
  pub is_open : Bool
  pub content : D
  pub opened : List ℕ
  pub closed : List ℕ

abbrev pub held : Option ℕ → List ℕ
held none = []
held (some handle) = handle ∷ []

-- A statement about a text in quotes, as the source puts it together.
unfoldable pub quoted : List ℕ → List ℕ → List ℕ → List ℕ
quoted front value back = front ++ (39 ∷ (value ++ (39 ∷ back)))

unfoldable pub table_sql : List ℕ → List ℕ
unfolding quoted
table_sql name = quoted (text "SELECT name FROM sqlite_master WHERE type='table' AND name=") name []

-- Years are not negative.
unfoldable pub vehicle_sql : List ℕ → List ℕ → List ℕ → ℕ → List ℕ
unfolding quoted
vehicle_sql vin make model year =
    quoted (text "INSERT OR REPLACE INTO vehicles (vin, make, model, year) VALUES (") vin (
      quoted (text ", ") make
        (quoted (text ", ") model (text ", " ++ (decimal 20 year ++ (41 ∷ [])))))

unfoldable pub update_sql : List ℕ → List ℕ → List ℕ
unfolding quoted
update_sql name value =
    quoted (text "INSERT OR REPLACE INTO parameters (name, value, unit, updated_at) VALUES (") name
      (text ", " ++ (value ++ text ", '', CURRENT_TIMESTAMP)"))

unfoldable pub parameter_sql : List ℕ → List ℕ
unfolding quoted
parameter_sql name = quoted (text "SELECT value FROM parameters WHERE name=") name []

unfoldable pub delete_sql : List ℕ → List ℕ
unfolding quoted
delete_sql vin = quoted (text "DELETE FROM dtcs WHERE vin=") vin []

unfoldable pub insert_sql : List ℕ → ℕ → List ℕ
unfolding quoted
insert_sql vin code =
    quoted (text "INSERT INTO dtcs (vin, code) VALUES (") vin
      (text ", " ++ (decimal 20 code ++ (41 ∷ [])))

unfoldable pub codes_sql : List ℕ → List ℕ
unfolding quoted
codes_sql vin = quoted (text "SELECT code FROM dtcs WHERE vin=") vin []

-- The callback of `loadDTCs`, for each row. `none` is the exception of `std::stoi`.
abbrev pub push_code : Option ℕ → Option (List ℕ) → Option (List ℕ)
push_code none codes = none
push_code (some n) none = none
push_code (some n) (some codes) = some (u16 n ∷ codes)

unfoldable pub read_codes : List Row → Option (List ℕ)
unfolding stoi
read_codes [] = some []
read_codes ([] ∷ rows) = read_codes rows
read_codes ((none ∷ values) ∷ rows) = read_codes rows
read_codes ((some value ∷ values) ∷ rows) = push_code (stoi value) (read_codes rows)

unfoldable pub any_name : List Row → Bool
any_name [] = false
any_name ([] ∷ rows) = any_name rows
any_name ((none ∷ values) ∷ rows) = any_name rows
any_name ((some value ∷ values) ∷ rows) = true

module _ {F : Type 0} where
  abbrev pub next_value : Option F → (F → Option F) → Option F
  next_value none next = none
  next_value (some v) next = next v

  -- The callback of `getParameter`: the last row counts.
  unfoldable pub read_value : (List ℕ → Option F) → F → List Row → Option F
  read_value stod result [] = some result
  read_value stod result ([] ∷ rows) = read_value stod result rows
  read_value stod result ((none ∷ values) ∷ rows) = read_value stod result rows
  read_value stod result ((some value ∷ values) ∷ rows) =
      next_value (stod value) (λ v. read_value stod v rows)

module _ {D : Type 0} where
  unfoldable pub init : D → DbManager D
  init content = record { db = none; is_open = false; content = content; opened = []; closed = [] }

  -- `sqlite3_open` gives a handle when it fails too, unless there is no memory.
  unfoldable pub open_db : DbManager D → Option ℕ → Bool → DbManager D × Bool
  open_db m handle ok =
      if m.is_open
      then (m, true)
      else (record m { db = handle; is_open = ok; opened = m.opened ++ held handle }, ok)

  unfoldable pub close_db : DbManager D → DbManager D × Bool
  close_db m = (record m { db = none; is_open = false; closed = m.closed ++ held m.db }, true)

  abbrev pub exec_on : Sqlite D → DbManager D → Option ℕ → List ℕ → DbManager D × List Row × Bool
  exec_on lib m none sql = (m, [], false)
  exec_on lib m (some handle) sql =
      let done = lib.exec handle m.content sql in
      (record m { content = done.content }, done.rows, done.ok)

  unfoldable pub execute_with_callback :
      Sqlite D → DbManager D → List ℕ → DbManager D × List Row × Bool
  execute_with_callback lib m sql = exec_on lib m m.db sql

  unfoldable pub execute : Sqlite D → DbManager D → List ℕ → DbManager D × Bool
  execute lib m sql = let done = exec_on lib m m.db sql in (done.0, done.2)

  unfoldable pub table_exists : Sqlite D → DbManager D → List ℕ → DbManager D × Bool
  unfolding execute_with_callback any_name
  table_exists lib m name =
      let done = execute_with_callback lib m (table_sql name) in (done.0, any_name done.1)

  unfoldable pub insert_vehicle :
      Sqlite D → DbManager D → List ℕ → List ℕ → List ℕ → ℕ → DbManager D × Bool
  unfolding execute
  insert_vehicle lib m vin make model year = execute lib m (vehicle_sql vin make model year)

  -- The loop of `saveDTCs`.
  unfoldable pub save_codes : Sqlite D → DbManager D → List ℕ → List ℕ → DbManager D × Bool
  save_codes lib m vin [] = (m, true)
  save_codes lib m vin (code ∷ codes) =
      let done = execute lib m (insert_sql vin code) in
      let rest = save_codes lib done.0 vin codes in if done.1 then rest else (done.0, false)

  unfoldable pub save_dtcs : Sqlite D → DbManager D → List ℕ → List ℕ → DbManager D × Bool
  save_dtcs lib m vin codes = save_codes lib (execute lib m (delete_sql vin)).0 vin codes

  unfoldable pub load_dtcs : Sqlite D → DbManager D → List ℕ → DbManager D × Option (List ℕ)
  load_dtcs lib m vin =
      let done = execute_with_callback lib m (codes_sql vin) in (done.0, read_codes done.1)

module _ {D F : Type 0} where
  -- `print` is `std::to_string`.
  unfoldable pub update_parameter :
      (F → List ℕ) → Sqlite D → DbManager D → List ℕ → F → DbManager D × Bool
  unfolding execute
  update_parameter print lib m name value = execute lib m (update_sql name (print value))

  -- `stod` is `std::stod`, `none` its exception.
  unfoldable pub get_parameter :
      (List ℕ → Option F) → Sqlite D → DbManager D → List ℕ → F → DbManager D × Option F
  unfolding execute_with_callback read_value
  get_parameter stod lib m name default_val =
      let done = execute_with_callback lib m (parameter_sql name) in
      (done.0, read_value stod default_val done.1)
