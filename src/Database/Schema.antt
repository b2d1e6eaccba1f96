-- ===== src/Database/Schema.antt =====
-- The schema of the tables: runMigrations of src/database/db_manager.cpp and src/database/migrations.cpp. The lines of a
-- text are joined by line feeds.
use Prim.Native.String.{String}
use mcp2515_rpi.Base.{ℕ, Bool, false, List, [], ◌∷◌, ◌++◌, if◌then◌else◌}
use mcp2515_rpi.Base.Texts.{text}
use mcp2515_rpi.Database.{DbManager, Sqlite, execute}

abbrev pub join_lines : List String → List ℕ
join_lines [] = []
join_lines (l ∷ []) = text l
join_lines (l ∷ k ∷ ls) = text l ++ (10 ∷ join_lines (k ∷ ls))

unfoldable pub schema : List String
schema =
    "" ∷ "        CREATE TABLE IF NOT EXISTS vehicles (" ∷ "            vin TEXT PRIMARY KEY,"
    ∷ "            make TEXT NOT NULL," ∷ "            model TEXT NOT NULL,"
    ∷ "            year INTEGER," ∷ "            created_at TIMESTAMP DEFAULT CURRENT_TIMESTAMP"
    ∷ "        );" ∷ "" ∷ "        CREATE TABLE IF NOT EXISTS dtcs ("
    ∷ "            id INTEGER PRIMARY KEY AUTOINCREMENT," ∷ "            vin TEXT NOT NULL,"
    ∷ "            code INTEGER NOT NULL," ∷ "            description TEXT,"
    ∷ "            severity TEXT DEFAULT 'minor'," ∷ "            is_pending INTEGER DEFAULT 0,"
    ∷ "            is_permanent INTEGER DEFAULT 0,"
    ∷ "            created_at TIMESTAMP DEFAULT CURRENT_TIMESTAMP,"
    ∷ "            FOREIGN KEY (vin) REFERENCES vehicles(vin)" ∷ "        );" ∷ ""
    ∷ "        CREATE TABLE IF NOT EXISTS parameters ("
    ∷ "            id INTEGER PRIMARY KEY AUTOINCREMENT," ∷ "            name TEXT UNIQUE NOT NULL,"
    ∷ "            value REAL NOT NULL DEFAULT 0," ∷ "            unit TEXT,"
    ∷ "            updated_at TIMESTAMP DEFAULT CURRENT_TIMESTAMP" ∷ "        );" ∷ ""
    ∷ "        CREATE TABLE IF NOT EXISTS freeze_frames ("
    ∷ "            id INTEGER PRIMARY KEY AUTOINCREMENT," ∷ "            vin TEXT NOT NULL,"
    ∷ "            dtc_code INTEGER NOT NULL," ∷ "            data BLOB,"
    ∷ "            created_at TIMESTAMP DEFAULT CURRENT_TIMESTAMP,"
    ∷ "            FOREIGN KEY (vin) REFERENCES vehicles(vin)" ∷ "        );" ∷ ""
    ∷ "        CREATE TABLE IF NOT EXISTS simulation_profiles ("
    ∷ "            id INTEGER PRIMARY KEY AUTOINCREMENT," ∷ "            name TEXT UNIQUE NOT NULL,"
    ∷ "            type TEXT NOT NULL," ∷ "            config BLOB,"
    ∷ "            created_at TIMESTAMP DEFAULT CURRENT_TIMESTAMP" ∷ "        );" ∷ ""
    ∷ "        CREATE TABLE IF NOT EXISTS can_logs ("
    ∷ "            id INTEGER PRIMARY KEY AUTOINCREMENT," ∷ "            timestamp TEXT NOT NULL,"
    ∷ "            can_id INTEGER NOT NULL," ∷ "            data BLOB NOT NULL,"
    ∷ "            direction TEXT NOT NULL," ∷ "            manufacturer TEXT" ∷ "        );" ∷ ""
    ∷ "        CREATE TABLE IF NOT EXISTS session_log ("
    ∷ "            id INTEGER PRIMARY KEY AUTOINCREMENT," ∷ "            manufacturer TEXT,"
    ∷ "            service TEXT," ∷ "            sub_func TEXT," ∷ "            response TEXT,"
    ∷ "            timestamp TIMESTAMP DEFAULT CURRENT_TIMESTAMP" ∷ "        );" ∷ ""
    ∷ "        CREATE TABLE IF NOT EXISTS metrics ("
    ∷ "            id INTEGER PRIMARY KEY AUTOINCREMENT," ∷ "            name TEXT NOT NULL,"
    ∷ "            value REAL NOT NULL," ∷ "            labels TEXT,"
    ∷ "            timestamp TIMESTAMP DEFAULT CURRENT_TIMESTAMP" ∷ "        );" ∷ "    " ∷ []

module _ {D : Type 0} where
  unfoldable pub run_migrations : Sqlite D → DbManager D → DbManager D × Bool
  unfolding execute schema
  run_migrations lib m = if m.is_open then execute lib m (join_lines schema) else (m, false)

pub record Migration : Type 0 where
  pub version : ℕ
  pub description : String
  pub sql : List String

unfoldable pub initial_schema : List String
initial_schema =
    "" ∷ "        CREATE TABLE IF NOT EXISTS vehicles (" ∷ "            vin TEXT PRIMARY KEY,"
    ∷ "            make TEXT NOT NULL," ∷ "            model TEXT NOT NULL,"
    ∷ "            year INTEGER," ∷ "            created_at TIMESTAMP DEFAULT CURRENT_TIMESTAMP"
    ∷ "        );" ∷ "        CREATE TABLE IF NOT EXISTS dtcs ("
    ∷ "            id INTEGER PRIMARY KEY AUTOINCREMENT," ∷ "            vin TEXT NOT NULL,"
    ∷ "            code INTEGER NOT NULL," ∷ "            description TEXT,"
    ∷ "            severity TEXT DEFAULT 'minor'," ∷ "            is_pending INTEGER DEFAULT 0,"
    ∷ "            is_permanent INTEGER DEFAULT 0,"
    ∷ "            created_at TIMESTAMP DEFAULT CURRENT_TIMESTAMP,"
    ∷ "            FOREIGN KEY (vin) REFERENCES vehicles(vin)" ∷ "        );"
    ∷ "        CREATE TABLE IF NOT EXISTS parameters ("
    ∷ "            id INTEGER PRIMARY KEY AUTOINCREMENT," ∷ "            name TEXT UNIQUE NOT NULL,"
    ∷ "            value REAL NOT NULL DEFAULT 0," ∷ "            unit TEXT,"
    ∷ "            updated_at TIMESTAMP DEFAULT CURRENT_TIMESTAMP" ∷ "        );"
    ∷ "        CREATE TABLE IF NOT EXISTS freeze_frames ("
    ∷ "            id INTEGER PRIMARY KEY AUTOINCREMENT," ∷ "            vin TEXT NOT NULL,"
    ∷ "            dtc_code INTEGER NOT NULL," ∷ "            data BLOB,"
    ∷ "            created_at TIMESTAMP DEFAULT CURRENT_TIMESTAMP,"
    ∷ "            FOREIGN KEY (vin) REFERENCES vehicles(vin)" ∷ "        );"
    ∷ "        CREATE TABLE IF NOT EXISTS simulation_profiles ("
    ∷ "            id INTEGER PRIMARY KEY AUTOINCREMENT," ∷ "            name TEXT UNIQUE NOT NULL,"
    ∷ "            type TEXT NOT NULL," ∷ "            config BLOB,"
    ∷ "            created_at TIMESTAMP DEFAULT CURRENT_TIMESTAMP" ∷ "        );"
    ∷ "        CREATE TABLE IF NOT EXISTS can_logs ("
    ∷ "            id INTEGER PRIMARY KEY AUTOINCREMENT," ∷ "            timestamp TEXT NOT NULL,"
    ∷ "            can_id INTEGER NOT NULL," ∷ "            data BLOB NOT NULL,"
    ∷ "            direction TEXT NOT NULL," ∷ "            manufacturer TEXT" ∷ "        );"
    ∷ "        CREATE TABLE IF NOT EXISTS session_log ("
    ∷ "            id INTEGER PRIMARY KEY AUTOINCREMENT," ∷ "            manufacturer TEXT,"
    ∷ "            service TEXT," ∷ "            sub_func TEXT," ∷ "            response TEXT,"
    ∷ "            timestamp TIMESTAMP DEFAULT CURRENT_TIMESTAMP" ∷ "        );"
    ∷ "        CREATE TABLE IF NOT EXISTS metrics ("
    ∷ "            id INTEGER PRIMARY KEY AUTOINCREMENT," ∷ "            name TEXT NOT NULL,"
    ∷ "            value REAL NOT NULL," ∷ "            labels TEXT,"
    ∷ "            timestamp TIMESTAMP DEFAULT CURRENT_TIMESTAMP" ∷ "        );" ∷ "    " ∷ []

unfoldable pub get_all : List Migration
get_all = record { version = 1; description = "Initial schema"; sql = initial_schema } ∷ []

unfoldable pub current_version : ℕ
current_version = 1
