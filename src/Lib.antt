-- ===== src/Lib.antt =====
-- mcp2515_rpi: the multi-make ECU emulator for CAN bus, as executable definitions with proofs.
--
-- The program emulates the control units of eight car makes on a SocketCAN interface. A frame that
-- arrives goes from the CAN manager's receive loop to the callbacks registered with it, of which the
-- program registers one, the router; the router hands it to the make that is selected; the make answers
-- through a base class that keeps a UDS session, trouble codes, a profile and simulated values, and the
-- answer is queued for the transmit loop.
-- Beside this path stand a transport protocol, message formats, a security registry, user access control
-- and the stores of the diagnostics. The main loop drives all of it: a driving cycle goes through the
-- vehicle profile to the simulated sensors, whose values the selected control unit and the metrics get at
-- each step, and an injected fault becomes a trouble code and a line of the log. A REST server reads and
-- changes the profile, the odometer and the trouble codes; a WebSocket server sends the values.
--
-- The modules, with the code they model:
--   Base           shared names, tests, lists, texts, bounded histories, machine words, bit operations,
--                  tables
--   Can            src/core/can_manager: socket life, transmit and receive loops, filters
--   Router         src/core/protocol_router: registry, selection, routing, names
--   Manufacturer   src/manufacturers/base and the eight makes; Values has the simulated values and the
--                  state after construction; Profiles is src/simulation/vehicle_profile, its children
--                  Idle, Engine, Supply and Predefined the predefined profiles; Makes and OwnServices
--                  have handleCanFrame of each make; the children of Laws prove what holds of them;
--                  Samples is data for tests
--   Session        src/core/session_manager: sessions, seed and key, timeouts
--   Security       src/core/security (Algorithms, Manager), src/security/secure_comm (SecureComm)
--                  and src/security/access_control (Access)
--   CanTp          src/protocols/can_tp: the transport in both directions
--   Protocol       src/protocols/obd2_standard (Obd2, Pids), kwp2000, uds and gmlan
--   Diagnostics    src/diagnostics: dtc_manager (Dtc), freeze_frame (FreezeFrames), readiness,
--                  vin_decoder (Vin), calibration
--   Simulation     src/simulation: driving_cycle, fault_injector (Faults), environment,
--                  sensor_simulator (Sensors)
--   Logging        src/logging: replay_analyzer (Replay, with its Text and Analysis), can_logger
--                  (Logger), metrics_exporter (Metrics)
--   Api            src/api: rest_api (Rest), websocket and grpc_server (Servers)
--   Database       src/database: db_manager, with the schema of its tables and of migrations (Schema) and
--                  seed_data (Seeds)
--   Program        src/main.cpp: the routes of the REST server, the start (Start) and one round of the
--                  loop (Loop)
-- A module's Runs has its tests and the examples of its theorems.
--
-- An object is a record and a method a function from the object to the object and the result; names are
-- those of the source in lower case with underscores. A handler that reads outside its data, and a
-- function that throws, has no result (`none`). Machine integers are natural numbers with the
-- wrap-around written out (u8, u16, u32). Hash maps are association lists, whose order stands for the
-- unspecified order of iteration. Texts are lists of ASCII codes where the code reads them, strings
-- where it only passes them on.
--
-- What comes from outside is an argument: the clock, random bytes and draws, what the seed generator
-- and the key validator return, and what the kernel answers to the socket calls. A `float` is a value
-- of any type with the operations of `Manufacturer.Profiles.FloatOps`, so that no theorem depends on
-- rounding. Each method that takes a mutex is one step, and an interleaving is a list of such steps.
--
-- The loop that cuts a message into consecutive frames runs on fuel, the number of bytes left: each
-- turn takes at least one byte, so that this is enough. The loops over a text (the bytes of a recorded
-- line, the headers of a request, its parameters) run on the length of the text, of which each turn takes
-- at least one character. The digits of a number are written on fuel too: eight in base 16 hold 32 bits,
-- and 20 decimal ones hold 64. All other loops are by structural recursion.
--
-- A file is the list of its lines, a log's files a map from their number, and an HTTP connection goes
-- from what one read gives to what is written. The JSON library is a parameter of the routes: a request is
-- what it answers for the keys that the code asks for, and a reply is the value that the code would dump.
-- The SQLite library is a parameter of the database: what it answers to an open and makes of a statement.
--
-- Not modelled: the sockets and threads of the servers, the reading of the configuration file, the console.
pub mod Api
pub mod Base
pub mod Can
pub mod CanTp
pub mod Database
pub mod Diagnostics
pub mod Logging
pub mod Manufacturer
pub mod Program
pub mod Protocol
pub mod Router
pub mod Security
pub mod Session
pub mod Simulation
