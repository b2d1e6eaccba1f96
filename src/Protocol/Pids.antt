-- ===== src/Protocol/Pids.antt =====
-- src/protocols/obd2_standard.cpp: the table of parameters and the value of their bytes.
use Prim.Native.String.{String}
use mcp2515_rpi.Base.{ℕ, Option, none, some, List, [], ◌∷◌, get_or, ◌==◌, if◌then◌else◌}
use mcp2515_rpi.Base.Texts.{text, same_text}
use mcp2515_rpi.Manufacturer.Profiles.{FloatOps}

pub record PidInfo (F : Type 0) : Type 0 where
  pub pid : ℕ
  pub name : String
  pub unit : String
  pub data_bytes : ℕ
  pub min_val : F
  pub max_val : F
  pub formula : List ℕ

module _ {F : Type 0} where
  abbrev pub pid_info : ℕ → String → String → ℕ → F → F → List ℕ → PidInfo F
  pid_info pid name unit bytes low high formula = record {
    pid = pid;
    name = name;
    unit = unit;
    data_bytes = bytes;
    min_val = low;
    max_val = high;
    formula = formula;
  }

  unfoldable pub init_pids : FloatOps F → List (PidInfo F)
  init_pids ops =
      pid_info 0x00 "Supported PIDs 01-20" "" 4 (ops.literal 0 1) (ops.literal 0 1) (text "bitmask")
      ∷ pid_info 0x01 "Monitor Status" "" 4 (ops.literal 0 1) (ops.literal 0 1) (text "bitmask")
      ∷ pid_info 0x03 "Fuel System Status" "" 2 (ops.literal 0 1) (ops.literal 0 1) (text "bitmask")
      ∷ pid_info 0x04 "Engine Load" "%" 1 (ops.literal 0 1) (ops.literal 100 1) (text "A*100/255")
      ∷ pid_info 0x05 "Coolant Temp" "°C" 1 (ops.neg (ops.literal 40 1)) (ops.literal 215 1)
          (text "A-40")
      ∷ pid_info 0x06 "Fuel Trim ST B1" "%" 1 (ops.neg (ops.literal 100 1)) (ops.literal 992 10)
          (text "(A-128)*100/128")
      ∷ pid_info 0x07 "Fuel Trim LT B1" "%" 1 (ops.neg (ops.literal 100 1)) (ops.literal 992 10)
          (text "(A-128)*100/128")
      ∷ pid_info 0x08 "Fuel Trim ST B2" "%" 1 (ops.neg (ops.literal 100 1)) (ops.literal 992 10)
          (text "(A-128)*100/128")
      ∷ pid_info 0x09 "Fuel Trim LT B2" "%" 1 (ops.neg (ops.literal 100 1)) (ops.literal 992 10)
          (text "(A-128)*100/128")
      ∷ pid_info 0x0A "Fuel Pressure" "kPa" 1 (ops.literal 0 1) (ops.literal 765 1) (text "A*3")
      ∷ pid_info 0x0B "Intake MAP" "kPa" 1 (ops.literal 0 1) (ops.literal 255 1) (text "A")
      ∷ pid_info 0x0C "Engine RPM" "rpm" 2 (ops.literal 0 1) (ops.literal 1638375 100)
          (text "((A*256)+B)/4")
      ∷ pid_info 0x0D "Vehicle Speed" "km/h" 1 (ops.literal 0 1) (ops.literal 255 1) (text "A")
      ∷ pid_info 0x0E "Timing Advance" "°" 1 (ops.neg (ops.literal 64 1)) (ops.literal 635 10)
          (text "(A-128)/2")
      ∷ pid_info 0x0F "Intake Air Temp" "°C" 1 (ops.neg (ops.literal 40 1)) (ops.literal 215 1)
          (text "A-40")
      ∷ pid_info 0x10 "MAF" "g/s" 2 (ops.literal 0 1) (ops.literal 65535 100)
          (text "((A*256)+B)/100")
      ∷ pid_info 0x11 "Throttle Position" "%" 1 (ops.literal 0 1) (ops.literal 100 1)
          (text "A*100/255")
      ∷ pid_info 0x13 "O2 Sensors Present" "" 1 (ops.literal 0 1) (ops.literal 0 1) (text "bitmask")
      ∷ pid_info 0x14 "O2 B1S1" "V" 2 (ops.literal 0 1) (ops.literal 1275 1000) (text "A*0.005")
      ∷ pid_info 0x15 "O2 B1S2" "V" 2 (ops.literal 0 1) (ops.literal 1275 1000) (text "A*0.005")
      ∷ pid_info 0x1C "OBD Standard" "" 1 (ops.literal 0 1) (ops.literal 0 1) (text "A")
      ∷ pid_info 0x1F "Run Time" "s" 2 (ops.literal 0 1) (ops.literal 65535 1) (text "((A*256)+B)")
      ∷ pid_info 0x20 "Supported PIDs 21-40" "" 4 (ops.literal 0 1) (ops.literal 0 1)
          (text "bitmask")
      ∷ pid_info 0x21 "Dist with MIL" "km" 2 (ops.literal 0 1) (ops.literal 65535 1)
          (text "((A*256)+B)")
      ∷ pid_info 0x22 "Fuel Rail Pressure" "kPa" 2 (ops.literal 0 1) (ops.literal 5177265 1000)
          (text "((A*256)+B)*0.079")
      ∷ pid_info 0x2F "Fuel Level" "%" 1 (ops.literal 0 1) (ops.literal 100 1) (text "A*100/255")
      ∷ pid_info 0x31 "Dist since Clear" "km" 2 (ops.literal 0 1) (ops.literal 65535 1)
          (text "((A*256)+B)")
      ∷ pid_info 0x33 "Barometric Pressure" "kPa" 1 (ops.literal 0 1) (ops.literal 255 1) (text "A")
      ∷ pid_info 0x42 "Control Module Voltage" "V" 2 (ops.literal 0 1) (ops.literal 65535 1000)
          (text "((A*256)+B)/1000")
      ∷ pid_info 0x43 "Absolute Load" "%" 2 (ops.literal 0 1) (ops.literal 25700 1)
          (text "((A*256)+B)*100/255")
      ∷ pid_info 0x44 "Command Equiv Ratio" "ratio" 2 (ops.literal 0 1) (ops.literal 2 1)
          (text "((A*256)+B)/32768")
      ∷ pid_info 0x45 "Relative Throttle" "%" 1 (ops.literal 0 1) (ops.literal 100 1)
          (text "A*100/255")
      ∷ pid_info 0x46 "Ambient Air Temp" "°C" 1 (ops.neg (ops.literal 40 1)) (ops.literal 215 1)
          (text "A-40")
      ∷ pid_info 0x5C "Oil Temp" "°C" 1 (ops.neg (ops.literal 40 1)) (ops.literal 210 1)
          (text "A-40")
      ∷ []

  unfoldable pub find_pid : List (PidInfo F) → ℕ → Option (PidInfo F)
  find_pid [] pid = none
  find_pid (p ∷ pids) pid = if p.pid == pid then some p else find_pid pids pid

  -- The value of a formula for the first two bytes.
  unfoldable pub formula_value : FloatOps F → List ℕ → F → F → F
  formula_value ops formula a b =
      let word = ops.add (ops.mul a (ops.literal 256 1)) b in
      if same_text formula (text "A")
      then a
      else if same_text formula (text "A-40")
      then ops.sub a (ops.literal 40 1)
      else if same_text formula (text "A*100/255")
      then ops.div (ops.mul a (ops.literal 100 1)) (ops.literal 255 1)
      else if same_text formula (text "A*3")
      then ops.mul a (ops.literal 3 1)
      else if same_text formula (text "(A-128)/2")
      then ops.div (ops.sub a (ops.literal 128 1)) (ops.literal 2 1)
      else if same_text formula (text "A*0.005")
      then ops.mul a (ops.literal 5 1000)
      else if same_text formula (text "(A-128)*100/128")
      then ops.div (ops.mul (ops.sub a (ops.literal 128 1)) (ops.literal 100 1)) (ops.literal 128 1)
      else if same_text formula (text "((A*256)+B)/4")
      then ops.div word (ops.literal 4 1)
      else if same_text formula (text "((A*256)+B)/100")
      then ops.div word (ops.literal 100 1)
      else if same_text formula (text "((A*256)+B)")
      then word
      else if same_text formula (text "((A*256)+B)*0.079")
      then ops.mul word (ops.literal 79 1000)
      else if same_text formula (text "((A*256)+B)/1000")
      then ops.div word (ops.literal 1000 1)
      else if same_text formula (text "((A*256)+B)*100/255")
      then ops.div (ops.mul word (ops.literal 100 1)) (ops.literal 255 1)
      else if same_text formula (text "((A*256)+B)/32768")
      then ops.div word (ops.literal 32768 1)
      else ops.literal 0 1

  abbrev of_info : FloatOps F → Option (PidInfo F) → List ℕ → F
  of_info ops none bytes = ops.literal 0 1
  of_info ops (some p) [] = ops.literal 0 1
  of_info ops (some p) (a ∷ bytes) =
      formula_value ops p.formula (ops.literal a 1) (ops.literal (get_or bytes 0 0) 1)

  unfoldable pub decode_pid : FloatOps F → ℕ → List ℕ → F
  unfolding init_pids find_pid
  decode_pid ops pid bytes = of_info ops (find_pid (init_pids ops) pid) bytes

  unfoldable pub encode_pid : ℕ → F → List ℕ
  encode_pid pid value = 0x00 ∷ []

unfoldable pub supported_pids : ℕ → List ℕ
supported_pids range = 0x00 ∷ 0x00 ∷ 0x00 ∷ 0x00 ∷ []
