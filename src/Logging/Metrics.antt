-- ===== src/Logging/Metrics.antt =====
-- src/logging/metrics_exporter.hpp and metrics_exporter.cpp, MetricsExporter. The metrics are a list of entries in
-- the order in which the hash map gives them; a new one stands at the end. Numbers are of any type, with their
-- operations and their text as arguments; the time of an update, which nothing reads, is left out.
pub mod Laws
use mcp2515_rpi.Base.{
  ℕ, ◌+◌, ◌/◌, ◌%◌, Bool, true, false, ◌&&◌, ◌||◌, List, [], ◌∷◌, ◌++◌, map, ltb, leb, ◌==◌,
  if◌then◌else◌,
}
use mcp2515_rpi.Base.Texts.{text, same_text}
use mcp2515_rpi.Manufacturer.Profiles.{FloatOps}
use mcp2515_rpi.Logging.Replay.Text.{hex_digit}
use mcp2515_rpi.Router.{to_lower}

pub record Metric (F : Type 0) : Type 0 where
  pub value : F
  pub labels : List ℕ

abbrev pub Metrics : Type 0 → Type 0
Metrics F = List (List ℕ × Metric F)

abbrev pub is_alnum : ℕ → Bool
is_alnum c = (leb 48 c && leb c 57) || (leb 65 c && leb c 90) || (leb 97 c && leb c 122)

unfoldable pub sanitize_name : List ℕ → List ℕ
sanitize_name name = map (λ c. if is_alnum c then c else b'_') (map to_lower name)

abbrev labels_text : List ℕ → List ℕ
labels_text [] = []
labels_text (c ∷ cs) = b'{' ∷ ((c ∷ cs) ++ (b'}' ∷ []))

abbrev pub frames_name : Bool → List ℕ
frames_name true = text "ecu_frames_tx_total"
frames_name false = text "ecu_frames_rx_total"

module _ {F : Type 0} where
  -- `metrics_[name]`, changed in place; it makes a metric that is not there.
  unfoldable pub modify : FloatOps F → (Metric F → Metric F) → Metrics F → List ℕ → Metrics F
  modify ops change [] name = (name, change (record { value = ops.literal 0 1; labels = [] })) ∷ []
  modify ops change ((n, m) ∷ rest) name =
      let more = modify ops change rest name in
      if same_text n name then (n, change m) ∷ rest else (n, m) ∷ more

  unfoldable pub increment : FloatOps F → Metrics F → List ℕ → F → Metrics F
  unfolding modify
  increment ops metrics name value =
      modify ops (λ m. record m { value = ops.add m.value value }) metrics name

  unfoldable pub gauge : FloatOps F → Metrics F → List ℕ → F → Metrics F
  unfolding modify
  gauge ops metrics name value = modify ops (λ m. record m { value = value }) metrics name

  unfoldable pub observe : FloatOps F → Metrics F → List ℕ → F → Metrics F
  unfolding modify
  observe ops metrics name value =
      modify ops (λ m. record m { value = ops.div (ops.add m.value value) (ops.literal 2 1) })
        metrics name

  unfoldable pub set_metric : FloatOps F → Metrics F → List ℕ → List ℕ → F → Metrics F
  unfolding modify
  set_metric ops metrics name labels value =
      modify ops (λ m. record { value = value; labels = labels }) metrics name

  unfoldable pub get : FloatOps F → Metrics F → List ℕ → F
  get ops [] name = ops.literal 0 1
  get ops ((n, m) ∷ rest) name = if same_text n name then m.value else get ops rest name

  unfoldable pub reset : Metrics F → List ℕ → Metrics F
  reset [] name = []
  reset ((n, m) ∷ rest) name =
      let more = reset rest name in if same_text n name then rest else (n, m) ∷ more

  unfoldable pub reset_all : Metrics F → Metrics F
  reset_all metrics = []

  unfoldable pub init : FloatOps F → Metrics F
  unfolding gauge
  init ops =
      let zero_value = ops.literal 0 1 in
      let a = gauge ops [] (text "ecu_frames_rx_total") zero_value in
      let b = gauge ops a (text "ecu_frames_tx_total") zero_value in
      let c = gauge ops b (text "ecu_dtc_count") zero_value in
      let d = gauge ops c (text "ecu_uptime_seconds") zero_value in
      let e = gauge ops d (text "ecu_engine_rpm") zero_value in
      let f = gauge ops e (text "ecu_vehicle_speed") zero_value in
      gauge ops f (text "ecu_battery_voltage") (ops.literal 126 10)

  unfoldable pub get_prometheus_text : (F → List ℕ) → Metrics F → List ℕ
  unfolding sanitize_name
  get_prometheus_text print [] = []
  get_prometheus_text print ((n, m) ∷ rest) =
      let sanitized = sanitize_name n in
      text "# HELP "
      ++ (sanitized
          ++ (32
              ∷ (n
                  ++ (10
                      ∷ (text "# TYPE "
                          ++ (sanitized
                              ++ (text " gauge"
                                  ++ (10
                                      ∷ (sanitized
                                          ++ (labels_text m.labels
                                              ++ (32
                                                  ∷ (print m.value
                                                      ++ (10
                                                          ∷ get_prometheus_text print
                                                            rest)))))))))))))

  unfoldable pub record_can_frame : FloatOps F → Metrics F → Bool → Metrics F
  unfolding increment
  record_can_frame ops metrics tx = increment ops metrics (frames_name tx) (ops.literal 1 1)

  -- The label that the source builds from the service goes nowhere.
  unfoldable pub record_diagnostic_request : FloatOps F → Metrics F → ℕ → Metrics F
  unfolding increment
  record_diagnostic_request ops metrics service =
      increment ops (increment ops metrics (text "ecu_diag_requests_total") (ops.literal 1 1))
        (text "ecu_diag_requests_by_service") (ops.literal 1 1)

  unfoldable pub record_dtc_set : FloatOps F → Metrics F → Metrics F
  unfolding increment
  record_dtc_set ops metrics = increment ops metrics (text "ecu_dtc_set_total") (ops.literal 1 1)

  unfoldable pub record_session_change : FloatOps F → Metrics F → List ℕ → Metrics F
  unfolding set_metric
  record_session_change ops metrics session =
      set_metric ops metrics (text "ecu_active_session")
        (text "session=" ++ (34 ∷ (session ++ (34 ∷ [])))) (ops.literal 1 1)
