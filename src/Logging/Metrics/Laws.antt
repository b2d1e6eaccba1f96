-- ===== src/Logging/Metrics/Laws.antt =====
-- src/logging/metrics_exporter.cpp: the value of a metric after each operation.
use mcp2515_rpi.Base.{
  ℕ, ◌≡◌, refl, ap, sym, ◌∙◌, List, [], ◌∷◌, inl, inr, Bool-cases, if◌then◌else◌,
}
use mcp2515_rpi.Base.Texts.{same_text, same_text-eq}
use mcp2515_rpi.Manufacturer.Profiles.{FloatOps}
use mcp2515_rpi.Logging.Metrics.{
  Metric, Metrics, modify, increment, gauge, observe, set_metric, get,
}

module _ {F : Type 0} (ops : FloatOps F) where
  -- The metric of a name, as `metrics_[name]` gives it.
  metric_at : Metrics F → List ℕ → Metric F
  metric_at [] name = record { value = ops.literal 0 1; labels = [] }
  metric_at ((n, m) ∷ rest) name = if same_text n name then m else metric_at rest name

  get-metric_at :
      (metrics : Metrics F) (name : List ℕ) → get ops metrics name ≡ (metric_at metrics name).value
  unfolding get metric_at
  get-metric_at [] name = refl
  get-metric_at ((n, m) ∷ rest) name = elim (Bool-cases (same_text n name)) [
    | inl found ↦ rw (found, if◌then◌else◌) refl
    | inr other ↦ rw (other, if◌then◌else◌) (get-metric_at rest name)
  ]

  metric_at-modify :
      (change : Metric F → Metric F) (metrics : Metrics F) (name other : List ℕ)
      → metric_at (modify ops change metrics name) other ≡ (
          if same_text name other then change (metric_at metrics name) else metric_at metrics other)
  unfolding modify metric_at
  metric_at-modify change [] name other = refl
  metric_at-modify change ((n, m) ∷ rest) name other = elim (Bool-cases (same_text n name)) [
    | inl found ↦
        rw (found, if◌then◌else◌, ← same_text-eq n name found)
          (elim (Bool-cases (same_text n other)) [
            | inl here ↦ rw (here, if◌then◌else◌) refl
            | inr there ↦ rw (there, if◌then◌else◌) refl
          ])
    | inr missing ↦ elim (Bool-cases (same_text name other)) [
      | inl here ↦
          rw
            (
              missing,
              here,
              if◌then◌else◌,
              ap (same_text n) (sym (same_text-eq name other here)) ∙ missing,
              metric_at-modify change rest name other,
            )
            (rw (here, if◌then◌else◌) refl)
      | inr there ↦
          rw (missing, there, if◌then◌else◌, metric_at-modify change rest name other)
            (rw (there, if◌then◌else◌) refl)
    ]
  ]

  get-modify :
      (change : Metric F → Metric F) (metrics : Metrics F) (name other : List ℕ)
      → get ops (modify ops change metrics name) other ≡ (
          if same_text name other
          then (change (metric_at metrics name)).value
          else get ops metrics other)
  get-modify change metrics name other =
      rw
        (
          get-metric_at (modify ops change metrics name) other,
          get-metric_at metrics other,
          metric_at-modify change metrics name other,
        )
        (elim (Bool-cases (same_text name other)) [
          | inl here ↦ rw (here, if◌then◌else◌) refl
          | inr there ↦ rw (there, if◌then◌else◌) refl
        ])

  -- Every operation changes the metric that it names and no other: increment adds to the value before it, which is
  -- zero for a new name, observe takes the mean of it and the new one, gauge and set replace it.
  pub operations_lem :
      (metrics : Metrics F) (name labels other : List ℕ) (value : F)
      → let old = get ops metrics name in
        let rest = get ops metrics other in
        (get ops (increment ops metrics name value) other
          ≡ (if same_text name other then ops.add old value else rest))
        × (get ops (observe ops metrics name value) other ≡ (
            if same_text name other then ops.div (ops.add old value) (ops.literal 2 1) else rest))
        × (get ops (gauge ops metrics name value) other
            ≡ (if same_text name other then value else rest))
        × (get ops (set_metric ops metrics name labels value) other
            ≡ (if same_text name other then value else rest))
  unfolding increment observe gauge set_metric
  operations_lem metrics name labels other value = rw (get-metric_at metrics name) (
    get-modify (λ m. record m { value = ops.add m.value value }) metrics name other,
    get-modify (λ m. record m { value = ops.div (ops.add m.value value) (ops.literal 2 1) }) metrics
        name other,
    get-modify (λ m. record m { value = value }) metrics name other,
    get-modify (λ m. record { value = value; labels = labels }) metrics name other,
  )
