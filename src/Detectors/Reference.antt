-- ===== src/Detectors/Reference.antt =====
-- The historical reference, freshness, and the health of a list of findings.
use analyst_watch.Prelude.{
  ℕ, zero, suc, ◌+◌, ◌-◌, ◌*◌, ◌/◌, ◌%◌, ◌≤◌, String, Bool, true, false, ◌&&◌, ◌||◌, Option, none,
  some, List, [], ◌∷◌, any, is_some, length, leb, ltb, eqb, sort_by, take, if◌then◌else◌,
}
use analyst_watch.Prelude.Rational.{Rational, of_ℕ, ratio, ◌+ℚ◌, ◌*ℚ◌, ◌≤ℚ◌}
use analyst_watch.Models.{
  HealthStatus, healthy, warning, critical, health_eqb, Finding, MonitoringConfig, DatasetProfile,
  Instant, minutes,
}

abbrev pub finding : HealthStatus → String → Finding
finding severity detector = record {
  severity = severity;
  detector = detector;
  confidence = some "high";
}

abbrev pub medium_finding : HealthStatus → String → Finding
medium_finding severity detector = record {
  severity = severity;
  detector = detector;
  confidence = some "medium";
}

-- `CRITICAL if test else WARNING`
abbrev pub critical_if : Bool → HealthStatus
critical_if test = if test then critical else warning

abbrev pub nth : ℕ → List Rational → Rational
nth n [] = of_ℕ 0
nth zero (x ∷ xs) = x
nth (suc n) (x ∷ xs) = nth n xs

-- `statistics.median` of a list that is not empty.
abbrev pub median : List Rational → Rational
median values =
    let sorted = sort_by ◌≤ℚ◌ values in
    let half = length values / 2 in
    if eqb (length values % 2) 1
    then nth half sorted
    else (nth (half - 1) sorted +ℚ nth half sorted) *ℚ ratio 1 1

-- `_historical_reference`, without the evidence: the reference, and whether history is used.
unfoldable pub historical_reference : List Rational → Rational → MonitoringConfig → Rational × Bool
historical_reference values baseline_value config =
    if ltb (length values) config.min_history_observations
    then (baseline_value, false)
    else (median values, true)

abbrev pub is_named : Option String → Bool
is_named none = false
is_named (some s) = if analyst_watch.Prelude.◌==◌ s "" then false else true

-- The age is not negative, as in `max(..., 0.0)`: subtraction stops at 0.
abbrev pub stale : Instant → Instant → ℕ → List Finding
stale observed_at evidence_time expected =
    let age = observed_at - evidence_time in
    if leb age (minutes expected)
    then []
    else finding (critical_if (leb (minutes expected * 2) age)) "freshness" ∷ []

unfoldable pub detect_freshness :
    MonitoringConfig → DatasetProfile → Option Instant → Instant → List Finding
detect_freshness config profile source_modified_at observed_at =
    elim config.expected_refresh_minutes [
      | none ↦ []
      | some expected ↦
          let content = is_named config.latest_date_field || config.infer_latest_date_field in
          elim (if content then profile.latest_date else source_modified_at) [
            | none ↦ finding warning "freshness" ∷ []
            | some evidence_time ↦ stale observed_at evidence_time expected
          ]
    ]

abbrev pub has_severity : HealthStatus → List Finding → Bool
has_severity s fs = any (λ (f : Finding). health_eqb f.severity s) fs

unfoldable pub health_from_findings : List Finding → HealthStatus
health_from_findings findings =
    if has_severity critical findings
    then critical
    else if has_severity warning findings
    then warning
    else healthy
