-- ===== src/Scorecards.antt =====
-- analystwatch/scorecards.py and the history that analystwatch/scorecard_service.py reads for it. A
-- percentage is the exact fraction, not rounded.
pub mod History
pub mod Oldest
pub mod Reading
pub mod Bounds
pub mod Badges
use text.Mathlib.Text.{starts_with}
use analyst_watch.Prelude.{
  ℕ, ◌+◌, ◌-◌, String, Bool, true, false, ◌&&◌, ◌||◌, not, Option, none, some, List, [], ◌∷◌, ◌==◌,
  length, select, sort_by, any, all, count_if, last?, leb, ltb, eqb, str_leb, if◌then◌else◌,
  is_some,
}
use analyst_watch.Prelude.Rational.{Rational, of_ℕ, ◌+ℚ◌, ◌/ℚ◌}
use analyst_watch.Result.{Result, ok, err, value_error, require, ◌>>=◌, ◌>>◌}
use analyst_watch.Models.{
  HealthStatus, healthy, warning, critical, health_eqb, is_healthy, IncidentTransition, opened,
  escalated, recovered, transition_eqb, Observation, Finding, Instant, DateTime, naive, aware, days,
}
use analyst_watch.Memory.{is_successful}
use analyst_watch.Incidents.{incident_transition}

pub data TrustBadge : Type 0 where
  not_monitored trusted attention critical_badge : TrustBadge

-- A rate is `None` if there was no check.
pub record ReliabilityWindow : Type 0 where
  pub window_days : ℕ
  pub check_count : ℕ
  pub successful_check_count : ℕ
  pub successful_check_pct : Option Rational
  pub healthy_count : ℕ
  pub healthy_check_pct : Option Rational
  pub warning_count : ℕ
  pub critical_count : ℕ
  pub incident_count : ℕ
  pub recovered_incident_count : ℕ
  pub stale_occurrence_count : ℕ
  pub data_rule_failure_occurrence_count : ℕ
  pub mttr_minutes : Option Rational

pub record ReliabilityScorecard : Type 0 where
  pub source_id : String
  pub as_of : Instant
  pub current_health : Option HealthStatus
  pub badge : TrustBadge
  pub latest_observation_at : Option Instant
  pub history_complete : Bool
  pub window_7d : ReliabilityWindow
  pub window_30d : ReliabilityWindow

-- `_utc`
abbrev pub utc : DateTime → Result Instant
utc (naive t) = err (value_error "Scorecard timestamps must be timezone-aware")
utc (aware t) = ok t

abbrev pub badge_for_health : Option HealthStatus → TrustBadge
badge_for_health none = not_monitored
badge_for_health (some healthy) = trusted
badge_for_health (some warning) = attention
badge_for_health (some critical) = critical_badge

abbrev pub is_stale_occurrence : Observation → Bool
is_stale_occurrence o = any (λ (f : Finding). f.detector == "freshness") o.findings

abbrev pub is_data_rule_occurrence : Observation → Bool
is_data_rule_occurrence o =
    any (λ (f : Finding). f.detector == "data_rule" || starts_with f.detector "data_rule:")
      o.findings

-- A transition, and for a recovery the minutes since the incident opened.
pub record IncidentEvent : Type 0 where
  pub event_at : Instant
  pub transition : IncidentTransition
  pub recovery_minutes : Option Rational

-- `(observed_at - opened_at).total_seconds() / 60`
abbrev pub minutes_between : Instant → Instant → Rational
minutes_between opened_at observed_at = record {
  up = observed_at;
  down = opened_at;
  below = 59999999;
}

abbrev pub recovery : Option Instant → Instant → Option Rational
recovery none observed_at = none
recovery (some opened_at) observed_at = some (minutes_between opened_at observed_at)

-- An observation that ends no known history opens nothing.
abbrev pub seen_transition : Bool → Option Observation → Observation → Option IncidentTransition
seen_transition hidden previous o =
    if hidden && not (is_healthy o.health) then none else incident_transition previous o

abbrev pub add_event :
    Option IncidentTransition
    → Observation
    → Option Instant
    → List IncidentEvent
    → List IncidentEvent
add_event none o opened_at events = events
add_event (some opened) o opened_at events =
    (record { event_at = o.observed_at; transition = opened; recovery_minutes = none }) ∷ events
add_event (some escalated) o opened_at events =
    (record { event_at = o.observed_at; transition = escalated; recovery_minutes = none }) ∷ events
add_event (some recovered) o opened_at events =
    (record {
      event_at = o.observed_at;
      transition = recovered;
      recovery_minutes = recovery opened_at o.observed_at;
    })
    ∷ events

abbrev pub opened_after : Option IncidentTransition → Observation → Option Instant → Option Instant
opened_after (some opened) o opened_at = some o.observed_at
opened_after (some recovered) o opened_at = none
opened_after _ o opened_at = opened_at

-- The loop of `_incident_events`; `hidden` holds at the first of a history that is not complete.
unfoldable pub events_from :
    Bool → Option Observation → Option Instant → List Observation → List IncidentEvent
events_from hidden previous opened_at [] = []
events_from hidden previous opened_at (o ∷ os) =
    let t = seen_transition hidden previous o in
    add_event t o opened_at (events_from false (some o) (opened_after t o opened_at) os)

unfoldable pub incident_events : List Observation → Bool → List IncidentEvent
unfolding events_from
incident_events observations history_complete =
    events_from (not history_complete) none none observations

abbrev pub rate : ℕ → ℕ → Option Rational
rate n checks = if eqb checks 0 then none else some (of_ℕ n /ℚ of_ℕ checks)

abbrev pub sum_minutes : List IncidentEvent → Rational
sum_minutes [] = of_ℕ 0
sum_minutes (e ∷ es) = elim e.recovery_minutes [
  | none ↦ sum_minutes es
  | some m ↦ m +ℚ sum_minutes es
]

abbrev pub has_minutes : IncidentEvent → Bool
has_minutes e = is_some e.recovery_minutes

abbrev pub mean_minutes : List IncidentEvent → Option Rational
mean_minutes events =
    let n = count_if has_minutes events in
    if eqb n 0 then none else some (sum_minutes events /ℚ of_ℕ n)

abbrev pub within : Instant → Instant → Instant → Bool
within start as_of t = leb start t && leb t as_of

abbrev pub is_event : IncidentTransition → IncidentEvent → Bool
is_event t e = transition_eqb e.transition t

-- `_window`
unfoldable pub window : List Observation → List IncidentEvent → Instant → ℕ → ReliabilityWindow
window observations events as_of n =
    let start = as_of - days n in
    let current = select (λ (o : Observation). within start as_of o.observed_at) observations in
    let checks = length current in
    let successful = count_if is_successful current in
    let healthy_checks = count_if (λ (o : Observation). is_healthy o.health) current in
    let window_events = select (λ (e : IncidentEvent). within start as_of e.event_at) events in
    let recovered_events = select (is_event recovered) window_events in
    record {
      window_days = n;
      check_count = checks;
      successful_check_count = successful;
      successful_check_pct = rate successful checks;
      healthy_count = healthy_checks;
      healthy_check_pct = rate healthy_checks checks;
      warning_count = count_if (λ (o : Observation). health_eqb o.health warning) current;
      critical_count = count_if (λ (o : Observation). health_eqb o.health critical) current;
      incident_count = count_if (is_event opened) window_events;
      recovered_incident_count = length recovered_events;
      stale_occurrence_count = count_if is_stale_occurrence current;
      data_rule_failure_occurrence_count = count_if is_data_rule_occurrence current;
      mttr_minutes = mean_minutes recovered_events;
    }

-- The order of the key `(observed_at, id)`.
abbrev pub observed_first : Observation → Observation → Bool
observed_first a b =
    ltb a.observed_at b.observed_at || (eqb a.observed_at b.observed_at && str_leb a.id b.id)

-- `normalized`
abbrev pub history_until : Instant → List Observation → List Observation
history_until as_of observations =
    sort_by observed_first (select (λ (o : Observation). leb o.observed_at as_of) observations)

abbrev pub latest_health : Option Observation → Option HealthStatus
latest_health none = none
latest_health (some o) = some o.health

abbrev pub latest_time : Option Observation → Option Instant
latest_time none = none
latest_time (some o) = some o.observed_at

abbrev pub scorecard_of : String → List Observation → Instant → Bool → ReliabilityScorecard
scorecard_of source_id observations as_of history_complete =
    let normalized = history_until as_of observations in
    let latest = last? normalized in
    let events = incident_events normalized history_complete in
    record {
      source_id = source_id;
      as_of = as_of;
      current_health = latest_health latest;
      badge = badge_for_health (latest_health latest);
      latest_observation_at = latest_time latest;
      history_complete = history_complete;
      window_7d = window normalized events as_of 7;
      window_30d = window normalized events as_of 30;
    }

unfoldable pub build_reliability_scorecard :
    String → List Observation → DateTime → Bool → Result ReliabilityScorecard
build_reliability_scorecard source_id observations as_of history_complete = do
  as_of_utc ← utc as_of
  require (all (λ (o : Observation). o.source_id == source_id) observations)
      (value_error "Scorecard observations must all match source_id")
  ok (scorecard_of source_id observations as_of_utc history_complete)
