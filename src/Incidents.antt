-- ===== src/Incidents.antt =====
-- analystwatch/incidents.py: health transitions, notification candidates and the latest incident.
-- The proofs are in the modules below.
pub mod Transitions
pub mod Latest
use analyst_watch.Prelude.{
  ℕ, zero, suc, String, Bool, true, false, not, Option, none, some, List, [], ◌∷◌, is_empty, last?,
  concat, length, if◌then◌else◌,
}
use analyst_watch.Models.{
  HealthStatus, healthy, warning, critical, health_value, is_healthy, IncidentTransition, opened,
  escalated, recovered, transition_value, transition_lower, has_transition, pending, eligible,
  suppressed, open_incident, recovered_incident, Instant, Observation, NotificationCandidate,
  IncidentSnapshot,
}

-- `_SEVERITY`
abbrev pub severity_rank : HealthStatus → ℕ
severity_rank healthy = 0
severity_rank warning = 1
severity_rank critical = 2

abbrev pub is_unhealthy : Observation → Bool
is_unhealthy o = not (is_healthy o.health)

-- The transition between two healths; `none` before the first observation.
unfoldable pub health_transition : Option HealthStatus → HealthStatus → Option IncidentTransition
health_transition none healthy = none
health_transition (some healthy) healthy = none
health_transition (some previous) healthy = some recovered
health_transition none current = some opened
health_transition (some healthy) current = some opened
health_transition (some warning) critical = some escalated
health_transition (some previous) current = none

abbrev pub health_of : Option Observation → Option HealthStatus
health_of none = none
health_of (some o) = some o.health

unfoldable pub incident_transition : Option Observation → Observation → Option IncidentTransition
unfolding health_transition
incident_transition previous current = health_transition (health_of previous) current.health

abbrev pub transition_reason : IncidentTransition → Observation → String
transition_reason opened current =
    concat
      ("Source entered " ∷ health_value current.health ∷ " health from a non-incident state." ∷ [])
transition_reason escalated current = "Open incident escalated from Warning to Critical."
transition_reason recovered current = "Open incident recovered to Healthy."

abbrev pub candidate_of :
    Option Observation → Observation → IncidentTransition → NotificationCandidate
candidate_of previous current transition = record {
  id = concat (current.id ∷ ":" ∷ transition_lower transition ∷ []);
  source_id = current.source_id;
  observation_id = current.id;
  transition = transition;
  previous_health = health_of previous;
  current_health = current.health;
  created_at = current.observed_at;
  reason = transition_reason transition current;
  state = pending;
  evaluated_at = none;
  policy_enabled_transitions = [];
  policy_reason = none;
}

unfoldable pub notification_candidate :
    Option Observation → Observation → Option NotificationCandidate
notification_candidate previous current = elim (incident_transition previous current) [
  | none ↦ none
  | some transition ↦ some (candidate_of previous current transition)
]

unfoldable pub evaluate_notification_candidate :
    NotificationCandidate → List IncidentTransition → Instant → NotificationCandidate
evaluate_notification_candidate candidate enabled at =
    let name = transition_value candidate.transition in
    if has_transition candidate.transition enabled
    then record candidate {
      state = eligible;
      evaluated_at = some at;
      policy_enabled_transitions = enabled;
      policy_reason = some (concat (name ∷ " is enabled by the source notification policy." ∷ []));
    }
    else record candidate {
      state = suppressed;
      evaluated_at = some at;
      policy_enabled_transitions = enabled;
      policy_reason = some (
          if is_empty enabled
          then "No notification transitions are enabled for this source."
          else concat (name ∷ " is not enabled by the source notification policy." ∷ []));
    }

-- Newest first: the healthy observations before the first unhealthy one, latest kept last.
abbrev pub healthy_prefix : List Observation → List Observation
healthy_prefix [] = []
healthy_prefix (o ∷ os) = let rest = healthy_prefix os in if is_unhealthy o then [] else o ∷ rest

-- `observations[start:]`, from the first unhealthy observation on.
abbrev pub from_unhealthy : List Observation → List Observation
from_unhealthy [] = []
from_unhealthy (o ∷ os) = let rest = from_unhealthy os in if is_unhealthy o then o ∷ os else rest

-- `observations[start:end]`: the loop goes on while the observations are unhealthy.
abbrev pub unhealthy_block : List Observation → List Observation
unhealthy_block [] = []
unhealthy_block (o ∷ os) = let rest = unhealthy_block os in if is_unhealthy o then o ∷ rest else []

-- `max(..., key=_SEVERITY.__getitem__)`: the first of the greatest.
abbrev pub worse : HealthStatus → HealthStatus → HealthStatus
worse critical b = critical
worse warning critical = critical
worse warning b = warning
worse healthy b = b

abbrev pub peak_health : List Observation → HealthStatus
peak_health [] = healthy
peak_health (o ∷ os) = worse o.health (peak_health os)

-- `opened = unhealthy_block[-1]`
abbrev pub last_of : Observation → List Observation → Observation
last_of o [] = o
last_of o (p ∷ ps) = last_of p ps

abbrev pub incident_of : Option Observation → Observation → List Observation → IncidentSnapshot
incident_of none latest rest = record {
  source_id = (last_of latest rest).source_id;
  status = open_incident;
  opened_observation_id = (last_of latest rest).id;
  opened_at = (last_of latest rest).observed_at;
  latest_incident_observation_id = latest.id;
  updated_at = latest.observed_at;
  current_health = latest.health;
  peak_health = peak_health (latest ∷ rest);
  observation_count = length (latest ∷ rest);
  recovered_observation_id = none;
  recovered_at = none;
}
incident_of (some back) latest rest = record {
  source_id = (last_of latest rest).source_id;
  status = recovered_incident;
  opened_observation_id = (last_of latest rest).id;
  opened_at = (last_of latest rest).observed_at;
  latest_incident_observation_id = latest.id;
  updated_at = back.observed_at;
  current_health = healthy;
  peak_health = peak_health (latest ∷ rest);
  observation_count = length (latest ∷ rest);
  recovered_observation_id = some back.id;
  recovered_at = some back.observed_at;
}

-- The observations come newest first.
unfoldable pub latest_incident : List Observation → Option IncidentSnapshot
latest_incident observations = elim (unhealthy_block (from_unhealthy observations)) [
  | [] ↦ none
  | latest ∷ rest ↦ some (incident_of (last? (healthy_prefix observations)) latest rest)
]
