-- ===== src/Incidents/Transitions.antt =====
-- What the transitions of a history amount to, and what becomes of a candidate.
use analyst_watch.Prelude.{
  ℕ, ◌+◌, ◌≡◌, refl, Option, none, some, List, [], ◌∷◌, arith, if◌then◌else◌, true, ◌↔◌, concat,
  ◌⊎◌, false,
}
use analyst_watch.Models.{
  escalated, healthy, suppressed, eligible, IncidentTransition, opened, recovered, transition_eqb,
  Observation, Instant, NotificationCandidate, warning, critical, transition_lower, has_transition,
}
use analyst_watch.Incidents.{
  is_unhealthy, incident_transition, notification_candidate, health_of,
  evaluate_notification_candidate,
}

abbrev pub counts : IncidentTransition → Option IncidentTransition → ℕ
counts t none = 0
counts t (some u) = if transition_eqb t u then 1 else 0

-- How often `t` occurs between consecutive observations, oldest first.
abbrev pub occurrences : IncidentTransition → Option Observation → List Observation → ℕ
occurrences t previous [] = 0
occurrences t previous (o ∷ os) =
    counts t (incident_transition previous o) + occurrences t (some o) os

-- Whether an incident is open after the last observation.
abbrev open_after : Option Observation → List Observation → ℕ
open_after none [] = 0
open_after (some o) [] = if is_unhealthy o then 1 else 0
open_after previous (o ∷ os) = open_after (some o) os

abbrev open_before : Option Observation → ℕ
open_before none = 0
open_before (some o) = if is_unhealthy o then 1 else 0

step_balance :
    (previous : Option Observation) (o : Observation)
    → counts opened (incident_transition previous o) + open_before previous
      ≡ counts recovered (incident_transition previous o) + open_before (some o)
unfolding incident_transition
step_balance none o = ground arith
step_balance (some p) o = ground arith

balance_from :
    (previous : Option Observation) (os : List Observation)
    → occurrences opened previous os + open_before previous
      ≡ occurrences recovered previous os + open_after previous os
balance_from none [] = refl
balance_from (some o) [] = omega arith
balance_from none (o ∷ os) = omega (arith, step_balance none o, balance_from (some o) os)
balance_from (some p) (o ∷ os) = omega (arith, step_balance (some p) o, balance_from (some o) os)

-- Over any history, oldest first, from no observation on, the transitions Opened are as many as the
-- transitions Recovered, and one more if the last observation is unhealthy.
pub opened_balance :
    (os : List Observation)
    → occurrences opened none os ≡ occurrences recovered none os + open_after none os
opened_balance os = omega (arith, balance_from none os)

-- What two consecutive observations must be for a transition.
abbrev pub Makes : Option Observation → Observation → IncidentTransition → Type 0
Makes p o opened = (open_before p ≡ 0) × (is_unhealthy o ≡ true)
Makes p o escalated = (health_of p ≡ some warning) × (o.health ≡ critical)
Makes p o recovered = (open_before p ≡ 1) × (o.health ≡ healthy)

-- Which transition two consecutive observations make, in both directions: Opened from a healthy one
-- or none to an unhealthy one, Escalated from Warning to Critical, Recovered from an unhealthy one
-- to a healthy one.
pub incident_transition_iff :
    (p : Option Observation) (o : Observation) (t : IncidentTransition)
    → (incident_transition p o ≡ some t) ↔ Makes p o t
unfolding incident_transition
incident_transition_iff none o opened = ground arith
incident_transition_iff (some p) o opened = ground arith
incident_transition_iff none o escalated = ground arith
incident_transition_iff (some p) o escalated = ground arith
incident_transition_iff none o recovered = ground arith
incident_transition_iff (some p) o recovered = ground arith

-- What the evaluation by a policy makes of the candidate of an observation.
pub record IsDecided (o : Observation) (enabled : List IncidentTransition) (at : Instant)
    (c : NotificationCandidate) : Type 0 where
  pub about : c.observation_id ≡ o.id
  pub of_source : c.source_id ≡ o.source_id
  pub named : c.id ≡ concat (o.id ∷ ":" ∷ transition_lower c.transition ∷ [])
  pub decided :
      ((c.state ≡ eligible) × (has_transition c.transition enabled ≡ true))
      ⊎ ((c.state ≡ suppressed) × (has_transition c.transition enabled ≡ false))
  pub evaluated : c.evaluated_at ≡ some at
  pub policy : c.policy_enabled_transitions ≡ enabled

-- The candidate that an observation gives, evaluated by the source's policy, carries the transition
-- that the observation makes, belongs to the observation and its source, has the id made of the
-- observation's and the transition, records the policy and the time, and is Eligible with its
-- transition enabled or Suppressed with it not enabled.
pub evaluated_candidate-IsDecided :
    (p : Option Observation) (o : Observation) (enabled : List IncidentTransition) (at : Instant)
    (c : NotificationCandidate)
    → notification_candidate p o ≡ some c
    → (incident_transition p o ≡ some c.transition)
      × IsDecided o enabled at (evaluate_notification_candidate c enabled at)
unfolding notification_candidate evaluate_notification_candidate
evaluated_candidate-IsDecided p o enabled at c h = ground arith
