-- ===== src/Models/Kinds.antt =====
-- The enumerations of analystwatch/models.py, and their `==` and `.value`.
use analyst_watch.Prelude.{Bool, true, false, String, List, any}

pub data SourceType : Type 0 where
  csv xlsx json api microsoft_excel google_sheets : SourceType

pub data HealthStatus : Type 0 where
  healthy warning critical : HealthStatus

pub data ObservationReviewState : Type 0 where
  acknowledged reviewed : ObservationReviewState

pub data IncidentStatus : Type 0 where
  open_incident recovered_incident : IncidentStatus

pub data IncidentTransition : Type 0 where
  opened escalated recovered : IncidentTransition

pub data NotificationCandidateState : Type 0 where
  pending eligible suppressed : NotificationCandidateState

pub data DeliveryAttemptState : Type 0 where
  prepared succeeded failed : DeliveryAttemptState

pub data DeliveryReconciliationOutcome : Type 0 where
  outcome_succeeded outcome_failed : DeliveryReconciliationOutcome

pub data DeliveryMode : Type 0 where
  dry_run live : DeliveryMode

pub data DataRuleKind : Type 0 where
  not_null allowed_values numeric_range row_count_range : DataRuleKind

abbrev pub health_eqb : HealthStatus → HealthStatus → Bool
health_eqb healthy healthy = true
health_eqb warning warning = true
health_eqb critical critical = true
health_eqb _ _ = false

abbrev pub transition_eqb : IncidentTransition → IncidentTransition → Bool
transition_eqb opened opened = true
transition_eqb escalated escalated = true
transition_eqb recovered recovered = true
transition_eqb _ _ = false

abbrev pub candidate_state_eqb : NotificationCandidateState → NotificationCandidateState → Bool
candidate_state_eqb pending pending = true
candidate_state_eqb eligible eligible = true
candidate_state_eqb suppressed suppressed = true
candidate_state_eqb _ _ = false

abbrev pub attempt_state_eqb : DeliveryAttemptState → DeliveryAttemptState → Bool
attempt_state_eqb prepared prepared = true
attempt_state_eqb succeeded succeeded = true
attempt_state_eqb failed failed = true
attempt_state_eqb _ _ = false

abbrev pub is_healthy : HealthStatus → Bool
is_healthy h = health_eqb h healthy

abbrev pub health_value : HealthStatus → String
health_value healthy = "Healthy"
health_value warning = "Warning"
health_value critical = "Critical"

abbrev pub transition_value : IncidentTransition → String
transition_value opened = "Opened"
transition_value escalated = "Escalated"
transition_value recovered = "Recovered"

-- `transition.value.lower()`
abbrev pub transition_lower : IncidentTransition → String
transition_lower opened = "opened"
transition_lower escalated = "escalated"
transition_lower recovered = "recovered"

-- `transition in transitions`
abbrev pub has_transition : IncidentTransition → List IncidentTransition → Bool
has_transition t ts = any (transition_eqb t) ts
