-- ===== src/Models/Records.antt =====
-- Run decisions, reviews, incidents, notification candidates and delivery attempts of
-- analystwatch/models.py.
use analyst_watch.Prelude.{ℕ, String, Bool, Option, List}
use analyst_watch.Models.Kinds.{
  HealthStatus, ObservationReviewState, IncidentStatus, IncidentTransition,
  NotificationCandidateState, DeliveryAttemptState, DeliveryMode,
}
use analyst_watch.Models.Instants.{Instant}
use analyst_watch.Models.Profiles.{Observation}

pub record RunDecision : Type 0 where
  pub source_id : String
  pub due : Bool
  pub reason : String
  pub last_checked_at : Option Instant
  pub next_check_at : Option Instant

pub record ObservationReview : Type 0 where
  pub observation_id : String
  pub source_id : String
  pub state : ObservationReviewState
  pub updated_at : Instant

pub record BaselineReview : Type 0 where
  pub source_id : String
  pub current_baseline : Option Observation
  pub candidate : Option Observation
  pub ready : Bool
  pub blockers : List String

pub record IncidentSnapshot : Type 0 where
  pub source_id : String
  pub status : IncidentStatus
  pub opened_observation_id : String
  pub opened_at : Instant
  pub latest_incident_observation_id : String
  pub updated_at : Instant
  pub current_health : HealthStatus
  pub peak_health : HealthStatus
  pub observation_count : ℕ
  pub recovered_observation_id : Option String
  pub recovered_at : Option Instant

pub record NotificationCandidate : Type 0 where
  pub id : String
  pub source_id : String
  pub observation_id : String
  pub transition : IncidentTransition
  pub previous_health : Option HealthStatus
  pub current_health : HealthStatus
  pub created_at : Instant
  pub reason : String
  pub state : NotificationCandidateState
  pub evaluated_at : Option Instant
  pub policy_enabled_transitions : List IncidentTransition
  pub policy_reason : Option String

pub record DeliveryAttempt : Type 0 where
  pub id : String
  pub candidate_id : String
  pub source_id : String
  pub adapter : String
  pub mode : DeliveryMode
  pub idempotency_key : String
  pub attempt_number : ℕ
  pub state : DeliveryAttemptState
  pub created_at : Instant
  pub claim_owner : Option String
  pub completed_at : Option Instant
  pub result_summary : Option String
  pub error : Option String
  pub reconciled_at : Option Instant
  pub reconciled_by : Option String
  pub reconciliation_note : Option String

pub record DeliveryRetryDecision : Type 0 where
  pub candidate_id : String
  pub due : Bool
  pub reason : String
  pub last_attempt_id : Option String
  pub last_state : Option DeliveryAttemptState
  pub next_retry_at : Option Instant
