-- ===== src/Tests/Checking.antt =====
-- Histories, checks, saves and promotions of one source.
use analyst_watch.Prelude.{
  ◌+◌, concat, is_blank_or_padded, strip, String, true, false, ◌≡◌, ◌≢◌, ◌↔◌, refl, none, some,
  List, [], ◌∷◌, eq_iff, arith, get, put, All,
}
use analyst_watch.Result.{ok}
use analyst_watch.Models.{
  IncidentSnapshot, healthy, critical, recovered_incident, opened, recovered, escalated,
  Observation, NotificationCandidate,
}
use analyst_watch.Incidents.{
  latest_incident, notification_candidate, incident_transition, evaluate_notification_candidate,
  health_transition,
}
use analyst_watch.Incidents.Transitions.{
  occurrences, opened_balance, Makes, incident_transition_iff, IsDecided,
  evaluated_candidate-IsDecided,
}
use analyst_watch.Incidents.Latest.{
  Describes, latest_incident-Describes, IsHealthy, latest_incident-eq-none,
}
use analyst_watch.Memory.{save_observation}
use analyst_watch.Models.{pending, SourceDefinition, validate_contract, has_duplicates}
use analyst_watch.Memory.{get_baseline, get_source, get_observation, promote_baseline}
use analyst_watch.Persistence.Saves.{IsSaved, save_observation-IsSaved}
use analyst_watch.DataRules.{Frame, evaluate_data_rules}
use analyst_watch.DataRules.Outcomes.{IsContract, Satisfies, evaluate_data_rules-eq-nil}
use analyst_watch.Detectors.{detect_row_count}
use analyst_watch.Detectors.Thresholds.{IsGraded, detect_row_count-IsGraded}
use analyst_watch.Health.{observe-healthy_iff}
use analyst_watch.Service.{
  Ingested, observe, SourcePreflight, onboard_source, baseline_review, prune_source,
  promote_baseline_after_review,
}
use analyst_watch.Onboarding.{IsOnboarded, onboard_source-IsOnboarded}
use analyst_watch.Baselines.{IsReviewed, promote_baseline_after_review-IsReviewed}
use analyst_watch.Persistence.Listing.{IsListing, list_observations-IsListing}
use analyst_watch.Memory.{ids_of, list_observations}
use analyst_watch.Persistence.Rejections.{save_rejected-stores}
use analyst_watch.Result.{err, value_error}
use analyst_watch.Prelude.{contains, length, ◌<◌, ◌==◌}
use analyst_watch.Samples.{store, o1, o2, o3, o4, source, config, candidate, profile, observation}
use analyst_watch.Models.{DatasetProfile}

abbrev history : List Observation
history = o4 ∷ o3 ∷ o2 ∷ o1 ∷ []

abbrev snapshot : IncidentSnapshot
snapshot = record {
  source_id = "s";
  status = recovered_incident;
  opened_observation_id = "o2";
  opened_at = 2;
  latest_incident_observation_id = "o3";
  updated_at = 4;
  current_health = healthy;
  peak_health = critical;
  observation_count = 2;
  recovered_observation_id = some "o4";
  recovered_at = some 4;
}

found : latest_incident history ≡ some snapshot
unfolding latest_incident
found = refl

latest_incident-Describes_example : Describes history snapshot
latest_incident-Describes_example = latest_incident-Describes history snapshot found

latest_incident-eq-none_example : (latest_incident history ≡ none) ↔ All IsHealthy history
latest_incident-eq-none_example = latest_incident-eq-none history

incident_transition_iff_example :
    (incident_transition (some o2) o3 ≡ some escalated) ↔ Makes (some o2) o3 escalated
incident_transition_iff_example = incident_transition_iff (some o2) o3 escalated

opened_balance_example :
    occurrences opened none (o1 ∷ o2 ∷ o3 ∷ o4 ∷ [])
    ≡ occurrences recovered none (o1 ∷ o2 ∷ o3 ∷ o4 ∷ []) + 0
opened_balance_example = opened_balance (o1 ∷ o2 ∷ o3 ∷ o4 ∷ [])

abbrev pending_candidate : NotificationCandidate
pending_candidate = record candidate {
  state = pending;
  evaluated_at = none;
  policy_enabled_transitions = [];
}

given : notification_candidate (some o1) o2 ≡ some pending_candidate
unfolding notification_candidate incident_transition health_transition concat
given = refl

evaluated_candidate-IsDecided_example :
    (incident_transition (some o1) o2 ≡ some opened)
    × IsDecided o2
        (recovered ∷ [])
        5
        (evaluate_notification_candidate pending_candidate (recovered ∷ []) 5)
evaluated_candidate-IsDecided_example =
    evaluated_candidate-IsDecided (some o1) o2 (recovered ∷ []) 5 pending_candidate given

abbrev o5 : Observation
o5 = observation "o5" 5 critical

abbrev fresh_candidate : NotificationCandidate
fresh_candidate = record candidate { id = "o5:opened"; observation_id = "o5" }

saved : (save_observation o5 true (some fresh_candidate) store).0 ≡ ok tt
unfolding save_observation get put
saved = refl

save_observation-IsSaved_example :
    IsSaved o5 true
      (some fresh_candidate)
      store
      (save_observation o5 true (some fresh_candidate) store).1
save_observation-IsSaved_example =
    save_observation-IsSaved o5 true (some fresh_candidate) store saved

rules-valid : All IsContract source.config.data_rules
unfolding validate_contract is_blank_or_padded strip has_duplicates
rules-valid = (refl, (refl, tt))

abbrev frame : Frame
frame = record {
  row_count = 3;
  columns = ("name", record { is_null = true; text = none; number = none } ∷ []) ∷ [];
}

abbrev answer : Ingested
answer = record {
  available = true;
  dataset = some (record {
    frame = frame;
    profile = profile;
    row_snapshot = none;
    row_diff = record {
      key_fields = [];
      snapshot_available = false;
      snapshot_reason = none;
      previous = none;
      baseline = none;
    };
  });
  http_status = none;
  response_ms = none;
  source_modified_at = none;
  response_etag = none;
  error = none;
}

observe-healthy_iff_example :
    ((observe "o5" source 5 (some o1) (profile ∷ []) answer).health ≡ healthy)
    ↔ ((observe "o5" source 5 (some o1) (profile ∷ []) answer).findings ≡ [])
observe-healthy_iff_example =
    observe-healthy_iff "o5" source 5 (some o1) (profile ∷ []) answer rules-valid

evaluate_data_rules-eq-nil_example :
    (evaluate_data_rules frame config.data_rules ≡ []) ↔ All (Satisfies frame) config.data_rules
evaluate_data_rules-eq-nil_example = evaluate_data_rules-eq-nil frame config.data_rules

few : length {A = DatasetProfile} [] < config.min_history_observations
few = omega arith

detect_row_count-IsGraded_example :
    IsGraded config profile.row_count 1
      (detect_row_count profile (record profile { row_count = 1 }) config [])
detect_row_count-IsGraded_example =
    detect_row_count-IsGraded profile (record profile { row_count = 1 }) config [] few

abbrev preflight : SourceDefinition → SourcePreflight
preflight s = record { ready = s.enabled; accepted = false }

onboard_source-IsOnboarded_example :
    IsOnboarded
      (record source { id = "t" })
      true
      store
      (onboard_source preflight (record source { id = "t" }) store).1
onboard_source-IsOnboarded_example =
    onboard_source-IsOnboarded preflight (record source { id = "t" }) store

id_given : ◌≢◌ {A = String} "o4" ""
id_given e = absurd (ground (arith, eq_iff "o4" ""))

promoted :
    (promote_baseline_after_review "s" "o4" "o1" store).0 ≡ ok (record o4 { is_baseline = true })
unfolding promote_baseline_after_review baseline_review get_baseline get_source get_observation
    promote_baseline prune_source get put
promoted = refl

promote_baseline_after_review-IsReviewed_example :
    IsReviewed "s" "o4" "o1" store (promote_baseline_after_review "s" "o4" "o1" store).1
promote_baseline_after_review-IsReviewed_example =
    promote_baseline_after_review-IsReviewed store "s" "o4" "o1" (record o4 { is_baseline = true })
      id_given promoted

two_listed : list_observations store "s" 2 ≡ ok (o4 ∷ o3 ∷ [])
unfolding list_observations get
two_listed = refl

list_observations-IsListing_example :
    IsListing store (ids_of store.observation_ids "s") 2 (o4 ∷ o3 ∷ [])
list_observations-IsListing_example =
    list_observations-IsListing store "s" 2 (o4 ∷ o3 ∷ []) two_listed

source_known : contains "s" store.sources ≡ true
unfolding get
source_known = refl

id_new : contains "o5" store.observations ≡ false
unfolding get
id_new = refl

id_other : (candidate.observation_id == o5.id) ≡ false
id_other = refl

save_rejected-stores_example :
    let (first, left) = save_observation o5 false (some candidate) store in
    (first ≡ err (value_error "Notification candidate must belong to the saved observation"))
    × (get "o5" left.observations ≡ some o5)
    × ((save_observation o5 true none left).0
        ≡ err (value_error (concat ("Observation already exists: " ∷ "o5" ∷ []))))
save_rejected-stores_example =
    save_rejected-stores o5 false true candidate none store source_known id_new id_other
