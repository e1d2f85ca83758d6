-- ===== src/Service/Checks.antt =====
-- The check of a source, of all sources and of those due.
use analyst_watch.Prelude.{
  ℕ, ◌+◌, String, Bool, true, false, ◌&&◌, ◌||◌, not, Option, none, some, List, [], ◌∷◌, ◌++◌, ◌==◌,
  concat, leb, is_some, is_empty, if◌then◌else◌,
}
use analyst_watch.Prelude.Rational.{Rational}
use analyst_watch.Result.{Result, ok, err, Exec, value_error, key_error}
use analyst_watch.Exec.{pure, read, ◌>>=◌, ◌>>◌}
use analyst_watch.Models.{
  Observation, Finding, critical, DatasetProfile, RowSnapshot, RowDiffEvidence, MonitoringConfig,
  SourceDefinition, NotificationCandidate, Instant, DateTime, now_or_clock,
}
use analyst_watch.Incidents.{notification_candidate, evaluate_notification_candidate}
use analyst_watch.Detectors.{
  finding, detect_freshness, detect_profile_changes, health_from_findings, present,
}
use analyst_watch.DataRules.{Frame, evaluate_data_rules}
use analyst_watch.Memory.{
  MemoryStore, get_source, get_latest, get_last_successful, get_baseline,
  list_reference_observations, save_observation, list_sources,
}
use analyst_watch.Service.Decisions.{run_decision}
use analyst_watch.Service.Reviews.{prune_source}

-- What `ingest_source` returns, with what `profile_dataframe`, `build_row_snapshot` and
-- `build_row_diff_evidence` make of the data, if there are any.
pub record Dataset : Type 0 where
  pub frame : Frame
  pub profile : DatasetProfile
  pub row_snapshot : Option RowSnapshot
  pub row_diff : RowDiffEvidence

pub record Ingested : Type 0 where
  pub available : Bool
  pub dataset : Option Dataset
  pub http_status : Option ℕ
  pub response_ms : Option Rational
  pub source_modified_at : Option Instant
  pub response_etag : Option String
  pub error : Option String

-- The data that a check uses: none if the source is not available.
abbrev pub usable : Ingested → Option Dataset
usable r = if r.available then r.dataset else none

-- `if baseline and baseline.profile`
abbrev pub drift :
    Option Observation → List DatasetProfile → MonitoringConfig → DatasetProfile → List Finding
drift none history config profile = []
drift (some b) history config profile = elim b.profile [
  | none ↦ []
  | some before ↦ detect_profile_changes before profile config history
]

abbrev pub findings_of :
    MonitoringConfig
    → Ingested
    → Instant
    → Option Observation
    → List DatasetProfile
    → Option Dataset
    → List Finding
findings_of config r at baseline history none = finding critical "availability" ∷ []
findings_of config r at baseline history (some d) =
    evaluate_data_rules d.frame config.data_rules
    ++ (detect_freshness config d.profile r.source_modified_at at
        ++ drift baseline history config d.profile)

abbrev pub snapshot_of : MonitoringConfig → Option Dataset → Option RowSnapshot
snapshot_of config none = none
snapshot_of config (some d) = if is_empty config.unique_keys then none else d.row_snapshot

abbrev pub diff_of : MonitoringConfig → Option Dataset → Option RowDiffEvidence
diff_of config none = none
diff_of config (some d) = if is_empty config.unique_keys then none else some d.row_diff

abbrev pub profile_of : Option Dataset → Option DatasetProfile
profile_of none = none
profile_of (some d) = some d.profile

-- The observation of a check; `id` is the new `uuid4`.
unfoldable pub observe :
    String
    → SourceDefinition
    → Instant
    → Option Observation
    → List DatasetProfile
    → Ingested
    → Observation
unfolding detect_profile_changes evaluate_data_rules detect_freshness health_from_findings
observe id source at baseline history r =
    let findings = findings_of source.config r at baseline history (usable r) in
    record {
      id = id;
      source_id = source.id;
      observed_at = at;
      available = r.available;
      health = health_from_findings findings;
      findings = findings;
      profile = profile_of (usable r);
      row_snapshot = snapshot_of source.config (usable r);
      row_diff = diff_of source.config (usable r);
      http_status = r.http_status;
      response_ms = r.response_ms;
      source_modified_at = r.source_modified_at;
      response_etag = r.response_etag;
      error = r.error;
      is_baseline = not (is_some baseline) && r.available && is_some (profile_of (usable r));
    }

-- The candidate of the new observation, evaluated by the source's policy.
unfoldable pub decided_candidate :
    SourceDefinition → Option Observation → Observation → Option NotificationCandidate
unfolding notification_candidate evaluate_notification_candidate
decided_candidate source previous o = elim (notification_candidate previous o) [
  | none ↦ none
  | some c ↦
      some (evaluate_notification_candidate c source.config.notification_transitions o.observed_at)
]

-- What a check reads of the store before it asks the provider.
pub record Before : Type 0 where
  pub source : SourceDefinition
  pub previous : Option Observation
  pub baseline : Option Observation
  pub history : List DatasetProfile

unfoldable pub read_before : MemoryStore → String → Result Before
unfolding get_source get_latest get_last_successful get_baseline list_reference_observations
read_before st source_id = elim (get_source st source_id) [
  | none ↦ err (key_error (concat ("Unknown source: " ∷ source_id ∷ [])))
  | some source ↦
      if not source.enabled
      then err (value_error (concat ("Source is disabled: " ∷ source_id ∷ [])))
      else analyst_watch.Result.◌>>=◌ (get_latest st source_id) λ previous.
        analyst_watch.Result.◌>>=◌ (get_last_successful st source_id) λ previous_successful.
          analyst_watch.Result.◌>>=◌
            (list_reference_observations st source_id source.config.history_window_size)
            λ references. ok (record {
              source = source;
              previous = previous;
              baseline = get_baseline st source_id;
              history =
                  present (analyst_watch.Prelude.map (λ (o : Observation). o.profile) references);
            })
]

-- The check, by what was read of the store.
abbrev pub check_read :
    Instant → String → (SourceDefinition → Ingested) → Result Before → Exec MemoryStore Observation
check_read at new_id ingest (err e) st = (err e, st)
check_read at new_id ingest (ok b) st =
    let o = observe new_id b.source at b.baseline b.history (ingest b.source) in
    (do
      save_observation o o.is_baseline (decided_candidate b.source b.previous o)
      prune_source b.source
      pure o)
      st

unfoldable pub check_source :
    Instant
    → String
    → (SourceDefinition → Ingested)
    → String
    → Option DateTime
    → Exec MemoryStore Observation
check_source clock new_id ingest source_id now st =
    check_read (now_or_clock now clock) new_id ingest (read_before st source_id) st

-- The loop of `check_all_sources` over the sources listed; an error ends it. `new_id` gives each
-- source the id of its new observation.
unfoldable pub check_each :
    Instant
    → (String → String)
    → (SourceDefinition → Ingested)
    → Option DateTime
    → List SourceDefinition
    → Exec MemoryStore (List Observation)
unfolding check_source
check_each clock new_id ingest now [] = pure []
check_each clock new_id ingest now (s ∷ ss) =
    let rest = check_each clock new_id ingest now ss in
    if s.enabled
    then (do o ← check_source clock (new_id s.id) ingest s.id now; os ← rest; pure (o ∷ os))
    else rest

unfoldable pub check_all_sources :
    Instant
    → (String → String)
    → (SourceDefinition → Ingested)
    → Option DateTime
    → Exec MemoryStore (List Observation)
unfolding check_each list_sources
check_all_sources clock new_id ingest now st =
    check_each clock new_id ingest now (list_sources st) st

-- The loop of `check_due_sources`: the decision is read from the store as the checks before left it.
unfoldable pub check_each_due :
    Instant
    → (String → String)
    → (SourceDefinition → Ingested)
    → Option DateTime
    → List SourceDefinition
    → Exec MemoryStore (List Observation)
unfolding check_source run_decision
check_each_due clock new_id ingest now [] = pure []
check_each_due clock new_id ingest now (s ∷ ss) =
    let rest = check_each_due clock new_id ingest now ss in
    do
      d ← read (λ st. run_decision clock st s now)
      if d.due
          then (do o ← check_source clock (new_id s.id) ingest s.id now; os ← rest; pure (o ∷ os))
          else rest

unfoldable pub check_due_sources :
    Instant
    → (String → String)
    → (SourceDefinition → Ingested)
    → Option DateTime
    → Exec MemoryStore (List Observation)
unfolding check_each_due list_sources
check_due_sources clock new_id ingest now st =
    check_each_due clock new_id ingest now (list_sources st) st
