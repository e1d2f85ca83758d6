-- ===== src/Workspaces/Calls.antt =====
-- What `WorkspaceStore` of analystwatch/workspace.py changes. A method tests what the workspace
-- owns, and calls the method of the same name of the store in memory.
use analyst_watch.Prelude.{
  String, Bool, false, not, Option, none, some, List, [], ◌∷◌, ◌==◌, concat, is_some,
}
use analyst_watch.Result.{Result, ok, err, value_error, key_error, Exec, require, ◌>>◌}
use analyst_watch.Models.{
  SourceDefinition, Observation, ObservationReview, NotificationCandidate, DeliveryAttempt,
  DeliveryAttemptState, Instant,
}
use analyst_watch.Memory
use analyst_watch.Memory.{MemoryStore, Claim}
use analyst_watch.Workspaces.Bound
use analyst_watch.Workspaces.Bound.{owns_source}

-- The tests raise, or the delegate is called.
unfoldable pub guarded : {A : Type 0} → Result (Unit {0}) → Exec MemoryStore A → Exec MemoryStore A
guarded (err e) call st = (err e, st)
guarded (ok u) call st = call st

module _ (workspace_id : String) where
  -- `_require_source`; no caller uses the source that it returns.
  unfoldable pub require_source : MemoryStore → String → Result (Unit {0})
  require_source st source_id =
      require (owns_source workspace_id (Memory.get_source st source_id))
        (key_error (concat ("Unknown source in workspace " ∷ workspace_id ∷ ": " ∷ source_id ∷ [])))

  abbrev pub owned_elsewhere : Option SourceDefinition → Bool
  owned_elsewhere none = false
  owned_elsewhere (some source) = not (source.workspace_id == workspace_id)

  unfoldable pub may_upsert : SourceDefinition → MemoryStore → Result (Unit {0})
  may_upsert source st = do
    require (source.workspace_id == workspace_id) (
        value_error (
          concat (
            "Source workspace '" ∷ source.workspace_id ∷ "' does not match bound workspace '"
            ∷ workspace_id ∷ "'" ∷ [])))
    require (not (owned_elsewhere (Memory.get_source st source.id)))
        (value_error "Source ID is already owned by another workspace")

  unfoldable pub upsert_source : SourceDefinition → Exec MemoryStore (Unit {0})
  upsert_source source st = guarded (may_upsert source st) (Memory.upsert_source source) st

  abbrev pub check_candidate :
      MemoryStore → Observation → Option NotificationCandidate → Result (Unit {0})
  check_candidate st o none = ok tt
  check_candidate st o (some candidate) = do
    require (candidate.source_id == o.source_id)
        (value_error "Notification candidate must belong to the observation source")
    require_source st candidate.source_id

  unfoldable pub may_save :
      Observation → Option NotificationCandidate → MemoryStore → Result (Unit {0})
  may_save o candidate st = do require_source st o.source_id; check_candidate st o candidate

  unfoldable pub save_observation :
      Observation → Bool → Option NotificationCandidate → Exec MemoryStore (Unit {0})
  save_observation o set_baseline candidate st =
      guarded (may_save o candidate st) (Memory.save_observation o set_baseline candidate) st

  -- The observation is one of this workspace and of the source.
  abbrev pub belongs : String → Option Observation → Bool
  belongs source_id none = false
  belongs source_id (some o) = o.source_id == source_id

  abbrev pub check_kept : MemoryStore → String → List String → Result (Unit {0})
  check_kept st source_id [] = ok tt
  check_kept st source_id (k ∷ ks) = do
    require (belongs source_id (Bound.get_observation workspace_id st k))
        (value_error "Retained row-diff observation does not belong to this workspace/source")
    check_kept st source_id ks

  unfoldable pub may_prune : String → List String → MemoryStore → Result (Unit {0})
  may_prune source_id keep st = do require_source st source_id; check_kept st source_id keep

  unfoldable pub prune_row_diff_payloads : String → List String → Exec MemoryStore (Unit {0})
  prune_row_diff_payloads source_id keep st =
      guarded (may_prune source_id keep st) (Memory.prune_row_diff_payloads source_id keep) st

  unfoldable pub may_review : ObservationReview → MemoryStore → Result (Unit {0})
  may_review review st = do
    require_source st review.source_id
    require (belongs review.source_id (Bound.get_observation workspace_id st review.observation_id))
        (value_error "Observation review does not belong to this workspace/source")

  unfoldable pub save_review : ObservationReview → Exec MemoryStore ObservationReview
  save_review review st = guarded (may_review review st) (Memory.save_review review) st

  unfoldable pub may_update_candidate : NotificationCandidate → MemoryStore → Result (Unit {0})
  may_update_candidate candidate st = do
    require_source st candidate.source_id
    require (is_some (Bound.get_notification_candidate workspace_id st candidate.id))
        (value_error (concat ("Unknown notification candidate: " ∷ candidate.id ∷ [])))

  unfoldable pub update_notification_candidate :
      NotificationCandidate → Exec MemoryStore NotificationCandidate
  update_notification_candidate candidate st =
      guarded (may_update_candidate candidate st) (Memory.update_notification_candidate candidate)
        st

  unfoldable pub may_claim : Claim → MemoryStore → Result (Unit {0})
  may_claim c st =
      require (is_some (Bound.get_notification_candidate workspace_id st c.candidate_id)) (
        key_error (
          concat (
            "Unknown notification candidate in workspace " ∷ workspace_id ∷ ": " ∷ c.candidate_id
            ∷ [])))

  unfoldable pub claim_delivery_attempt : Claim → Exec MemoryStore (DeliveryAttempt × Bool)
  claim_delivery_attempt c st = guarded (may_claim c st) (Memory.claim_delivery_attempt c) st

  unfoldable pub may_update_attempt : DeliveryAttempt → MemoryStore → Result (Unit {0})
  may_update_attempt attempt st = do
    require_source st attempt.source_id
    require (is_some (Bound.get_delivery_attempt workspace_id st attempt.id))
        (value_error (concat ("Unknown delivery attempt: " ∷ attempt.id ∷ [])))

  unfoldable pub update_delivery_attempt : DeliveryAttempt → Exec MemoryStore DeliveryAttempt
  update_delivery_attempt attempt st =
      guarded (may_update_attempt attempt st) (Memory.update_delivery_attempt attempt) st

  unfoldable pub may_reconcile : String → MemoryStore → Result (Unit {0})
  may_reconcile attempt_id st =
      require (is_some (Bound.get_delivery_attempt workspace_id st attempt_id)) (
        key_error (
          concat
            ("Unknown delivery attempt in workspace " ∷ workspace_id ∷ ": " ∷ attempt_id ∷ [])))

  unfoldable pub reconcile_prepared_delivery_attempt :
      String
      → DeliveryAttemptState
      → Instant
      → String
      → Option String
      → Exec MemoryStore DeliveryAttempt
  reconcile_prepared_delivery_attempt attempt_id outcome at note by st =
      guarded (may_reconcile attempt_id st)
        (Memory.reconcile_prepared_delivery_attempt attempt_id outcome at note by) st

  unfoldable pub may_promote : String → String → MemoryStore → Result (Unit {0})
  may_promote source_id observation_id st = do
    require_source st source_id
    require (belongs source_id (Bound.get_observation workspace_id st observation_id))
        (value_error "Observation does not belong to this workspace/source")

  unfoldable pub promote_baseline : String → String → Exec MemoryStore Observation
  promote_baseline source_id observation_id st =
      guarded (may_promote source_id observation_id st)
        (Memory.promote_baseline source_id observation_id) st
