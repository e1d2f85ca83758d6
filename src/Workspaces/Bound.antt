-- ===== src/Workspaces/Bound.antt =====
-- What `WorkspaceStore` of analystwatch/workspace.py reads: the store in memory as one workspace
-- sees it. The delegate is a `MemoryStore`.
use analyst_watch.Prelude.{
  ℕ, String, Bool, false, not, Option, none, some, List, [], ◌==◌, is_some, select, if◌then◌else◌,
}
use analyst_watch.Result.{Result, ok, ◌>>=◌}
use analyst_watch.Models.{
  SourceDefinition, Observation, ObservationReview, NotificationCandidate, DeliveryAttempt,
}
use analyst_watch.Memory
use analyst_watch.Memory.{MemoryStore}

-- `None` unless the test holds of what was found.
abbrev pub visible {ℓ} : {A : Type ℓ} → (A → Bool) → Option A → Option A
visible p none = none
visible p (some a) = if p a then some a else none

module _ (workspace_id : String) where
  -- `_owns_source`
  unfoldable pub owns_source : Option SourceDefinition → Bool
  owns_source none = false
  owns_source (some source) = source.workspace_id == workspace_id

  unfoldable pub get_source : MemoryStore → String → Option SourceDefinition
  unfolding owns_source
  get_source st source_id =
      let source = Memory.get_source st source_id in if owns_source source then source else none

  unfoldable pub list_sources : MemoryStore → List SourceDefinition
  unfolding owns_source
  list_sources st =
      select (λ (source : SourceDefinition). owns_source (some source)) (Memory.list_sources st)

  -- `self.get_source(source_id) is not None`
  abbrev pub sees : MemoryStore → String → Bool
  sees st source_id = is_some (get_source st source_id)

  unfoldable pub get_observation : MemoryStore → String → Option Observation
  get_observation st observation_id =
      visible (λ (o : Observation). sees st o.source_id) (Memory.get_observation st observation_id)

  unfoldable pub get_baseline : MemoryStore → String → Option Observation
  get_baseline st source_id = if sees st source_id then Memory.get_baseline st source_id else none

  unfoldable pub get_latest : MemoryStore → String → Result (Option Observation)
  get_latest st source_id = if sees st source_id then Memory.get_latest st source_id else ok none

  unfoldable pub get_last_successful : MemoryStore → String → Result (Option Observation)
  get_last_successful st source_id =
      if sees st source_id then Memory.get_last_successful st source_id else ok none

  unfoldable pub list_reference_observations : MemoryStore → String → ℕ → Result (List Observation)
  list_reference_observations st source_id limit =
      if sees st source_id then Memory.list_reference_observations st source_id limit else ok []

  unfoldable pub list_observations : MemoryStore → String → ℕ → Result (List Observation)
  list_observations st source_id limit =
      if sees st source_id then Memory.list_observations st source_id limit else ok []

  unfoldable pub get_review : MemoryStore → String → Option ObservationReview
  get_review st observation_id =
      if is_some (get_observation st observation_id)
      then Memory.get_review st observation_id
      else none

  unfoldable pub get_notification_candidate : MemoryStore → String → Option NotificationCandidate
  get_notification_candidate st candidate_id =
      visible (λ (c : NotificationCandidate). sees st c.source_id)
        (Memory.get_notification_candidate st candidate_id)

  -- The limit counts the candidates of all workspaces.
  unfoldable pub list_notification_candidates :
      MemoryStore → Option String → ℕ → Result (List NotificationCandidate)
  list_notification_candidates st none limit = do
    items ← Memory.list_notification_candidates st none limit
    ok (select (λ (c : NotificationCandidate). sees st c.source_id) items)
  list_notification_candidates st (some source_id) limit =
      if sees st source_id
      then Memory.list_notification_candidates st (some source_id) limit
      else ok []

  unfoldable pub get_delivery_attempt : MemoryStore → String → Option DeliveryAttempt
  get_delivery_attempt st attempt_id =
      visible (λ (a : DeliveryAttempt). sees st a.source_id)
        (Memory.get_delivery_attempt st attempt_id)

  -- A filter that is not given asks nothing.
  abbrev pub given_and_unseen : (String → Bool) → Option String → Bool
  given_and_unseen seen none = false
  given_and_unseen seen (some id) = not (seen id)

  unfoldable pub list_delivery_attempts :
      MemoryStore → Option String → Option String → ℕ → Result (List DeliveryAttempt)
  list_delivery_attempts st candidate_id source_id limit =
      if given_and_unseen (sees st) source_id
      then ok []
      else if given_and_unseen (λ id. is_some (get_notification_candidate st id)) candidate_id
      then ok []
      else do
        items ← Memory.list_delivery_attempts st candidate_id source_id limit
        ok (select (λ (a : DeliveryAttempt). sees st a.source_id) items)
