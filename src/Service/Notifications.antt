-- ===== src/Service/Notifications.antt =====
-- The evaluation of pending notification candidates.
use analyst_watch.Prelude.{
  ℕ, String, not, Option, none, some, List, [], ◌∷◌, concat, is_some, if◌then◌else◌,
}
use analyst_watch.Result.{Result, ok, err, Exec, key_error}
use analyst_watch.Exec.{pure, read, ◌>>=◌}
use analyst_watch.Models.{
  NotificationCandidate, pending, candidate_state_eqb, IncidentTransition, Instant, DateTime,
  now_or_clock, IncidentSnapshot, SourceDefinition,
}
use analyst_watch.Incidents.{evaluate_notification_candidate, latest_incident}
use analyst_watch.Memory.{
  MemoryStore, get_source, list_observations, list_notification_candidates,
  update_notification_candidate,
}

-- `source = self.storage.get_source(id)`, which raises if there is none.
abbrev pub known_source : String → Exec MemoryStore SourceDefinition
known_source source_id st = elim (get_source st source_id) [
  | none ↦ (err (key_error (concat ("Unknown source: " ∷ source_id ∷ []))), st)
  | some source ↦ (ok source, st)
]

unfoldable pub incident : MemoryStore → String → Result (Option IncidentSnapshot)
incident st source_id = elim (get_source st source_id) [
  | none ↦ err (key_error (concat ("Unknown source: " ∷ source_id ∷ [])))
  | some source ↦ elim (list_observations st source_id 200) [
    | ok items ↦ ok (latest_incident items)
    | err e ↦ err e
  ]
]

unfoldable pub notification_candidates :
    MemoryStore → Option String → ℕ → Result (List NotificationCandidate)
notification_candidates st none limit = list_notification_candidates st none limit
notification_candidates st (some source_id) limit =
    if is_some (get_source st source_id)
    then list_notification_candidates st (some source_id) limit
    else err (key_error (concat ("Unknown source: " ∷ source_id ∷ [])))

-- The loop over the candidates that were listed.
unfoldable pub evaluate_each :
    List IncidentTransition
    → Instant
    → List NotificationCandidate
    → Exec MemoryStore (List NotificationCandidate)
evaluate_each enabled at [] = pure []
evaluate_each enabled at (c ∷ cs) =
    let rest = evaluate_each enabled at cs in
    if not (candidate_state_eqb c.state pending) then rest else do
      u ← update_notification_candidate (evaluate_notification_candidate c enabled at)
      us ← rest
      pure (u ∷ us)

unfoldable pub evaluate_pending_notification_candidates :
    Instant → String → Option DateTime → Exec MemoryStore (List NotificationCandidate)
unfolding evaluate_each get_source
evaluate_pending_notification_candidates clock source_id now = do
  source ← known_source source_id
  listed ← read (λ st. list_notification_candidates st (some source_id) 1000)
  evaluate_each source.config.notification_transitions (now_or_clock now clock) listed
