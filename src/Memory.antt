-- ===== src/Memory.antt =====
-- `MemoryStore` of analystwatch/memory_store.py, the implementation of the `MonitoringStore`
-- contract (analystwatch/store.py) over dictionaries. One call runs under the store's lock, so a
-- method is one step.
mod State
mod Observations
mod Reads
mod Candidates
mod Attempts
pub use State.*
pub use Observations.*
pub use Reads.*
pub use Candidates.*
pub use Attempts.*
unfoldable pub use State.{upsert_source, get_source, list_sources, save_review, get_review}
unfoldable pub use Observations.{save_observation}
unfoldable pub use Reads.{
  get_observation, get_baseline, list_observations, get_latest, get_last_successful,
  list_reference_observations, strip_row_diff_raw_payloads, prune_row_diff_payloads,
  promote_baseline,
}
unfoldable pub use Candidates.{
  get_notification_candidate, list_notification_candidates, update_notification_candidate,
}
unfoldable pub use Attempts.{
  next_number, latest_attempt, attempt_id, plan_claim, claim_delivery_attempt,
  update_delivery_attempt, get_delivery_attempt, list_delivery_attempts,
  reconcile_prepared_delivery_attempt,
}
