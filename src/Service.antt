-- ===== src/Service.antt =====
-- `MonitorService` of analystwatch/service.py over `MemoryStore`, with analystwatch/scheduler.py and
-- analystwatch/delivery.py. A method is an action on the store. The clock, the new observation's
-- id, the provider's answer and the preflight's verdict are arguments.
mod Sources
mod Reviews
mod Notifications
mod Deliveries
mod Retries
mod Decisions
mod Checks
pub use Sources.*
pub use Reviews.*
pub use Notifications.*
pub use Deliveries.*
pub use Retries.*
pub use Decisions.*
pub use Checks.*
unfoldable pub use Sources.{
  validate_execution_owner, add_source, add_sources, onboard_source, update_source,
}
unfoldable pub use Reviews.{
  review_observation, baseline_review, prune_source, promote_baseline_after_review,
}
unfoldable pub use Notifications.{
  incident, notification_candidates, evaluate_each, evaluate_pending_notification_candidates,
}
unfoldable pub use Deliveries.{reconcile_delivery_attempt, dry_run_delivery}
unfoldable pub use Checks.{
  observe, decided_candidate, read_before, check_source, check_each, check_all_sources,
  check_each_due, check_due_sources,
}
unfoldable pub use Retries.{delivery_retry_decision}
unfoldable pub use Decisions.{run_decision}
