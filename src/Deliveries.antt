-- ===== src/Deliveries.antt =====
-- The delivery methods of `MonitorService` (analystwatch/service.py) over many calls.
pub mod Keeps
pub mod Runs
pub mod Leaves
pub mod Replays
pub mod Retries
