-- ===== src/Detectors.antt =====
-- analystwatch/detectors.py: what changed between a baseline profile and the current one. A
-- finding keeps its severity, detector and confidence; texts and evidence values are left out.
mod Reference
mod Columns
mod Numeric
pub mod Severity
pub mod Thresholds
pub use Reference.*
pub use Columns.*
pub use Numeric.*
unfoldable pub use Reference.{historical_reference, detect_freshness, health_from_findings}
unfoldable pub use Columns.{detect_schema, detect_row_count, detect_nulls, detect_uniqueness}
unfoldable pub use Numeric.{detect_numeric, detect_categories, detect_profile_changes}
