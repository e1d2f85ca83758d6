-- ===== src/RowDiffs.antt =====
-- analystwatch/row_diff.py: row snapshots, their comparison and the evidence of an observation. The
-- stripping of payloads stands in Memory.Reads.
pub mod Snapshots
pub mod Comparisons
pub mod Partition
pub mod Limits
pub mod Unchanged
