-- ===== src/Persistence.antt =====
-- What `MemoryStore` guarantees (analystwatch/memory_store.py).
pub mod Settled
pub mod Writes
pub mod Claims
pub mod Saves
pub mod Rejections
pub mod Pruning
pub mod Listing
