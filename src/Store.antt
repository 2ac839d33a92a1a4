-- ===== src/Store.antt =====
-- internal/core/store/store.go: the in-memory database below every service.
pub mod Value
pub mod Index
pub mod Fields
pub mod Collection
pub mod Snapshot
pub mod Database
