-- ===== src/QueueStore.antt =====
-- internal/store/postgres/postgres.go: the store of a single process, over the table of jobs.
pub mod Operations
pub mod Acquiring
pub mod Contract
pub mod Tests
