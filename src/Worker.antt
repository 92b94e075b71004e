-- ===== src/Worker.antt =====
-- internal/worker/pool.go, with internal/queue and internal/dlq in memory: workers that take jobs from
-- a queue, retry them, and feed what they find back into it.
pub mod Pool
pub mod Steps
pub mod Accounting
pub mod Finishing
pub mod Tests
