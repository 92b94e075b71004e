-- ===== src/Gomod.antt =====
-- internal/gomod: the minimal version selection of Go modules, and the rounds that fetch metadata.
pub mod Types
pub mod Versions
pub mod Modes
pub mod Promotion
pub mod Visits
pub mod Propagation
pub mod Choosing
pub mod Highest
pub mod Selecting
pub mod Computing
pub mod Select
pub mod Fetched
pub mod Tests
