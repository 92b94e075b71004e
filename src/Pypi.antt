-- ===== src/Pypi.antt =====
-- internal/pypi/version.go: versions of Python packages by PEP 440, and their order.
pub mod Versions
pub mod Coherence
pub mod Order
pub mod Clauses
pub mod Compatible
pub mod VersionTests
