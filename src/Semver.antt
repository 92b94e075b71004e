-- ===== src/Semver.antt =====
-- internal/semver: ranges of semantic versions, over github.com/Masterminds/semver.
pub mod Ranges
pub mod Highest
pub mod Tests
