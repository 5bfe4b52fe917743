-- ===== src/Scheduling.antt =====
-- modules/scheduling.
pub mod Repository
pub mod Checks
pub mod Service
pub mod Publication
pub mod Fitness
pub mod Publications
pub mod Lifecycle
pub mod Stages
pub mod Planned
pub mod Rivals
pub mod Replacement
pub mod Replaced
pub mod Replacing
mod Tests
