-- ===== src/Reporting.antt =====
-- modules/reporting.
pub mod Csv
pub mod Contracts
pub mod Definitions
pub mod Windows
pub mod Requests
pub mod Bounds
pub mod Accepted
pub mod Defaults
pub mod Registry
pub mod Filters
pub mod Queries
pub mod Records
pub mod Snapshots
pub mod Scoped
pub mod Counts
pub mod Cells
pub mod Builders
pub mod Summaries
pub mod Service
pub mod Exports
pub mod Complete
pub mod Unchanged
pub mod Exported
pub mod Shapes
mod Tests
