-- ===== src/Leave.antt =====
-- modules/leave.
pub mod DateRules
pub mod Repository
pub mod Service
pub mod Rules
pub mod Applied
pub mod Rows
pub mod Guarantees
pub mod Allowance
pub mod Preview
pub mod Tests
