-- ===== src/Employees.antt =====
-- modules/employees.
pub mod Policy
pub mod Laws
pub mod Tests
