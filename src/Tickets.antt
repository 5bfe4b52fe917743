-- ===== src/Tickets.antt =====
-- modules/tickets: workspaces, boards and tickets, who may read and change them, and the commands.
pub mod Types
pub mod Policy
pub mod Repository
pub mod Access
pub mod Validation
pub mod Notify
pub mod Commands
pub mod Rows
pub mod Guarantees
pub mod Claims
pub mod Tests
