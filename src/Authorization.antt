-- ===== src/Authorization.antt =====
-- modules/authorization: role capabilities, scope checks on them, operational scopes, and the scope
-- that reports resolve.
pub mod Capabilities
pub mod Operational
pub mod Resolved
pub mod Laws
pub mod Tests
