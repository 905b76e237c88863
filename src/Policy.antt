-- ===== src/Policy.antt =====
-- packages/policy and apps/api/src/authorization: who may do and see what.
pub mod Clearance
pub mod Permissions
pub mod Abac
pub mod User
pub mod Scope
pub mod Fields
