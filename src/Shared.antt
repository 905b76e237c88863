-- ===== src/Shared.antt =====
-- packages/shared: the enumerations and the rules that the applications share.
pub mod Enums
pub mod Errors
