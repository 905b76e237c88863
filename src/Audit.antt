-- ===== src/Audit.antt =====
-- apps/api/src/audit and the audit jobs of apps/worker/src: the audit trail.
pub mod Metadata
pub mod Events
pub mod Publisher
pub mod Chain
pub mod Spread
pub mod Dispatch
