-- ===== src/Decision.antt =====
-- apps/api/src/modules/decision/decision.service.ts: the votes of the council's members.
pub mod Unanimity
pub mod Requests
pub mod Voting
