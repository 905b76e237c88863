-- ===== src/Cases.antt =====
-- apps/api/src/modules/case-management/case.service.ts.
pub mod Opening
