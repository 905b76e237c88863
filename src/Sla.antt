-- ===== src/Sla.antt =====
-- Deadlines: packages/shared/src/sla and apps/api/src/modules/task/sla.
pub mod Window
pub mod Calendar
pub mod Calculator
