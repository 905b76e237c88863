-- ===== src/Workflow.antt =====
-- apps/api/src/modules/case-management/transition: the state machine of a case.
pub mod Map
pub mod Graph
pub mod Runs
pub mod Gates
pub mod Text
pub mod Validators
pub mod Records
pub mod Permitted
pub mod Engine
