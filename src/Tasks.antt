-- ===== src/Tasks.antt =====
-- apps/api/src/modules/task: the tasks of a case.
pub mod Catalog
pub mod Records
pub mod Creation
pub mod Requests
pub mod Service
