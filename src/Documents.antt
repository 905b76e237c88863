-- ===== src/Documents.antt =====
-- apps/api/src/modules/document/document-access.service.ts: who is granted access to a document.
pub mod Records
pub mod Access
