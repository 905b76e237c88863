-- ===== src/Examples.antt =====
-- The theorems at concrete inputs, and runs of the definitions.
mod PolicyExamples
mod WorkflowExamples
mod EngineExamples
mod GrantExamples
mod NotificationExamples
mod AuditExamples
mod AuditJobExamples
mod TaskExamples
mod VoteExamples
mod TaskRuns
mod TaskServiceExamples
mod AdminExamples
