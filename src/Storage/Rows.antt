-- ===== src/Storage/Rows.antt =====
-- apps/api/prisma/schema.prisma: the columns that the modelled services read or write. A code
-- column holds a member of its enumeration; a `DateTime` is its time in milliseconds.
use etik_bildirim_platformu.Prelude.{ℕ, String, Bool, Option, List}
use etik_bildirim_platformu.Shared.Enums.{
  Role, ClearanceLevel, CaseState, WorkflowCommand, AuditActorType, VoteType,
}

-- `Case`
pub record CaseRow : Type 0 where
  pub id : String
  pub report_id : String
  pub current_state : CaseState
  pub confidentiality_level : ClearanceLevel
  pub company_id : String
  pub assigned_rapporteur_id : Option String
  pub assigned_action_owner_id : Option String
  pub opened_at : ℕ
  pub closed_at : Option ℕ
  pub optimistic_lock_version : ℕ

-- `Report`, as far as the opening of a case reads it. The status is any text.
pub record ReportRow : Type 0 where
  pub id : String
  pub status : String
  pub case_id : Option String
  pub company_id : String
  pub confidentiality_level : ClearanceLevel

-- `CaseTransition`
pub record TransitionRow : Type 0 where
  pub id : String
  pub case_id : String
  pub from_state : CaseState
  pub to_state : CaseState
  pub command : WorkflowCommand
  pub actor_type : AuditActorType
  pub performed_by_user_id : Option String
  pub reason_text_masked : Option String
  pub idempotency_key : String
  pub transitioned_at : ℕ

-- An active or inactive assignment of a role, `UserRole`.
pub record RoleAssignment : Type 0 where
  pub role_code : Role
  pub is_active : Bool

-- `User`, with its `rolesAssigned`.
pub record UserRow : Type 0 where
  pub id : String
  pub is_active : Bool
  pub clearance_level : ClearanceLevel
  pub roles_assigned : List RoleAssignment

-- `DecisionVote`; the encryption metadata of a reason is left out.
pub record VoteRow : Type 0 where
  pub id : String
  pub case_id : String
  pub transition_id : String
  pub voter_user_id : String
  pub vote_type : VoteType
  pub reason_text : Option String
  pub is_silent_acceptance : Bool
  pub created_by_system : Bool
  pub voted_at : ℕ
