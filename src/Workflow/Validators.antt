-- ===== src/Workflow/Validators.antt =====
-- apps/api/src/modules/case-management/transition/transition.validators.ts and the input types of
-- transition.types.ts.
pub mod Allowed
use etik_bildirim_platformu.Prelude.{
  ℕ, String, Bool, true, false, ◌&&◌, ◌||◌, not, Option, none, some, List, [], ◌∷◌, ◌===◌,
  string_eq, option_eq, truthy, if◌then◌else◌, any, includes, Outcome, ok, throw, ◌>>=◌, ◌>>◌,
  require,
}
use etik_bildirim_platformu.Shared.Enums.{
  Role, Role-discrete, role_eq, ClearanceLevel, AuditActorType, user, system, anonymous,
  WorkflowCommand, assign_rapporteur, submit_rapporteur_report, assign_action, follow_up_reassign,
  member_objection, submit_to_board_review,
}
use etik_bildirim_platformu.Shared.Errors.{ErrorCode, authz_forbidden, validation_failed}
use etik_bildirim_platformu.Storage.Rows.{CaseRow}
use etik_bildirim_platformu.Policy.Clearance.{is_clearance_sufficient}
use etik_bildirim_platformu.Workflow.Map.{
  AssignmentScope, rapporteur_scope, action_owner_scope, TransitionDefinition,
}
use etik_bildirim_platformu.Workflow.Text.{codes, trim, is_blank, is_cuid, is_uuid_v4}

-- A value of `Record<string, unknown>`: a text, or anything else.
pub data MetadataValue : Type 0 where
  text : String → MetadataValue
  other : MetadataValue

-- Metadata that is left out has no fields.
abbrev pub Metadata : Type 0
Metadata = List (String × MetadataValue)

pub record TransitionActor : Type 0 where
  pub kind : AuditActorType
  pub user_id : Option String
  pub roles : List Role
  pub clearance_level : ClearanceLevel

pub record TransitionValidationContext : Type 0 where
  pub case_entity : CaseRow
  pub command : WorkflowCommand
  pub definition : TransitionDefinition
  pub actor : TransitionActor
  pub reason : Option String
  pub metadata : Metadata

abbrev pub is_system : AuditActorType → Bool
is_system system = true
is_system _ = false

unfoldable pub is_system_actor_allowed : TransitionActor → TransitionDefinition → Bool
is_system_actor_allowed actor definition = is_system actor.kind && definition.system_allowed

abbrev pub is_exempt : TransitionActor → TransitionDefinition → Bool
is_exempt actor definition =
    definition.is_system_command || is_system_actor_allowed actor definition

unfoldable pub validate_clearance :
    TransitionActor → TransitionDefinition → CaseRow → Outcome ErrorCode (Unit {0})
validate_clearance actor definition case_entity =
    require
      (is_exempt actor definition
        || is_clearance_sufficient actor.clearance_level case_entity.confidentiality_level)
      authz_forbidden

abbrev pub has_any_role : List Role → List Role → Bool
has_any_role [] roles = true
has_any_role (first ∷ rest) roles = any (λ role. includes role roles) (first ∷ rest)

unfoldable pub validate_role : TransitionActor → TransitionDefinition → Outcome ErrorCode (Unit {0})
unfolding Role-discrete
validate_role actor definition =
    require (is_exempt actor definition || has_any_role definition.required_roles actor.roles)
      authz_forbidden

abbrev pub assignee : AssignmentScope → CaseRow → Option String
assignee rapporteur_scope case_entity = case_entity.assigned_rapporteur_id
assignee action_owner_scope case_entity = case_entity.assigned_action_owner_id

abbrev pub assigned_to : Option AssignmentScope → Option String → CaseRow → Bool
assigned_to none user_id case_entity = true
assigned_to (some scope) none case_entity = true
assigned_to (some scope) (some id) case_entity = assignee scope case_entity === some id

unfoldable pub validate_assignment :
    TransitionActor → TransitionDefinition → CaseRow → Outcome ErrorCode (Unit {0})
validate_assignment actor definition case_entity =
    require (assigned_to definition.requires_assignment (truthy actor.user_id) case_entity)
      authz_forbidden

abbrev pub has_text : Option String → Bool
has_text none = false
has_text (some t) = not (is_blank t)

unfoldable pub validate_reason : TransitionDefinition → Option String → Outcome ErrorCode (Unit {0})
validate_reason definition reason =
    require (not definition.requires_reason || has_text reason) validation_failed

-- `typeof metadata?.[field] === 'string'`
unfoldable pub metadata_text : Metadata → String → Option String
metadata_text [] field = none
metadata_text ((key, text value) ∷ entries) field =
    if key === field then some value else metadata_text entries field
metadata_text ((key, other) ∷ entries) field =
    if key === field then none else metadata_text entries field

unfoldable pub require_metadata_string : Metadata → String → Outcome ErrorCode (List ℕ)
require_metadata_string metadata field = elim (metadata_text metadata field) [
  | none ↦ throw validation_failed
  | some value ↦ if is_blank value then throw validation_failed else ok (trim (codes value))
]

unfoldable pub require_metadata_user_id : Metadata → String → Outcome ErrorCode (List ℕ)
unfolding require_metadata_string
require_metadata_user_id metadata field = do
  value ← require_metadata_string metadata field
  require (is_cuid value || is_uuid_v4 value) validation_failed
  ok value

abbrev pub done : Outcome ErrorCode (List ℕ) → Outcome ErrorCode (Unit {0})
done result = result >>= λ _. ok tt

unfoldable pub validate_preconditions : WorkflowCommand → Metadata → Outcome ErrorCode (Unit {0})
unfolding require_metadata_user_id
validate_preconditions assign_rapporteur metadata =
    done (require_metadata_user_id metadata "rapporteurUserId")
validate_preconditions submit_rapporteur_report metadata =
    done (require_metadata_user_id metadata "rapporteurReportDocumentId")
validate_preconditions assign_action metadata =
    done (require_metadata_user_id metadata "actionOwnerUserId")
validate_preconditions follow_up_reassign metadata =
    done (require_metadata_user_id metadata "actionOwnerUserId")
validate_preconditions member_objection metadata =
    done (require_metadata_string metadata "objectionSummary")
validate_preconditions submit_to_board_review metadata =
    done (require_metadata_user_id metadata "decisionDocumentId")
validate_preconditions _ metadata = ok tt

unfoldable pub validate : TransitionValidationContext → Outcome ErrorCode (Unit {0})
unfolding validate_clearance validate_role validate_assignment validate_reason
validate context = do
  validate_clearance context.actor context.definition context.case_entity
  validate_role context.actor context.definition
  validate_assignment context.actor context.definition context.case_entity
  validate_reason context.definition context.reason
  validate_preconditions context.command context.metadata
