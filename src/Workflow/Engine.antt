-- ===== src/Workflow/Engine.antt =====
-- apps/api/src/modules/case-management/transition/transition.service.ts and the result types of
-- transition.types.ts. A transaction that throws leaves no state behind, so an error carries none.
pub mod Outcomes
pub mod Accepted
pub mod Effects
pub mod Replay
pub mod Competing
pub mod History
pub mod Reachable
use etik_bildirim_platformu.Workflow.Records.{
  ExecuteTransitionInput, TransitionTaskStub, TransitionResult, Snapshot, Fresh, to_result, or_kept,
  assign, moved, transition_row, transition_event, same_transition_key,
}
use Prim.Native.String
use etik_bildirim_platformu.Prelude.{
  ℕ, ◌+◌, String, Bool, true, false, ◌&&◌, ◌||◌, not, Option, none, some, List, [], ◌∷◌, ◌===◌,
  string_eq, option_eq, nat_beq, any, if◌then◌else◌, Outcome, ok, throw, ◌>>=◌, ◌>>◌, require,
  is_some,
}
use etik_bildirim_platformu.Shared.Enums.{
  Role, rapporteur, action_owner, Role-discrete, role_eq, ClearanceLevel, CaseState,
  CaseState-discrete, case_state_eq, AuditActorType, WorkflowCommand, WorkflowCommand-discrete,
  workflow_command_eq, assign_rapporteur, assign_action, follow_up_reassign, create_decision_draft,
  case_state_code, workflow_command_code,
}
use etik_bildirim_platformu.Shared.Errors.{
  ErrorCode, resource_not_found, validation_failed, case_invalid_transition, case_optimistic_lock,
  case_precondition_failed, decision_unanimity_not_met, client_p2002, client_p2025,
}
use etik_bildirim_platformu.Storage.Rows.{CaseRow, TransitionRow, RoleAssignment, UserRow}
use etik_bildirim_platformu.Storage.Table.{find_first, create}
use etik_bildirim_platformu.Storage.World.{Tables, World}
use etik_bildirim_platformu.Policy.Clearance.{is_clearance_sufficient}
use etik_bildirim_platformu.Audit.Events.{case_transition, success}
use etik_bildirim_platformu.Audit.Metadata.{Json, scalar, object, field, end}
use etik_bildirim_platformu.Audit.Publisher.{PublishAuditEventInput, publish}
use etik_bildirim_platformu.Decision.Unanimity.{holds_role, is_unanimity_complete}
use etik_bildirim_platformu.Workflow.Map.{TransitionDefinition, resolve_transition}
use etik_bildirim_platformu.Workflow.Validators.{
  Metadata, metadata_text, TransitionActor, TransitionValidationContext, has_text, validate,
}

abbrev pub or_throw {ℓ} : {A : Type ℓ} → ErrorCode → Option A → Outcome ErrorCode A
or_throw e none = throw e
or_throw e (some a) = ok a

-- `TransitionSideEffectPort`: grants, tasks and notifications, from the context and the created
-- transition.
abbrev pub SideEffects : Tables → Type 0
SideEffects t =
    World t
    → ExecuteTransitionInput
    → TransitionValidationContext
    → TransitionRow
    → Outcome ErrorCode (List TransitionTaskStub × t.Rest)

module _ (t : Tables) where
  abbrev pub find_case : World t → String → Option CaseRow
  find_case w id = find_first t.cases (λ row. row.id === id) w.cases

  abbrev pub find_transition : World t → String → Option TransitionRow
  find_transition w key =
      find_first t.transitions (λ row. row.idempotency_key === key) w.transitions

  unfoldable pub is_active_user_with_role : World t → String → Role → Bool
  unfolding Role-discrete
  is_active_user_with_role w id role = is_some (
      find_first t.users
        (λ row. row.id === id && row.is_active && any (holds_role role) row.roles_assigned) w.users)

  unfoldable pub is_user_cleared : World t → String → ClearanceLevel → Bool
  is_user_cleared w id level = elim (find_first t.users (λ row. row.id === id) w.users) [
    | none ↦ false
    | some row ↦ is_clearance_sufficient row.clearance_level level
  ]

  -- The two checks of a user who is to be assigned; metadata without a text skips both.
  unfoldable pub check_assignee :
      World t → Option String → Role → ClearanceLevel → Outcome ErrorCode (Unit {0})
  check_assignee w none role level = ok tt
  check_assignee w (some id) role level = do
    require (is_active_user_with_role w id role) case_precondition_failed
    require (is_user_cleared w id level) case_precondition_failed

  unfoldable pub validate_async_preconditions :
      World t → WorkflowCommand → Metadata → CaseRow → Outcome ErrorCode (Unit {0})
  unfolding check_assignee
  validate_async_preconditions w assign_rapporteur metadata row =
      check_assignee w (metadata_text metadata "rapporteurUserId") rapporteur
        row.confidentiality_level
  validate_async_preconditions w assign_action metadata row =
      check_assignee w (metadata_text metadata "actionOwnerUserId") action_owner
        row.confidentiality_level
  validate_async_preconditions w follow_up_reassign metadata row =
      check_assignee w (metadata_text metadata "actionOwnerUserId") action_owner
        row.confidentiality_level
  validate_async_preconditions w create_decision_draft metadata row =
      require (is_unanimity_complete t w row.id) decision_unanimity_not_met
  validate_async_preconditions w _ metadata row = ok tt

  -- `case.update({ where: { id, optimisticLockVersion } })`
  unfoldable pub update_case : World t → CaseRow → (CaseRow → CaseRow) → Outcome ErrorCode (World t)
  update_case w row change =
      let chosen = λ (r : CaseRow).
        r.id === row.id && nat_beq r.optimistic_lock_version row.optimistic_lock_version in
      elim (find_first t.cases chosen w.cases) [
        | none ↦ throw client_p2025
        | some _ ↦ ok (record w { cases = t.cases.update chosen change w.cases })
      ]

  unfoldable pub create_transition : World t → TransitionRow → Outcome ErrorCode (World t)
  create_transition w row = elim (create t.transitions same_transition_key row w.transitions) [
    | none ↦ throw client_p2002
    | some store ↦ ok (record w { transitions = store })
  ]

  module _ (side_effects : SideEffects t) (fresh : Fresh) (input : ExecuteTransitionInput) where
    abbrev pub context_of : TransitionDefinition → CaseRow → TransitionValidationContext
    context_of definition row = record {
      case_entity = row;
      command = input.command;
      definition = definition;
      actor = input.actor;
      reason = input.reason;
      metadata = input.metadata;
    }

    -- The writes, in the order of the source.
    unfoldable pub apply_transition :
        World t
        → Snapshot
        → TransitionDefinition
        → CaseRow
        → Outcome ErrorCode (TransitionResult × World t)
    unfolding transition_event update_case create_transition
    apply_transition w snapshot definition row = do
      let created = transition_row fresh input definition row.current_state
      updated ← update_case w row (moved fresh.now input definition)
      recorded ← create_transition updated created
      effects ← side_effects recorded input (context_of definition row) created
      outbox ←
          publish t.outbox fresh.outbox_id fresh.now (transition_event input snapshot created)
            recorded.outbox
      ok (
        to_result created (row.optimistic_lock_version + 1) false effects.0,
        record recorded { outbox = outbox; rest = effects.1 },
      )

    -- The checks and the writes for a case that was found.
    unfoldable pub transition_case :
        World t → Snapshot → CaseRow → Outcome ErrorCode (TransitionResult × World t)
    unfolding CaseState-discrete
    transition_case w snapshot row = do
      require
          (row.current_state === snapshot.snapshot_state
            && nat_beq row.optimistic_lock_version snapshot.snapshot_version)
          case_optimistic_lock
      definition ←
          or_throw case_invalid_transition (resolve_transition row.current_state input.command)
      validate (context_of definition row)
      validate_async_preconditions w input.command input.metadata row
      apply_transition w snapshot definition row

    unfoldable pub execute_in_transaction :
        World t → Snapshot → Outcome ErrorCode (TransitionResult × World t)
    execute_in_transaction w snapshot = elim (find_transition w input.idempotency_key) [
      | some existing ↦ elim (find_case w existing.case_id) [
        | none ↦ throw resource_not_found
        | some row ↦ ok (to_result existing row.optimistic_lock_version true [], w)
      ]
      | none ↦ elim (find_case w input.case_id) [
        | none ↦ throw resource_not_found
        | some row ↦ transition_case w snapshot row
      ]
    ]

    -- `catch`: the client's P2025 is reported as a lost lock.
    abbrev pub lock_lost {ℓ} : {A : Type ℓ} → Outcome ErrorCode A → Outcome ErrorCode A
    lock_lost (throw client_p2025) = throw case_optimistic_lock
    lock_lost result = result

    abbrev pub snapshot_of : CaseRow → Snapshot
    snapshot_of row = record {
      snapshot_state = row.current_state;
      snapshot_version = row.optimistic_lock_version;
      company_id = row.company_id;
    }

    -- The reads before the transaction see `before`; the transaction, which waits for the case's
    -- advisory lock, runs on `now`.
    unfoldable pub execute : World t → World t → Outcome ErrorCode (TransitionResult × World t)
    unfolding execute_in_transaction
    execute before now = elim (find_transition before input.idempotency_key) [
      | some existing ↦ elim (find_case before existing.case_id) [
        | none ↦ throw validation_failed
        | some row ↦
            if row.id === input.case_id
            then ok (to_result existing row.optimistic_lock_version true [], now)
            else throw validation_failed
      ]
      | none ↦ elim (find_case before input.case_id) [
        | none ↦ throw resource_not_found
        | some row ↦ lock_lost (execute_in_transaction now (snapshot_of row))
      ]
    ]
