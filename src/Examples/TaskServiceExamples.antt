-- ===== src/Examples/TaskServiceExamples.antt =====
-- apps/api/src/modules/task: the secretary completes and delegates the review of a report.
use etik_bildirim_platformu.Shared.Enums.{TaskType-discrete}
use etik_bildirim_platformu.Sla.Calculator.{sla_unit_of}
use etik_bildirim_platformu.Sla.Calculator.{compute_due_at}
use etik_bildirim_platformu.Sla.Calculator.{find_active_policy}
use etik_bildirim_platformu.Tasks.Requests.{assert_task_delegatable}
use etik_bildirim_platformu.Tasks.Requests.{assert_user_can_delegate_task}
use etik_bildirim_platformu.Tasks.Creation.{in_order}
use etik_bildirim_platformu.Shared.Enums.{CaseState}
use etik_bildirim_platformu.Prelude.{ℕ}
use etik_bildirim_platformu.Prelude.{◌⊎◌}
use etik_bildirim_platformu.Shared.Errors.{sla_policy_not_found}
use etik_bildirim_platformu.Prelude.{nat_beq}
use etik_bildirim_platformu.Tasks.Creation.{stub_of}
use etik_bildirim_platformu.Prelude.{if◌then◌else◌}
use etik_bildirim_platformu.Workflow.Validators.{TransitionActor}
use etik_bildirim_platformu.Workflow.Records.{TransitionTaskStub}
use etik_bildirim_platformu.Tasks.Service.Completed.{IsDone, IsCarriedOut, complete_task-IsDone}
use etik_bildirim_platformu.Tasks.Service.Keys.{complete_task-used_key}
use etik_bildirim_platformu.Tasks.Service.Again.{delegate_task-again}
use etik_bildirim_platformu.Tasks.Service.Delegated.{IsDelegated, delegate_task-IsDelegated}
use etik_bildirim_platformu.Tasks.Service.Refused.{without_role, complete_task-IsRefused}
use etik_bildirim_platformu.Tasks.Creation.Created.{
  IsCreated, plan, create_tasks_for_transition-IsCreated,
}
use etik_bildirim_platformu.Sla.Calculator.Total.{active_policy, calculate_due_at-find}
use etik_bildirim_platformu.Shared.Enums.{task_type_eq, pre_research, TaskEventType}
use etik_bildirim_platformu.Audit.Events.{AuditEventType}
use etik_bildirim_platformu.Audit.Metadata.{null, scalar, object, field, end}
use etik_bildirim_platformu.Tasks.Records.{TaskEventRow}
use etik_bildirim_platformu.Tasks.Service.{asked_id}
use etik_bildirim_platformu.Tasks.Creation.{create_tasks_for_transition}
use etik_bildirim_platformu.Prelude.{◌+◌}
use etik_bildirim_platformu.Prelude.{map}
use etik_bildirim_platformu.Tasks.Catalog.{resolve_tasks_for_transition}
use etik_bildirim_platformu.Sla.Calculator.{calculate_due_at}
use etik_bildirim_platformu.Audit.Metadata.{find_forbidden_audit_metadata_key}
use etik_bildirim_platformu.Audit.Publisher.{outbox_row}
use etik_bildirim_platformu.Audit.Publisher.{publish}
use etik_bildirim_platformu.Decision.Unanimity.{is_eligible}
use etik_bildirim_platformu.Decision.Unanimity.{list_eligible_council_member_ids}
use etik_bildirim_platformu.Tasks.Records.{task_type_code}
use etik_bildirim_platformu.Tasks.Service.{find_task_within_scope}
use etik_bildirim_platformu.Policy.Scope.{build_task_scope}
use etik_bildirim_platformu.Policy.Abac.{resolve_effective_abac_rule}
use etik_bildirim_platformu.Policy.Abac.{get_abac_rule_for_role_and_resource}
use etik_bildirim_platformu.Tasks.Requests.{assert_task_type_allows_completion}
use etik_bildirim_platformu.Prelude.{
  ◌≢◌, ◌≡◌, refl, ap, inl, inr, String, none, some, List, [], ◌∷◌, ok, throw, Outcome, string_eq,
}
use etik_bildirim_platformu.Shared.Enums.{
  council_secretary, council_member, secretariat_review, member_approval,
  rapporteur_report_submitted, strictly_confidential, submit_to_member_approval, AuditActorType,
  secretariat_review_task, member_approval_task, TaskStatus,
}
use etik_bildirim_platformu.Shared.Errors.{ErrorCode, task_invalid_state, authz_forbidden}
use etik_bildirim_platformu.Storage.Rows.{CaseRow, TransitionRow}
use etik_bildirim_platformu.Policy.User.{AuthenticatedUser}
use etik_bildirim_platformu.Sla.Calculator.{SlaPolicyRow}
use etik_bildirim_platformu.Tasks.Records.{TaskRow, TaskStores, all_tables}
use etik_bildirim_platformu.Tasks.Requests.{DelegateTaskBody}
use etik_bildirim_platformu.Tasks.Creation.{Supply}
use etik_bildirim_platformu.Tasks.Service.{RequestFresh, complete_task, delegate_task}
use etik_bildirim_platformu.Examples.TaskRuns.{
  tables, task_tables, Database, open_filter, effects, ports, fresh, secretary, case_entity, review,
  policy, start, completion, completed_review, outbox_event, task_event, completed_world, run-ok,
}

abbrev Ran : RequestFresh → Database → Database → TaskRow → Database → Type 0
Ran f before now row after =
    IsDone tables task_tables open_filter effects ports f (secretary "u1") "r1" before now
      completion "k1" row after

-- The same request again, after the first.
run_again :
    complete_task tables task_tables open_filter effects ports fresh
      (secretary "u1")
      "r2"
      completed_world
      completed_world
      completion
      "k1"
    ≡ ok (completed_review, completed_world)
unfolding complete_task build_task_scope resolve_effective_abac_rule
    get_abac_rule_for_role_and_resource
run_again = refl

abbrev state_of : List CaseRow → CaseState
state_of [] = secretariat_review
state_of (row ∷ rows) = row.current_state

carried_out :
    IsCarriedOut tables task_tables open_filter effects ports fresh
      (secretary "u1")
      "r1"
      start
      start
      completion
      "k1"
      completed_review
      completed_world
carried_out =
    elim (complete_task-IsDone tables task_tables open_filter effects ports fresh (secretary "u1")
      "r1" start start completion "k1" completed_review completed_world run-ok).1 [
        | inl (_, same) ↦
            let moved : pre_research ≡ secretariat_review =
              ap (λ (w : Database). state_of w.cases) same in
            cc
        | inr done ↦ done
      ]

complete_task-used_key_example : completed_world ≡ completed_world
complete_task-used_key_example =
    complete_task-used_key tables task_tables open_filter effects ports fresh fresh (secretary "u1")
      (secretary "u1") "r1" "r2" start start completed_world completed_world completed_world
      completion completion "k1" "k1" completed_review completed_review carried_out refl run_again

abbrev deputy : DelegateTaskBody
deputy = record { delegate_to_user_id = "u2"; reason = "leave" }

abbrev delegation_run : Outcome ErrorCode (TaskRow × Database)
delegation_run =
    delegate_task tables task_tables open_filter effects ports fresh (secretary "u1") "r1" start
      start deputy "k1"

abbrev handed_over : TaskRow
handed_over = record review {
  id = "k3";
  assigned_user_id = some "u2";
  due_at = some 86405000;
  sla_policy_id = some "p1";
  delegated_from_task_id = some "k1";
  created_by = some "u1";
}

abbrev delegated_world : Database
delegated_world = record start {
  outbox =
      outbox_row "o3" 5000
        (record (outbox_event "k3" AuditEventType.task_delegated "task_delegated") {
          idempotency_key = some "audit:task-delegated:k1:u2";
          metadata = object (
              field "originalTaskId" (scalar "k1") (
                field "newTaskId" (scalar "k3") (
                  field "fromUserId" null (
                    field "toUserId" (scalar "u2") (
                      field "caseId" (scalar "c1")
                        (field "taskType" (scalar "secretariat_review_task") end))))));
        })
      ∷ [];
  rest = record start.rest {
    tasks = record review { status = TaskStatus.delegated } ∷ handed_over ∷ [];
    task_events =
        task_event "k1" TaskEventType.task_delegated (
          object (
            field "fromUserId" null
              (field "toUserId" (scalar "u2") (field "newTaskId" (scalar "k3") end))))
        ∷ task_event "k3" TaskEventType.created (
            object (
              field "delegatedFromTaskId" (scalar "k1")
                (field "taskType" (scalar "secretariat_review_task") end)))
        ∷ [];
  };
}

delegated-ok : delegation_run ≡ ok (handed_over, delegated_world)
unfolding delegate_task assert_task_delegatable assert_user_can_delegate_task build_task_scope
    resolve_effective_abac_rule get_abac_rule_for_role_and_resource calculate_due_at publish
    find_forbidden_audit_metadata_key task_type_code
delegated-ok = refl

scope_of_secretary : asked_id (build_task_scope (secretary "u1")) "k1" ≡ "k1"
unfolding build_task_scope resolve_effective_abac_rule get_abac_rule_for_role_and_resource
scope_of_secretary = refl

reviewable : assert_task_type_allows_completion secretariat_review_task ≡ ok tt
unfolding assert_task_type_allows_completion
reviewable = refl

delegate_task-IsDelegated_example :
    IsDelegated tables task_tables open_filter effects ports fresh
      (secretary "u1")
      "r1"
      start
      start
      deputy
      "k1"
      handed_over
      delegated_world
delegate_task-IsDelegated_example =
    delegate_task-IsDelegated tables task_tables open_filter effects ports fresh (secretary "u1")
      "r1" start start delegated_world deputy "k1" handed_over delegated-ok

delegate_task-again_example :
    (delegate_task tables task_tables open_filter effects ports fresh
        (secretary "u1")
        "r1"
        delegated_world
        delegated_world
        deputy
        "k1"
      ≡ throw task_invalid_state)
    × (complete_task tables task_tables open_filter effects ports fresh
          (secretary "u1")
          "r1"
          delegated_world
          delegated_world
          completion
          "k1"
        ≡ throw task_invalid_state)
delegate_task-again_example =
    delegate_task-again tables task_tables open_filter effects ports fresh (secretary "u1") "r1"
      start start delegated_world deputy deputy completion "k1" handed_over scope_of_secretary
      reviewable delegated-ok

abbrev member : AuthenticatedUser
member = record (secretary "m1") { roles = council_member ∷ [] }

found_review :
    find_task_within_scope tables task_tables open_filter start member "k1"
    ≡ ok (review, case_entity)
unfolding find_task_within_scope build_task_scope resolve_effective_abac_rule
    get_abac_rule_for_role_and_resource
found_review = refl

-- A member of the council does not hold the role of the review.
complete_task-IsRefused_example :
    complete_task tables task_tables open_filter effects ports fresh member "r1" start start
      completion "k1"
    ≡ throw authz_forbidden
complete_task-IsRefused_example =
    complete_task-IsRefused tables task_tables open_filter effects ports fresh member "r1" start
      start completion "k1" (review, case_entity) found_review authz_forbidden
      (without_role (inl refl) (λ i. elim i [ inl e ↦ cc | inr n ↦ elim n [ ] ]) refl
        (λ i. elim i [ inl e ↦ cc | inr n ↦ elim n [ ] ]))

abbrev approval : TransitionRow
approval = record {
  id = "t9";
  case_id = "c1";
  from_state = rapporteur_report_submitted;
  to_state = member_approval;
  command = submit_to_member_approval;
  actor_type = AuditActorType.user;
  performed_by_user_id = some "u1";
  reason_text_masked = none;
  idempotency_key = "x9";
  transitioned_at = 5000;
}

abbrev actor : TransitionActor
actor = record {
  kind = AuditActorType.user;
  user_id = some "u1";
  roles = council_secretary ∷ [];
  clearance_level = strictly_confidential;
}

abbrev numbered : Supply
numbered = record { now = λ i. 5000 + i; task_id = λ i. if nat_beq i 0 then "k2" else "k3" }

abbrev creation : Outcome ErrorCode (List TransitionTaskStub × TaskStores task_tables)
creation = create_tasks_for_transition tables task_tables numbered start case_entity approval actor

abbrev for_member : String → String → TransitionTaskStub
for_member id user_id = record {
  id = id;
  task_type = member_approval_task;
  assigned_role = council_member;
  assigned_user_id = some user_id;
}

abbrev approval_task : String → String → TaskRow
approval_task id user_id = record review {
  id = id;
  task_type = member_approval_task;
  assigned_role = council_member;
  assigned_user_id = some user_id;
  sla_policy_id = some "p1";
  created_by_transition_id = "t9";
}

abbrev approval_event : String → String → TaskEventRow
approval_event id user_id = task_event id TaskEventType.created (
    object (
      field "transitionId" (scalar "t9") (
        field "taskType" (scalar "member_approval_task")
          (field "assignedUserId" (scalar user_id) end))))

abbrev with_tasks : TaskStores task_tables
with_tasks = record start.rest {
  tasks =
      review
      ∷ record (approval_task "k2" "m1") { due_at = some 86405000 }
      ∷ record (approval_task "k3" "m2") { due_at = some 86405001 }
      ∷ [];
  task_events = approval_event "k2" "m1" ∷ approval_event "k3" "m2" ∷ [];
}

created-ok : creation ≡ ok (for_member "k2" "m1" ∷ for_member "k3" "m2" ∷ [], with_tasks)
unfolding create_tasks_for_transition resolve_tasks_for_transition list_eligible_council_member_ids
    is_eligible calculate_due_at task_type_code
created-ok = refl

create_tasks_for_transition-IsCreated_example :
    (made : List TaskRow) × (for_member "k2" "m1" ∷ for_member "k3" "m2" ∷ [] ≡ map stub_of made)
    × IsCreated tables task_tables numbered case_entity approval actor
        (plan
          (in_order (list_eligible_council_member_ids (all_tables tables task_tables) start))
          (resolve_tasks_for_transition case_entity approval))
        made
        start.rest
        with_tasks
create_tasks_for_transition-IsCreated_example =
    create_tasks_for_transition-IsCreated tables task_tables numbered case_entity approval actor
      start (for_member "k2" "m1" ∷ for_member "k3" "m2" ∷ []) with_tasks created-ok

abbrev policies : List SlaPolicyRow
policies = policy secretariat_review_task ∷ []

calculate_due_at-find_example :
    ((p : SlaPolicyRow) × (due : ℕ) × (active_policy policies secretariat_review_task ≡ some p)
      × ((p.sla_unit ≡ "calendar_hours") ⊎ (p.sla_unit ≡ "business_days"))
      × (calculate_due_at policies [] secretariat_review_task 1000
          ≡ ok (record { due_at = due; sla_policy_id = p.id })))
    ⊎ (((active_policy policies secretariat_review_task ≡ none)
          ⊎ ((p : SlaPolicyRow) × (active_policy policies secretariat_review_task ≡ some p)
              × (p.sla_unit ≢ "calendar_hours")
              × (p.sla_unit ≢ "business_days")))
        × (calculate_due_at policies [] secretariat_review_task 1000 ≡ throw sla_policy_not_found))
calculate_due_at-find_example = calculate_due_at-find policies [] secretariat_review_task 1000

-- A policy of an invalid unit is as good as none.
invalid_unit :
    calculate_due_at
      (record (policy secretariat_review_task) { sla_unit = "INVALID_UNIT" } ∷ [])
      []
      secretariat_review_task
      1000
    ≡ throw sla_policy_not_found
unfolding calculate_due_at find_active_policy compute_due_at sla_unit_of TaskType-discrete
invalid_unit = refl
