-- ===== src/Examples/TaskExamples.antt =====
-- apps/api/src/modules/task and packages/shared/src/sla.
use etik_bildirim_platformu.Prelude.{
  ℕ, suc, ◌+◌, ◌≤◌, ◌<◌, ◌≡◌, refl, ◌↔◌, ◌⊎◌, inl, none, some, [], throw, In, arith, nat_beq,
  if◌then◌else◌,
}
use etik_bildirim_platformu.Shared.Enums.{
  AuditActorType, rapporteur, normal, agenda_ready, rapporteur_assigned, assign_rapporteur,
  rapporteur_assign_task, rapporteur_report_task, decision_draft_task,
}
use etik_bildirim_platformu.Shared.Errors.{validation_failed}
use etik_bildirim_platformu.Storage.Rows.{CaseRow, TransitionRow}
use etik_bildirim_platformu.Workflow.Validators.{validate_preconditions}
use etik_bildirim_platformu.Tasks.Catalog.{
  TaskCreationDefinition, resolve_tasks_for_transition, resolve_task_completion_command,
}
use etik_bildirim_platformu.Tasks.Catalog.Completion.{completion-validate_preconditions}
use etik_bildirim_platformu.Sla.Calendar.{
  BusinessCalendarLookup, official_holiday, half_day, resolve_business_day_weight,
  get_default_day_type, half_days, resolve_effective_day_type, get_istanbul_weekday_index, last_day,
  to_istanbul_date_key,
}
use etik_bildirim_platformu.Sla.Calendar.Due.{weight_of, total_weight, last_day-ends}

completion-validate_preconditions_example :
    (validate_preconditions assign_rapporteur [] ≡ throw validation_failed) ↔ (
      (rapporteur_assign_task ≡ rapporteur_assign_task)
      ⊎ ((rapporteur_assign_task ≡ rapporteur_report_task)
          ⊎ (rapporteur_assign_task ≡ decision_draft_task)))
completion-validate_preconditions_example =
    completion-validate_preconditions rapporteur_assign_task assign_rapporteur
      (unfold resolve_task_completion_command in refl)

abbrev case_entity : CaseRow
case_entity = record {
  id = "c1";
  current_state = agenda_ready;
  confidentiality_level = normal;
  company_id = "co1";
  report_id = "p1";
  opened_at = 0;
  assigned_rapporteur_id = some "u2";
  assigned_action_owner_id = none;
  closed_at = none;
  optimistic_lock_version = 4;
}

abbrev assigned : TransitionRow
assigned = record {
  id = "t1";
  case_id = "c1";
  from_state = agenda_ready;
  to_state = rapporteur_assigned;
  command = assign_rapporteur;
  actor_type = AuditActorType.user;
  performed_by_user_id = some "u1";
  reason_text_masked = none;
  idempotency_key = "k1";
  transitioned_at = 1000;
}

abbrev report_task : TaskCreationDefinition
report_task = record {
  task_type = rapporteur_report_task;
  assigned_role = rapporteur;
  assigned_user_id = some "u2";
  assigned_company_id = none;
  assigned_function_id = none;
}

report_task-In : In report_task (resolve_tasks_for_transition case_entity assigned)
unfolding resolve_tasks_for_transition
report_task-In = inl refl

-- Thursday, 1 January 1970 is a holiday, and the Friday a half day.
abbrev calendar : BusinessCalendarLookup
calendar date_key =
    if nat_beq date_key 0
    then some official_holiday
    else (if nat_beq date_key 1 then some half_day else none)

-- One business day from the Thursday on ends on the Monday.
first_monday : last_day calendar 5 2 0 ≡ some 4
unfolding last_day resolve_business_day_weight get_default_day_type half_days
    resolve_effective_day_type get_istanbul_weekday_index
first_monday = refl

calendar-none : (later : ℕ) → 2 ≤ later → calendar later ≡ none
calendar-none later h = ground arith

last_day-ends_example :
    (count : ℕ) × (last_day calendar 10 2 0 ≡ some (0 + count))
    × (total_weight calendar count 0 < 2)
    × (2 ≤ total_weight calendar (suc count) 0)
last_day-ends_example = last_day-ends calendar 2 10 2 0 calendar-none (omega arith) (omega arith)

-- Monday, 5 January 1970, in the morning.
monday_full : weight_of calendar (to_istanbul_date_key 376200500) ≡ 2
unfolding resolve_business_day_weight get_default_day_type to_istanbul_date_key half_days
    resolve_effective_day_type get_istanbul_weekday_index
monday_full = refl
