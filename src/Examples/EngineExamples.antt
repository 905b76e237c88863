-- ===== src/Examples/EngineExamples.antt =====
-- apps/api/src/modules/case-management/transition/transition.service.ts: the secretary takes up a
-- submitted report.
use etik_bildirim_platformu.Prelude.{
  ◌≡◌, refl, ◌≢◌, ◌⊎◌, inr, true, false, String, none, some, List, [], ◌∷◌, ok, throw, ne_of_test,
  string_eq,
}
use etik_bildirim_platformu.Shared.Enums.{
  council_secretary, report_submitted, secretariat_review, closed_archived, normal,
  strictly_confidential, acknowledge_report, open_case, AuditActorType,
}
use etik_bildirim_platformu.Shared.Errors.{case_optimistic_lock}
use etik_bildirim_platformu.Storage.Rows.{CaseRow, ReportRow, TransitionRow}
use etik_bildirim_platformu.Storage.Table.{Table, list_table}
use etik_bildirim_platformu.Policy.User.{AuthenticatedUser}
use etik_bildirim_platformu.Cases.Opening.{
  CreateCaseBody, OpeningFresh, OpeningWorld, response_of, opened_case, opening_row, opening_event,
  opened_before, update_report, open_in_transaction, create_case_from_report,
}
use etik_bildirim_platformu.Cases.Opening.Opened.{IsOpened, create_case_from_report-IsOpened}
use etik_bildirim_platformu.Storage.World.{Tables, World, list_tables}
use etik_bildirim_platformu.Audit.Metadata.{find_forbidden_audit_metadata_key}
use etik_bildirim_platformu.Audit.Publisher.{outbox_row, publish}
use etik_bildirim_platformu.Policy.Clearance.{is_clearance_sufficient}
use etik_bildirim_platformu.Workflow.Map.{TransitionDefinition, by_role, resolve_transition}
use etik_bildirim_platformu.Workflow.Validators.{
  TransitionActor, is_system_actor_allowed, validate_preconditions, validate,
}
use etik_bildirim_platformu.Workflow.Runs.{run}
use etik_bildirim_platformu.Workflow.Records.{
  ExecuteTransitionInput, TransitionResult, Snapshot, Fresh, moved, transition_row,
  transition_event, to_result,
}
use etik_bildirim_platformu.Workflow.Engine.{
  SideEffects, find_case, find_transition, update_case, create_transition, apply_transition,
  transition_case, execute_in_transaction, execute, validate_async_preconditions,
}
use etik_bildirim_platformu.Workflow.Engine.Outcomes.{Checked, Written}
use etik_bildirim_platformu.Workflow.Engine.Accepted.{execute_in_transaction_sound}
use etik_bildirim_platformu.Workflow.Engine.Effects.{execute_in_transaction-find_case}
use etik_bildirim_platformu.Workflow.Engine.Replay.{execute-again}
use etik_bildirim_platformu.Workflow.Engine.Competing.{execute-competing}
use etik_bildirim_platformu.Workflow.Engine.History.{transitions_of}
use etik_bildirim_platformu.Workflow.Engine.Reachable.{
  commands_of, Step, committed, opened, at_start, after, IsEmpty, Reachable-run, Step-closed,
}

abbrev tables : Tables
tables = list_tables Unit

abbrev no_effects : SideEffects tables
no_effects w input context created = ok ([], tt)

abbrev submitted : CaseRow
submitted = record {
  id = "c1";
  current_state = report_submitted;
  confidentiality_level = normal;
  company_id = "co1";
  report_id = "p1";
  opened_at = 0;
  assigned_rapporteur_id = none;
  assigned_action_owner_id = none;
  closed_at = none;
  optimistic_lock_version = 0;
}

abbrev archived : CaseRow
archived = record submitted { id = "c2"; current_state = closed_archived }

abbrev world_of : List CaseRow → World tables
world_of cases = record {
  cases = cases;
  transitions = [];
  users = [];
  votes = [];
  outbox = [];
  rest = tt;
}

abbrev start : World tables
start = world_of (submitted ∷ [])

abbrev secretary : TransitionActor
secretary = record {
  kind = AuditActorType.user;
  user_id = some "u1";
  roles = council_secretary ∷ [];
  clearance_level = strictly_confidential;
}

abbrev request : String → ExecuteTransitionInput
request key = record {
  case_id = "c1";
  command = acknowledge_report;
  actor = secretary;
  idempotency_key = key;
  correlation_id = "r1";
  reason = none;
  metadata = [];
}

abbrev fresh : Fresh
fresh = record { now = 1000; transition_id = "t1"; outbox_id = "o1" }

abbrev later : Fresh
later = record { now = 2000; transition_id = "t2"; outbox_id = "o2" }

abbrev snapshot : Snapshot
snapshot = record { snapshot_state = report_submitted; snapshot_version = 0; company_id = "co1" }

abbrev definition : TransitionDefinition
definition = by_role secretariat_review council_secretary

abbrev recorded : TransitionRow
recorded = transition_row fresh (request "k1") definition report_submitted

abbrev taken_up : World tables
taken_up = record start {
  cases = record submitted { current_state = secretariat_review; optimistic_lock_version = 1 } ∷ [];
  transitions = recorded ∷ [];
  outbox = outbox_row "o1" 1000 (transition_event (request "k1") snapshot recorded) ∷ [];
}

abbrev answer : TransitionResult
answer = to_result recorded 1 false []

taken_up_runs :
    execute_in_transaction tables no_effects fresh (request "k1") start snapshot
    ≡ ok (answer, taken_up)
unfolding execute_in_transaction transition_case apply_transition update_case create_transition
    validate validate_async_preconditions resolve_transition moved transition_row transition_event
    publish outbox_row is_system_actor_allowed is_clearance_sufficient
    find_forbidden_audit_metadata_key validate_preconditions
taken_up_runs = refl

execute_in_transaction_sound_example :
    (row : CaseRow) × (found : TransitionDefinition) × (find_transition tables start "k1" ≡ none)
    × (find_case tables start "c1" ≡ some row)
    × Checked tables no_effects fresh (request "k1") start snapshot row found
    × Written tables no_effects fresh (request "k1") start row found answer taken_up
execute_in_transaction_sound_example =
    execute_in_transaction_sound tables no_effects fresh (request "k1") start taken_up snapshot
      answer taken_up_runs (unfold to_result in refl)

execute_in_transaction-find_case_example :
    ((id : String) → id ≢ "c1" → find_case tables taken_up id ≡ find_case tables start id)
    × ((row : CaseRow) × (found : TransitionDefinition) × (find_case tables start "c1" ≡ some row)
        × (resolve_transition row.current_state acknowledge_report ≡ some found)
        × (find_case tables taken_up "c1" ≡ some (moved 1000 (request "k1") found row)))
execute_in_transaction-find_case_example =
    execute_in_transaction-find_case tables no_effects fresh (request "k1") start taken_up snapshot
      answer taken_up_runs (unfold to_result in refl)

execute-again_example :
    execute tables no_effects later (request "k1") taken_up taken_up
    ≡ ok (record answer { idempotent_replay = true; tasks_created = [] }, taken_up)
execute-again_example =
    execute-again tables no_effects fresh (request "k1") start taken_up snapshot answer
      taken_up_runs (unfold to_result in refl) later

first_request : execute tables no_effects fresh (request "k1") start start ≡ ok (answer, taken_up)
unfolding execute execute_in_transaction transition_case apply_transition update_case
    create_transition validate validate_async_preconditions resolve_transition moved transition_row
    transition_event publish outbox_row is_system_actor_allowed is_clearance_sufficient
    find_forbidden_audit_metadata_key validate_preconditions
first_request = refl

execute-competing_example :
    execute tables no_effects later (request "k2") start taken_up ≡ throw case_optimistic_lock
execute-competing_example =
    execute-competing tables no_effects fresh later (request "k1") (request "k2") start start
      taken_up answer first_request (unfold to_result in refl) refl (ne_of_test "k2" "k1" refl) refl
      refl

-- The case is opened for a report, on a database without cases.
abbrev empty : World tables
empty = world_of []

abbrev reports : Table ReportRow
reports = list_table ReportRow

abbrev report : ReportRow
report = record {
  id = "p1";
  status = "SUBMITTED";
  case_id = none;
  company_id = "co1";
  confidentiality_level = normal;
}

abbrev opener : AuthenticatedUser
opener = record {
  id = "u1";
  email = "";
  display_name = "";
  roles = council_secretary ∷ [];
  clearance_level = strictly_confidential;
  company_id = none;
  company_name = none;
  function_id = none;
  location_id = none;
  is_general_secretary = false;
}

abbrev opening_body : CreateCaseBody
opening_body = record { report_id = "p1"; idempotency_key = "k0" }

abbrev opening_fresh : OpeningFresh
opening_fresh = record { now = 0; case_id = "c1"; transition_id = "t0"; outbox_id = "o0" }

abbrev before_opening : OpeningWorld tables reports
before_opening = record { world = empty; reports = report ∷ [] }

abbrev opened_world : World tables
opened_world = record start {
  transitions = opening_row opening_fresh opener opening_body ∷ [];
  outbox = outbox_row "o0" 0 (opening_event opening_fresh opener opening_body report "r0") ∷ [];
}

abbrev after_opening : OpeningWorld tables reports
after_opening = record {
  world = opened_world;
  reports = record report { case_id = some "c1" } ∷ [];
}

opening_runs :
    create_case_from_report tables reports opening_fresh opener opening_body "r0" before_opening
      before_opening
    ≡ ok (response_of submitted false, after_opening)
unfolding create_case_from_report opened_before open_in_transaction opened_case opening_row
    opening_event create_transition update_report publish outbox_row is_clearance_sufficient
    find_forbidden_audit_metadata_key
opening_runs = refl

create_case_from_report-IsOpened_example :
    ((existing : CaseRow) × (opened_before tables reports empty opening_body ≡ some existing)
      × (response_of submitted false ≡ response_of existing true)
      × (after_opening ≡ before_opening))
    ⊎ IsOpened tables reports opening_fresh opener opening_body "r0" before_opening before_opening
        (response_of submitted false)
        after_opening
create_case_from_report-IsOpened_example =
    create_case_from_report-IsOpened tables reports opening_fresh opener opening_body "r0"
      before_opening before_opening (response_of submitted false) after_opening opening_runs

abbrev opened_taken_up : World tables
opened_taken_up = record taken_up {
  transitions = opening_row opening_fresh opener opening_body ∷ recorded ∷ [];
  outbox =
      outbox_row "o0" 0 (opening_event opening_fresh opener opening_body report "r0")
      ∷ outbox_row "o1" 1000 (transition_event (request "k1") snapshot recorded)
      ∷ [];
}

opened_runs :
    execute_in_transaction tables no_effects fresh (request "k1") opened_world snapshot
    ≡ ok (answer, opened_taken_up)
unfolding execute_in_transaction transition_case apply_transition update_case create_transition
    validate validate_async_preconditions resolve_transition moved transition_row transition_event
    publish outbox_row is_system_actor_allowed is_clearance_sufficient
    find_forbidden_audit_metadata_key validate_preconditions opening_row opening_event
opened_runs = refl

empty-IsEmpty : IsEmpty tables no_effects empty
empty-IsEmpty = (refl, refl)

opening-Step : Step tables no_effects empty opened_world
opening-Step =
    opened reports opening_fresh opener opening_body "r0" before_opening (report ∷ [])
      (response_of submitted false) after_opening opening_runs

taken_up-Step : Step tables no_effects opened_world opened_taken_up
taken_up-Step = committed fresh (request "k1") snapshot answer opened_taken_up opened_runs

Reachable-run_example :
    (opening : TransitionRow) × (rest : List TransitionRow) × (transitions_of tables no_effects
        opened_taken_up "c1"
      ≡ opening ∷ rest)
    × (opening.command ≡ open_case)
    × (run report_submitted (commands_of rest) ≡ some secretariat_review)
Reachable-run_example =
    Reachable-run tables no_effects empty opened_taken_up "c1"
      (record submitted { current_state = secretariat_review; optimistic_lock_version = 1 })
      empty-IsEmpty
      (after opened_world opened_taken_up (after empty opened_world at_start opening-Step)
        taken_up-Step)
      refl

-- A database that also has a closed case.
abbrev with_closed : World tables
with_closed = world_of (submitted ∷ archived ∷ [])

abbrev taken_up_beside : World tables
taken_up_beside = record taken_up {
  cases =
      record submitted { current_state = secretariat_review; optimistic_lock_version = 1 }
      ∷ archived
      ∷ [];
}

beside_runs :
    execute_in_transaction tables no_effects fresh (request "k1") with_closed snapshot
    ≡ ok (answer, taken_up_beside)
unfolding execute_in_transaction transition_case apply_transition update_case create_transition
    validate validate_async_preconditions resolve_transition moved transition_row transition_event
    publish outbox_row is_system_actor_allowed is_clearance_sufficient
    find_forbidden_audit_metadata_key validate_preconditions
beside_runs = refl

Step-closed_example : find_case tables taken_up_beside "c2" ≡ some archived
Step-closed_example =
    Step-closed tables no_effects with_closed taken_up_beside "c2" archived
      (committed fresh (request "k1") snapshot answer taken_up_beside beside_runs) refl (inr refl)
