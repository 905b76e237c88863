-- ===== src/Examples/AuditJobExamples.antt =====
-- apps/worker/src/jobs and apps/worker/src/audit: a row that is dispatched and one that fails.
use etik_bildirim_platformu.Prelude.{
  ◌≡◌, refl, inl, inr, true, String, none, some, List, [], ◌∷◌, ok, trivial, ne_of_test, string_eq,
  option_eq, ◌↔◌, arith,
}
use etik_bildirim_platformu.Shared.Enums.{AuditActorType}
use etik_bildirim_platformu.Storage.Table.{list_table}
use etik_bildirim_platformu.Audit.Events.{case_transition, success}
use etik_bildirim_platformu.Audit.Metadata.{
  scalar, object, field, end, find_forbidden_audit_metadata_key,
}
use etik_bildirim_platformu.Audit.Publisher.{OutboxRow, PublishAuditEventInput, outbox_row, publish}
use etik_bildirim_platformu.Audit.Chain.{ChainRow, verify, verify_from, broken_at}
use etik_bildirim_platformu.Audit.Chain.Links.{IsLinked, verify_iff, verify-removed}
use etik_bildirim_platformu.Audit.Dispatch.{
  AuditEventRow, Queue, commits, mark_sent, event_of, dispatch_single, mark_failed,
  process_pending_batch,
}
use etik_bildirim_platformu.Audit.Dispatch.Steps.{Steps, stored, published, dispatched, done, next}
use etik_bildirim_platformu.Audit.Dispatch.AtMostOnce.{IsDelivering}
use etik_bildirim_platformu.Audit.Dispatch.Runs.{HasGivenUp, Steps-IsDelivering, Steps-HasGivenUp}
use etik_bildirim_platformu.Audit.Dispatch.Fifo.{IsReady, view, process_pending_batch-deliver}

abbrev link : String → String → ChainRow
link id hash = record { id = id; prev_hash = none; event_hash = some hash }

abbrev second : ChainRow
second = record { id = "e2"; prev_hash = some "h1"; event_hash = some "h2" }

abbrev third : ChainRow
third = record { id = "e3"; prev_hash = some "h2"; event_hash = some "h3" }

abbrev chain : List ChainRow
chain = link "e1" "h1" ∷ second ∷ third ∷ []

verify_iff_example : ((verify chain).valid ≡ true) ↔ IsLinked chain
verify_iff_example = verify_iff chain

chain-valid : (verify chain).valid ≡ true
unfolding verify verify_from
chain-valid = refl

-- The second event is deleted.
verify-removed_example : verify (link "e1" "h1" ∷ third ∷ []) ≡ broken_at 2 "e3"
verify-removed_example =
    verify-removed (link "e1" "h1" ∷ []) [] second third chain-valid
      (λ h. ne_of_test (some "h2") (some "h1") refl h)

abbrev event : String → PublishAuditEventInput
event key = record {
  event_type = case_transition;
  actor_type = AuditActorType.user;
  actor_id = some "u1";
  action = "case_transition";
  outcome = success;
  resource_type = some "case";
  resource_id = some "c1";
  case_id = some "c1";
  company_id = none;
  correlation_id = some "r1";
  idempotency_key = some key;
  metadata = object (field "command" (scalar "acknowledge_report") end);
  occurred_at = none;
  severity = none;
  event_category = none;
}

abbrev JobQueue : Type 0
JobQueue = Queue (list_table OutboxRow) (list_table AuditEventRow)

abbrev first_row : OutboxRow
first_row = outbox_row "o1" 1000 (event "k1")

abbrev second_row : OutboxRow
second_row = outbox_row "o2" 2000 (event "k2")

abbrev empty : JobQueue
empty = record { rows = []; log = [] }

abbrev waiting_queue : JobQueue
waiting_queue = record { rows = first_row ∷ []; log = [] }

abbrev two_waiting : JobQueue
two_waiting = record { rows = first_row ∷ second_row ∷ []; log = [] }

abbrev dispatched_queue : JobQueue
dispatched_queue = record {
  rows = mark_sent 3000 first_row ∷ [];
  log = event_of "e1" first_row ∷ [];
}

publish_first : publish (list_table OutboxRow) "o1" 1000 (event "k1") [] ≡ ok (first_row ∷ [])
unfolding publish find_forbidden_audit_metadata_key
publish_first = refl

abbrev start :
    Steps
      (list_table OutboxRow)
      (list_table AuditEventRow)
      3
      empty
      (dispatch_single
        (list_table OutboxRow)
        (list_table AuditEventRow)
        "e1"
        3000
        "o1"
        waiting_queue).1
start =
    next _ _ _ (published "o1" 1000 (event "k1") empty _ publish_first)
      (next _ _ _ (dispatched "e1" 3000 "o1" waiting_queue) (done _))

empty-IsDelivering : IsDelivering (list_table OutboxRow) (list_table AuditEventRow) empty
empty-IsDelivering = record { at_most_one = λ id. omega arith; sent_once = λ id row h s. cc }

Steps-IsDelivering_example :
    IsDelivering
      (list_table OutboxRow)
      (list_table AuditEventRow)
      (dispatch_single
        (list_table OutboxRow)
        (list_table AuditEventRow)
        "e1"
        3000
        "o1"
        waiting_queue).1
Steps-IsDelivering_example =
    Steps-IsDelivering (list_table OutboxRow) (list_table AuditEventRow) 3 empty _ start
      empty-IsDelivering

abbrev given_up_row : OutboxRow
unfolding mark_failed
given_up_row = mark_failed 3 0 "timeout" first_row

abbrev given_up : JobQueue
given_up = record { rows = given_up_row ∷ []; log = [] }

abbrev AfterDispatch : Type 0
unfolding dispatch_single
AfterDispatch =
    (after : OutboxRow) × (stored (list_table OutboxRow) (list_table AuditEventRow)
        (dispatch_single (list_table OutboxRow) (list_table AuditEventRow) "e1" 3000 "o1"
          given_up).1
        "o1"
      ≡ some after)
    × HasGivenUp after.dispatch_status

Steps-HasGivenUp_example : AfterDispatch
unfolding mark_failed outbox_row AfterDispatch
Steps-HasGivenUp_example =
    Steps-HasGivenUp (list_table OutboxRow) (list_table AuditEventRow) 3 given_up _ "o1"
      given_up_row (next _ _ _ (dispatched "e1" 3000 "o1" given_up) (done _)) refl tt

two_waiting-IsReady : IsReady (list_table OutboxRow) (list_table AuditEventRow) two_waiting
unfolding outbox_row
two_waiting-IsReady = record {
  distinct = (
    λ i. elim i [ inl e ↦ ne_of_test "o1" "o2" refl e | inr nowhere ↦ elim nowhere [ ] ],
    (λ i. elim i [ ], trivial),
  );
  undelivered = λ row i w. refl;
}

-- A batch of one, of two rows that wait.
process_pending_batch-deliver_example :
    view
      (list_table OutboxRow)
      (list_table AuditEventRow)
      (process_pending_batch
        (list_table OutboxRow)
        (list_table AuditEventRow)
        3
        1
        (λ row. commits "e1" 3000)
        two_waiting).1
    ≡ record { waiting = "o2" ∷ []; delivered = some "o1" ∷ [] }
unfolding outbox_row
process_pending_batch-deliver_example =
    process_pending_batch-deliver (list_table OutboxRow) (list_table AuditEventRow) 3 1
      (λ row. "e1") (λ row. 3000) two_waiting two_waiting-IsReady
