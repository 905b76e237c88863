-- ===== src/Audit/Dispatch.antt =====
-- apps/worker/src/jobs/audit-outbox-dispatch.job.ts: rows of the outbox become audit events. The
-- two tables are what the job reads and writes; a transaction commits or leaves them as they are.
pub mod Steps
pub mod AtMostOnce
pub mod Runs
pub mod Marking
pub mod Fifo
use Prim.Native.Nat.{suc, zero}
use etik_bildirim_platformu.Prelude.{
  ℕ, ◌+◌, ◌≡◌, String, Bool, true, false, Option, none, some, List, [], ◌∷◌, ◌++◌, ◌===◌, string_eq,
  option_eq, leb, filter, find, length, if◌then◌else◌,
}
use etik_bildirim_platformu.Shared.Enums.{AuditActorType}
use etik_bildirim_platformu.Storage.Table.{Table, find_first}
use etik_bildirim_platformu.Audit.Events.{
  AuditEventType, AuditEventCategory, AuditSeverity, AuditOutcome,
}
use etik_bildirim_platformu.Audit.Metadata.{Json}
use etik_bildirim_platformu.Audit.Publisher.{
  OutboxRow, DispatchStatus, pending, sent, failed, permanently_failed,
}
use etik_bildirim_platformu.Audit.Spread.{build_audit_event_metadata, source_outbox_id, first_units}

-- `AuditEvent` of schema.prisma, less the columns that the database fills in.
pub record AuditEventRow : Type 0 where
  pub id : String
  pub occurred_at : ℕ
  pub event_type : AuditEventType
  pub event_category : AuditEventCategory
  pub severity : AuditSeverity
  pub actor_type : AuditActorType
  pub actor_id : Option String
  pub action : String
  pub outcome : AuditOutcome
  pub correlation_id : Option String
  pub metadata_json : Json

pub data ItemStatus : Type 0 where
  item_sent already_sent skipped item_failed : ItemStatus

-- `AuditOutboxDispatchItemResult`
pub record DispatchItem : Type 0 where
  pub outbox_id : String
  pub status : ItemStatus
  pub audit_event_id : Option String
  pub error_code : Option String

-- `AuditOutboxDispatchResult`
pub record DispatchResult : Type 0 where
  pub processed : ℕ
  pub sent_count : ℕ
  pub failed_count : ℕ
  pub items : List DispatchItem

-- What becomes of the transaction of a row, and of the update that marks it after an error with a
-- message, if it has one. The id and the time are those that the database and the clock give.
pub data Fate : Type 0 where
  commits : String → ℕ → Fate
  aborts : Option String → Fate
  aborts_unmarked : Option String → Fate

abbrev pub is_pending : DispatchStatus → Bool
is_pending pending = true
is_pending sent = false
is_pending failed = false
is_pending DispatchStatus.retrying = false
is_pending permanently_failed = false

abbrev pub take {ℓ} : {A : Type ℓ} → ℕ → List A → List A
take zero xs = []
take (suc n) [] = []
take (suc n) (x ∷ xs) = x ∷ take n xs

-- The `data` of the created event.
unfoldable pub event_of : String → OutboxRow → AuditEventRow
event_of id outbox = record {
  id = id;
  occurred_at = outbox.occurred_at;
  event_type = outbox.event_type;
  event_category = outbox.event_category;
  severity = outbox.severity;
  actor_type = outbox.actor_type;
  actor_id = outbox.actor_id;
  action = outbox.action;
  outcome = outbox.outcome;
  correlation_id = outbox.correlation_id;
  metadata_json = build_audit_event_metadata outbox;
}

abbrev pub has_source : String → AuditEventRow → Bool
has_source id event = source_outbox_id event.metadata_json === some id

abbrev pub has_id : String → OutboxRow → Bool
has_id id row = row.id === id

abbrev pub mark_sent : ℕ → OutboxRow → OutboxRow
mark_sent now row = record row {
  dispatch_status = sent;
  processed_at = some now;
  error_code = none;
}

unfoldable pub mark_failed : ℕ → ℕ → String → OutboxRow → OutboxRow
mark_failed max_retry_count current_retry_count error_code row = record row {
  dispatch_status =
      if leb max_retry_count (current_retry_count + 1) then permanently_failed else failed;
  retry_count = current_retry_count + 1;
  error_code = some error_code;
}

unfoldable pub error_code_of : Option String → String
error_code_of none = "AUDIT_DISPATCH_FAILED"
error_code_of (some message) = first_units 120 message

abbrev pub count_sent : DispatchItem → ℕ
count_sent item = elim item.status [
  | item_sent ↦ 1
  | already_sent ↦ 1
  | skipped ↦ 0
  | item_failed ↦ 0
]

abbrev pub count_failed : DispatchItem → ℕ
count_failed item = elim item.status [ item_failed ↦ 1 | _ ↦ 0 ]

-- The tables of the job.
pub record Queue (outbox : Table OutboxRow) (events : Table AuditEventRow) : Type 0 where
  pub rows : outbox.Store
  pub log : events.Store

module _ (outbox : Table OutboxRow) (events : Table AuditEventRow) where
  unfoldable pub dispatch_outbox_record :
      String → ℕ → OutboxRow → Queue outbox events → DispatchItem × Queue outbox events
  unfolding event_of source_outbox_id
  dispatch_outbox_record event_id now row q =
      let marked = outbox.update (has_id row.id) (mark_sent now) q.rows in
      elim (find_first events (has_source row.id) q.log) [
        | some existing ↦ (
          record {
            outbox_id = row.id;
            status = already_sent;
            audit_event_id = some existing.id;
            error_code = none;
          },
          record q { rows = marked },
        )
        | none ↦ (
          record {
            outbox_id = row.id;
            status = item_sent;
            audit_event_id = some event_id;
            error_code = none;
          },
          record { rows = marked; log = events.insert (event_of event_id row) q.log },
        )
      ]

  abbrev pub skipped_item : String → DispatchItem
  skipped_item id = record {
    outbox_id = id;
    status = skipped;
    audit_event_id = none;
    error_code = none;
  }

  -- The transaction of one row, under the lock that all share.
  unfoldable pub dispatch_single :
      String → ℕ → String → Queue outbox events → DispatchItem × Queue outbox events
  unfolding dispatch_outbox_record
  dispatch_single event_id now id q = elim (find_first outbox (has_id id) q.rows) [
    | none ↦ (skipped_item id, q)
    | some row ↦
        if is_pending row.dispatch_status
        then dispatch_outbox_record event_id now row q
        else (skipped_item id, q)
  ]

  module _ (max_retry_count : ℕ) where
    -- `update` of a row that is not there is an error of the client.
    unfoldable pub mark_failed_standalone :
        String → ℕ → String → Queue outbox events → Option (Queue outbox events)
    mark_failed_standalone id current_retry_count error_code q =
        elim (find_first outbox (has_id id) q.rows) [
          | none ↦ none
          | some row ↦ some (record q {
            rows =
                outbox.update (has_id id)
                  (mark_failed max_retry_count current_retry_count error_code) q.rows;
          })
        ]

    abbrev pub failed_item : String → String → DispatchItem
    failed_item id error_code = record {
      outbox_id = id;
      status = item_failed;
      audit_event_id = none;
      error_code = some error_code;
    }

    abbrev pub add_item : DispatchItem → Option DispatchResult → Option DispatchResult
    add_item item none = none
    add_item item (some result) = some (record result {
      sent_count = count_sent item + result.sent_count;
      failed_count = count_failed item + result.failed_count;
      items = item ∷ result.items;
    })

    -- The loop; without a result it has thrown, and what it wrote before stays.
    unfoldable pub process_rows :
        (OutboxRow → Fate)
        → ℕ
        → List OutboxRow
        → Queue outbox events
        → Option DispatchResult × Queue outbox events
    unfolding dispatch_single mark_failed_standalone error_code_of
    process_rows fate processed [] q =
        (some (record { processed = processed; sent_count = 0; failed_count = 0; items = [] }), q)
    process_rows fate processed (row ∷ rows) q = elim (fate row) [
      | commits event_id now ↦
          let (item, after) = dispatch_single event_id now row.id q in
          let (result, end) = process_rows fate processed rows after in (add_item item result, end)
      | aborts message ↦
          elim (mark_failed_standalone row.id row.retry_count (error_code_of message) q) [
            | none ↦ (none, q)
            | some after ↦
                let (result, end) = process_rows fate processed rows after in
                (add_item (failed_item row.id (error_code_of message)) result, end)
          ]
      | aborts_unmarked message ↦ (none, q)
    ]

    unfoldable pub process_pending_batch :
        ℕ → (OutboxRow → Fate) → Queue outbox events → Option DispatchResult × Queue outbox events
    unfolding process_rows
    process_pending_batch batch_size fate q =
        let waiting =
          take batch_size (filter (λ row. is_pending row.dispatch_status) (outbox.rows q.rows)) in
        process_rows fate (length waiting) waiting q
