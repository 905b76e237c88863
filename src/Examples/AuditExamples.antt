-- ===== src/Examples/AuditExamples.antt =====
-- apps/api/src/audit and apps/api/src/modules/decision.
use etik_bildirim_platformu.Prelude.{
  ◌≡◌, refl, ◌≢◌, ◌↔◌, inl, inr, true, false, String, none, some, List, [], ◌∷◌, ok, In, Distinct,
  trivial, ne_of_test, string_eq,
}
use etik_bildirim_platformu.Shared.Enums.{AuditActorType, approve}
use etik_bildirim_platformu.Storage.Rows.{VoteRow}
use etik_bildirim_platformu.Storage.Table.{list_table}
use etik_bildirim_platformu.Audit.Events.{case_transition, success}
use etik_bildirim_platformu.Audit.Metadata.{
  Json, scalar, object, array, cons, nil, field, end, IsClean,
}
use etik_bildirim_platformu.Audit.Publisher.{OutboxRow, PublishAuditEventInput, outbox_row, publish}
use etik_bildirim_platformu.Audit.Publisher.Stored.{IsUnused, publish_iff}
use etik_bildirim_platformu.Decision.Unanimity.{is_unanimous}
use etik_bildirim_platformu.Decision.Unanimity.Votes.{Consents, is_unanimous_iff}

-- A forbidden key inside an array inside an object.
abbrev hidden : Json
hidden =
    object (field "changes" (array (cons (object (field "password" (scalar "x") end)) nil)) end)

abbrev event : PublishAuditEventInput
event = record {
  event_type = case_transition;
  actor_type = AuditActorType.user;
  actor_id = some "u1";
  action = "case_transition";
  outcome = success;
  resource_type = some "case";
  resource_id = some "c1";
  case_id = some "c1";
  company_id = none;
  correlation_id = some "r1";
  idempotency_key = some "audit:k1";
  metadata = object (field "command" (scalar "acknowledge_report") end);
  occurred_at = none;
  severity = none;
  event_category = none;
}

abbrev stored : OutboxRow
stored = outbox_row "o1" 1000 event

publish_iff_example :
    (publish (list_table OutboxRow) "o1" 1000 event [] ≡ ok (stored ∷ []))
    ↔ (IsClean event.metadata × IsUnused event.idempotency_key [] × (stored ∷ [] ≡ stored ∷ []))
publish_iff_example = publish_iff (list_table OutboxRow) "o1" 1000 event [] (stored ∷ [])

abbrev vote_of : String → VoteRow
vote_of id = record {
  id = id;
  case_id = "c1";
  transition_id = "t1";
  voter_user_id = id;
  vote_type = approve;
  reason_text = none;
  is_silent_acceptance = false;
  created_by_system = false;
  voted_at = 0;
}

abbrev members : List String
members = "m1" ∷ "m2" ∷ []

members-Distinct : Distinct members
members-Distinct = (
  λ i. elim i [ inl e ↦ ne_of_test "m1" "m2" refl e | inr none_left ↦ elim none_left [ ] ],
  (λ i. elim i [ ], trivial),
)

is_unanimous_iff_example : (is_unanimous members (vote_of "m1" ∷ vote_of "m2" ∷ []) ≡ true) ↔ (
    (members ≢ [])
    × ((id : String) → In id members → Consents (vote_of "m1" ∷ vote_of "m2" ∷ []) id))
is_unanimous_iff_example =
    is_unanimous_iff members (vote_of "m1" ∷ vote_of "m2" ∷ []) members-Distinct
