-- ===== src/Workflow/Engine/Outcomes.antt =====
-- apps/api/src/modules/case-management/transition/transition.service.ts: the conditions of a
-- transition that is carried out, and the rows after it.
use etik_bildirim_platformu.Prelude.{
  ◌+◌, ◌≡◌, refl, ◌∙◌, inl, inr, Bool, false, ◌&&◌, some, List, [], ◌∷◌, ◌++◌, arith, ◌===◌,
  string_eq, nat_beq, ok, throw, ap, Option-cases,
}
use etik_bildirim_platformu.Shared.Enums.{case_state_eq}
use etik_bildirim_platformu.Shared.Errors.{client_p2025}
use etik_bildirim_platformu.Storage.Rows.{CaseRow, TransitionRow}
use etik_bildirim_platformu.Storage.Table.{find_first, update_rows}
use etik_bildirim_platformu.Storage.World.{Tables, World}
use Prim.Native.String
use etik_bildirim_platformu.Audit.Events.{case_transition}
use etik_bildirim_platformu.Audit.Publisher.{OutboxRow, PublishAuditEventInput, outbox_row}
use etik_bildirim_platformu.Workflow.Map.{TransitionDefinition, resolve_transition}
use etik_bildirim_platformu.Workflow.Validators.Allowed.{IsAllowed}
use etik_bildirim_platformu.Workflow.Records.{
  ExecuteTransitionInput, TransitionResult, TransitionTaskStub, transition_event, Snapshot, Fresh,
  to_result, moved, transition_row,
}
use etik_bildirim_platformu.Workflow.Engine.{
  SideEffects, validate_async_preconditions, update_case, create_transition, context_of,
}

abbrev pub is_version_of : CaseRow → CaseRow → Bool
is_version_of row r =
    r.id === row.id && nat_beq r.optimistic_lock_version row.optimistic_lock_version

module _ (t : Tables) (side_effects : SideEffects t) (fresh : Fresh)
    (input : ExecuteTransitionInput) where
  -- The rows after a transition of `row` by `definition`, and its result.
  pub record Written (w : World t) (row : CaseRow) (definition : TransitionDefinition)
      (r : TransitionResult) (w' : World t) : Type 0 where
    pub cases :
        t.cases.rows w'.cases
        ≡ update_rows (is_version_of row) (moved fresh.now input definition) (t.cases.rows w.cases)
    pub transitions :
        t.transitions.rows w'.transitions
        ≡ t.transitions.rows w.transitions
          ++ transition_row fresh input definition row.current_state ∷ []
    pub audited :
        (event : PublishAuditEventInput) × (event.event_type ≡ case_transition)
        × (event.case_id ≡ some input.case_id)
        × (event.idempotency_key ≡ some (String.◌++◌ "audit:" input.idempotency_key))
        × (t.outbox.rows w'.outbox
            ≡ t.outbox.rows w.outbox ++ outbox_row fresh.outbox_id fresh.now event ∷ [])
    pub users : w'.users ≡ w.users
    pub votes : w'.votes ≡ w.votes
    pub first : r.idempotent_replay ≡ false
    pub result :
        r
        ≡ to_result
            (transition_row fresh input definition row.current_state)
            (row.optimistic_lock_version + 1)
            false
            r.tasks_created

  -- What was checked of the case before.
  pub record Checked (w : World t) (snapshot : Snapshot) (row : CaseRow)
      (definition : TransitionDefinition) : Type 0 where
    pub same_state : row.current_state ≡ snapshot.snapshot_state
    pub same_version : row.optimistic_lock_version ≡ snapshot.snapshot_version
    pub mapped : resolve_transition row.current_state input.command ≡ some definition
    pub allowed : IsAllowed (context_of t side_effects fresh input definition row)
    pub assignee : validate_async_preconditions t w input.command input.metadata row ≡ ok tt

  pub update_case_ok :
      (w w' : World t) (row : CaseRow) (change : CaseRow → CaseRow)
      → update_case t w row change ≡ ok w'
      → w' ≡ record w { cases = t.cases.update (is_version_of row) change w.cases }
  unfolding update_case
  update_case_ok w w' row change h =
      elim (Option-cases (find_first t.cases (is_version_of row) w.cases)) [
        | inl e ↦ let bad : throw client_p2025 ≡ ok w' = rw (e, update_case) at h in cc
        | inr (found, e) ↦
            let good : ok (record w { cases = t.cases.update (is_version_of row) change w.cases })
                ≡ ok w' =
              rw (e, update_case) at h in
            cc
      ]

  pub create_transition_ok :
      (w w' : World t) (row : TransitionRow)
      → create_transition t w row ≡ ok w'
      → w' ≡ record w { transitions = t.transitions.insert row w.transitions }
  unfolding create_transition
  create_transition_ok w w' row h = ground arith

  abbrev pub event_row : Snapshot → TransitionDefinition → CaseRow → OutboxRow
  event_row snapshot definition row =
      outbox_row fresh.outbox_id fresh.now
        (transition_event input snapshot (transition_row fresh input definition row.current_state))

  pub to_result-Written :
      (w updated recorded : World t) (snapshot : Snapshot) (definition : TransitionDefinition)
      (row : CaseRow) (tasks : List TransitionTaskStub) (outbox : t.outbox.Store) (rest : t.Rest)
      → updated ≡ record w {
        cases = t.cases.update (is_version_of row) (moved fresh.now input definition) w.cases;
      }
      → recorded ≡ record updated {
        transitions =
            t.transitions.insert
              (transition_row fresh input definition row.current_state)
              updated.transitions;
      }
      → outbox
        ≡ t.outbox.insert
            (outbox_row fresh.outbox_id fresh.now (
              transition_event input snapshot
                (transition_row fresh input definition row.current_state)))
            recorded.outbox
      → Written w row definition
          (to_result
            (transition_row fresh input definition row.current_state)
            (row.optimistic_lock_version + 1)
            false
            tasks)
          (record recorded { outbox = outbox; rest = rest })
  unfolding to_result transition_row transition_event
  to_result-Written w updated recorded snapshot definition row tasks outbox rest e₁ e₂ e₃ = record {
    cases =
        ap (λ (v : World t). t.cases.rows v.cases)
          (e₂
            ∙ ap
                (λ (v : World t). record v {
                  transitions =
                      t.transitions.insert (transition_row fresh input definition row.current_state)
                        v.transitions;
                })
                e₁)
        ∙ t.cases.rows-update _ _ w.cases;
    transitions =
        ap (λ (v : World t). t.transitions.rows v.transitions)
          (e₂
            ∙ ap
                (λ (v : World t). record v {
                  transitions =
                      t.transitions.insert (transition_row fresh input definition row.current_state)
                        v.transitions;
                })
                e₁)
        ∙ t.transitions.rows-insert _ w.transitions;
    audited = (
      transition_event input snapshot (transition_row fresh input definition row.current_state),
      refl,
      refl,
      refl,
      ap t.outbox.rows e₃
          ∙ t.outbox.rows-insert _ recorded.outbox
          ∙ ap (λ (v : World t). t.outbox.rows v.outbox ++ event_row snapshot definition row ∷ [])
              e₂
          ∙ ap (λ (v : World t). t.outbox.rows v.outbox ++ event_row snapshot definition row ∷ [])
              e₁,
    );
    users = ap (λ (v : World t). v.users) e₂ ∙ ap (λ (v : World t). v.users) e₁;
    votes = ap (λ (v : World t). v.votes) e₂ ∙ ap (λ (v : World t). v.votes) e₁;
    first = refl;
    result = refl;
  }
