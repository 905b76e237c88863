-- ===== src/Workflow/Gates.antt =====
-- apps/api/src/modules/case-management/transition/transition.commands.ts: the approvals that no
-- sequence of commands gets round.
use etik_bildirim_platformu.Prelude.{
  ◌≡◌, refl, ◌⊎◌, inl, inr, Bool, true, false, none, some, List, [], ◌∷◌, arith, In, All,
  Option-cases,
}
use etik_bildirim_platformu.Shared.Enums.{
  CaseState, report_submitted, secretariat_review, pre_research, chair_gate, not_on_agenda_closed,
  decision_draft, board_chair_review, board_approved, implementation_letter_prepared,
  WorkflowCommand, approve_agenda, create_decision_draft, board_approve,
}
use etik_bildirim_platformu.Workflow.Map.{TransitionDefinition, transition_map, resolve_transition}
use etik_bildirim_platformu.Workflow.Graph.{resolve_transition-All}
use etik_bildirim_platformu.Workflow.Runs.{run}

-- The states before a gate are left by the gate's command alone.
abbrev LeftBy :
    (CaseState → Bool)
    → WorkflowCommand
    → CaseState
    → WorkflowCommand
    → TransitionDefinition
    → Type 0
LeftBy before gate state command definition =
    before state ≡ true → (gate ≡ command) ⊎ (before definition.to_state ≡ true)

module _ (before : CaseState → Bool) (gate : WorkflowCommand)
    (entries : (state : CaseState)
      → All (λ entry. LeftBy before gate state entry.0 entry.1) (transition_map state)) where
  run-gate :
      (state : CaseState) (commands : List WorkflowCommand) (last : CaseState)
      → run state commands ≡ some last
      → before state ≡ true
      → before last ≡ false
      → In gate commands
  unfolding run
  run-gate state [] last e b l = let same : some state ≡ some last = e in cc
  run-gate state (command ∷ commands) last e b l =
      elim (Option-cases (resolve_transition state command)) [
        | inl n ↦ let stuck : none ≡ some last = rw (n, run) at e in cc
        | inr (definition, found) ↦
            let rest : run definition.to_state commands ≡ some last = rw (found, run) at e in
            elim (resolve_transition-All (LeftBy before gate) entries state command definition found
              b) [
                | inl opened ↦ inl opened
                | inr still ↦ inr (run-gate definition.to_state commands last rest still l)
              ]
      ]

-- The states that a case can be in before the chair has put it on the agenda.
abbrev pub before_agenda : CaseState → Bool
before_agenda report_submitted = true
before_agenda secretariat_review = true
before_agenda pre_research = true
before_agenda chair_gate = true
before_agenda not_on_agenda_closed = true
before_agenda _ = false

agenda_entries :
    (state : CaseState)
    → All
        (λ entry. LeftBy before_agenda approve_agenda state entry.0 entry.1)
        (transition_map state)
unfolding transition_map
agenda_entries report_submitted = ground arith
agenda_entries _ = ground arith

-- A submitted report gets past the chair's gate only by the command with which the chair puts it
-- on the agenda.
pub agenda_needs_chair :
    (commands : List WorkflowCommand) (last : CaseState)
    → run report_submitted commands ≡ some last
    → before_agenda last ≡ false
    → In approve_agenda commands
agenda_needs_chair commands last e l =
    run-gate before_agenda approve_agenda agenda_entries report_submitted commands last e refl l

abbrev pub without_draft : CaseState → Bool
without_draft decision_draft = false
without_draft board_chair_review = false
without_draft board_approved = false
without_draft implementation_letter_prepared = false
without_draft _ = true

draft_entries :
    (state : CaseState)
    → All
        (λ entry. LeftBy without_draft create_decision_draft state entry.0 entry.1)
        (transition_map state)
unfolding transition_map
draft_entries report_submitted = ground arith
draft_entries _ = ground arith

abbrev pub without_board : CaseState → Bool
without_board board_approved = false
without_board implementation_letter_prepared = false
without_board _ = true

board_entries :
    (state : CaseState)
    → All (λ entry. LeftBy without_board board_approve state entry.0 entry.1) (transition_map state)
unfolding transition_map
board_entries report_submitted = ground arith
board_entries _ = ground arith

-- A submitted report whose decision the board has approved, or whose implementation letter is
-- prepared, has passed the chair's gate, the members' decision and the board chair's approval.
pub approval_needs_all :
    (commands : List WorkflowCommand) (last : CaseState)
    → run report_submitted commands ≡ some last
    → (last ≡ board_approved) ⊎ (last ≡ implementation_letter_prepared)
    → In approve_agenda commands × In create_decision_draft commands × In board_approve commands
approval_needs_all commands last e l = (
  agenda_needs_chair commands last e (ground arith),
  run-gate without_draft create_decision_draft draft_entries report_submitted commands last e refl
      (ground arith),
  run-gate without_board board_approve board_entries report_submitted commands last e refl
      (ground arith),
)
