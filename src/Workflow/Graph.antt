-- ===== src/Workflow/Graph.antt =====
-- apps/api/src/modules/case-management/transition/transition.commands.ts: the graph of the states.
use etik_bildirim_platformu.Prelude.{
  ◌≡◌, ◌≢◌, ◌↔◌, ◌⊎◌, inl, inr, true, none, some, List, [], ◌∷◌, arith, includes, All, Bool-cases,
  ===_iff, ◌===◌,
}
use etik_bildirim_platformu.Shared.Enums.{
  CaseState, report_submitted, not_on_agenda_closed, closed_archived, WorkflowCommand,
  WorkflowCommand-discrete, workflow_command_eq,
}
use etik_bildirim_platformu.Workflow.Map.{
  TransitionDefinition, transition_map, definition_of, resolve_transition, is_valid_transition,
  list_transitions_from_state,
}

-- The listed commands of a state are exactly those that are valid in it.
pub list_transitions-includes :
    (state : CaseState) (command : WorkflowCommand)
    → includes command (list_transitions_from_state state) ≡ is_valid_transition state command
unfolding list_transitions_from_state is_valid_transition WorkflowCommand-discrete
list_transitions-includes report_submitted command = ground arith
list_transitions-includes _ command = ground arith

abbrev pub IsTerminal : CaseState → Type 0
IsTerminal state = (state ≡ not_on_agenda_closed) ⊎ (state ≡ closed_archived)

-- A state has no further command exactly when it is one of the two closed states.
pub list_transitions-IsTerminal :
    (state : CaseState) → (list_transitions_from_state state ≡ []) ↔ IsTerminal state
unfolding list_transitions_from_state
list_transitions-IsTerminal state = ground arith

-- To prove something of every mapped transition, check the entries of each state.
definition_of-All :
    (P : WorkflowCommand → TransitionDefinition → Type 0)
    (entries : List (WorkflowCommand × TransitionDefinition)) (command : WorkflowCommand)
    (definition : TransitionDefinition)
    → definition_of command entries ≡ some definition
    → All (λ entry. P entry.0 entry.1) entries
    → P command definition
unfolding definition_of
definition_of-All P [] command definition e h = cc
definition_of-All P ((key, found) ∷ entries) command definition e (here, later) =
    elim (Bool-cases (key === command)) [
      | inl same ↦
          let key_is : key ≡ command = (===_iff key command).0 same in
          let found_is : found ≡ definition =
            let e' : some found ≡ some definition = rw same at e in cc in
          rw (← key_is, ← found_is) here
      | inr other ↦ definition_of-All P entries command definition (rw other at e) later
    ]

pub resolve_transition-All :
    (P : CaseState → WorkflowCommand → TransitionDefinition → Type 0)
    → ((state : CaseState) → All (λ entry. P state entry.0 entry.1) (transition_map state))
    → (state : CaseState) (command : WorkflowCommand) (definition : TransitionDefinition)
    → resolve_transition state command ≡ some definition
    → P state command definition
unfolding resolve_transition
resolve_transition-All P h state command definition e =
    definition_of-All (P state) (transition_map state) command definition e (h state)

abbrev ClosesRight : TransitionDefinition → Type 0
ClosesRight definition = (definition.closes_case ≡ true) ↔ IsTerminal definition.to_state

entries-ClosesRight :
    (state : CaseState) → All (λ entry. ClosesRight entry.1) (transition_map state)
unfolding transition_map
entries-ClosesRight report_submitted = ground arith
entries-ClosesRight _ = ground arith

-- A mapped transition marks the case as closed exactly when it leads to a closed state.
pub closes_case_iff :
    (state : CaseState) (command : WorkflowCommand) (definition : TransitionDefinition)
    → resolve_transition state command ≡ some definition
    → (definition.closes_case ≡ true) ↔ IsTerminal definition.to_state
closes_case_iff = resolve_transition-All (λ state command. ClosesRight) entries-ClosesRight

abbrev pub IsGuarded : TransitionDefinition → Type 0
IsGuarded definition =
    (definition.required_roles ≢ [])
    ⊎ ((definition.requires_assignment ≢ none) ⊎ (definition.is_system_command ≡ true))

entries-IsGuarded : (state : CaseState) → All (λ entry. IsGuarded entry.1) (transition_map state)
unfolding transition_map
entries-IsGuarded report_submitted = ground arith
entries-IsGuarded _ = ground arith

-- Every mapped transition is guarded: by a role, by an assignment to the case, or it is a
-- command of the system.
pub resolve_transition-IsGuarded :
    (state : CaseState) (command : WorkflowCommand) (definition : TransitionDefinition)
    → resolve_transition state command ≡ some definition
    → IsGuarded definition
resolve_transition-IsGuarded = resolve_transition-All (λ state command. IsGuarded) entries-IsGuarded
