-- ===== src/Workflow/Permitted.antt =====
-- apps/api/src/modules/case-management/transition/transition.commands.ts against
-- packages/policy/src/role-permission-map.ts.
use etik_bildirim_platformu.Prelude.{◌≡◌, ◌≢◌, inl, inr, true, some, [], arith, All, All-In}
use etik_bildirim_platformu.Shared.Enums.{CaseState, report_submitted, Role, WorkflowCommand}
use etik_bildirim_platformu.Policy.Permissions.{
  case_transition, role_has_permission, roles_have_permission, roles_have_permission_iff,
  get_permissions_for_role, PermissionCode-discrete,
}
use etik_bildirim_platformu.Workflow.Map.{TransitionDefinition, transition_map, resolve_transition}
use etik_bildirim_platformu.Workflow.Graph.{resolve_transition-All}
use etik_bildirim_platformu.Workflow.Validators.{TransitionActor}
use etik_bildirim_platformu.Workflow.Validators.Allowed.{HoldsRole}

abbrev ArePermitted : TransitionDefinition → Type 0
ArePermitted definition =
    All (λ (role : Role). role_has_permission role case_transition ≡ true) definition.required_roles

entries-ArePermitted :
    (state : CaseState) → All (λ entry. ArePermitted entry.1) (transition_map state)
unfolding transition_map role_has_permission get_permissions_for_role PermissionCode-discrete
entries-ArePermitted report_submitted = ground arith
entries-ArePermitted _ = ground arith

-- Whoever holds a role that a mapped transition asks for, where it asks for one, has the permission
-- for transitions of cases.
pub HoldsRole-case_transition :
    (state : CaseState) (command : WorkflowCommand) (definition : TransitionDefinition)
    (actor : TransitionActor)
    → resolve_transition state command ≡ some definition
    → definition.required_roles ≢ []
    → HoldsRole actor definition
    → roles_have_permission actor.roles case_transition ≡ true
HoldsRole-case_transition state command definition actor mapped asked (inl none_asked) =
    absurd (asked none_asked)
HoldsRole-case_transition state command definition actor mapped asked (inr (role, required, held)) =
    let permitted =
      resolve_transition-All (λ state command. ArePermitted) entries-ArePermitted state command
        definition mapped in
    (roles_have_permission_iff actor.roles case_transition).1
      (role, held, All-In _ definition.required_roles role permitted required)
