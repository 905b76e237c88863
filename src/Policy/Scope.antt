-- ===== src/Policy/Scope.antt =====
-- apps/api/src/authorization/policy-scope.service.ts and policy-scope.constants.ts: the `where`
-- that a list query of a user is restricted by.
pub mod CaseRules
pub mod CaseAccess
use etik_bildirim_platformu.Prelude.{
  String, Bool, true, false, Option, none, some, List, [], ◌∷◌, ◌++◌, truthy, includes,
  if◌then◌else◌,
}
use etik_bildirim_platformu.Shared.Enums.{ClearanceLevel}
use etik_bildirim_platformu.Policy.User.{AuthenticatedUser}
use etik_bildirim_platformu.Policy.Clearance.{get_allowed_clearance_levels}
use etik_bildirim_platformu.Policy.Abac.{
  AbacScopeType, company, assignment, function_location, abac_scope_type_eq, AbacScopeType-discrete,
  AbacScopeRule, PolicyResourceType, case_resource, task_resource, document_resource,
  secure_message_resource, resolve_effective_abac_rule,
}

-- `CaseWhereInput | TaskWhereInput`, with the filters that the service builds.
mutual
  pub data ScopeWhere : Type 0 where
    everything : ScopeWhere
    id_is : String → ScopeWhere
    confidentiality_in : List ClearanceLevel → ScopeWhere
    case_confidentiality_in : List ClearanceLevel → ScopeWhere
    assigned_rapporteur_is : String → ScopeWhere
    company_is : String → ScopeWhere
    assigned_user_is : String → ScopeWhere
    assigned_company_is : String → ScopeWhere
    assigned_function_is : String → ScopeWhere
    and_of : Conditions → ScopeWhere

  pub data Conditions : Type 0 where
    nil : Conditions
    cons : ScopeWhere → Conditions → Conditions

abbrev pub policy_deny_all_id : String
policy_deny_all_id = "__POLICY_DENY_ALL__"

abbrev pub build_deny_all_where : ScopeWhere
build_deny_all_where = id_is policy_deny_all_id

-- Pushes a condition if the scope asks for it; `none` is the source's 'DENY'.
abbrev push_if : Bool → Option ScopeWhere → Option Conditions → Option Conditions
push_if false condition rest = rest
push_if true none rest = none
push_if true (some condition) none = none
push_if true (some condition) (some rest) = some (cons condition rest)

abbrev pub merge_conditions : Conditions → ScopeWhere
merge_conditions nil = everything
merge_conditions (cons first nil) = first
merge_conditions (cons first (cons second rest)) = and_of (cons first (cons second rest))

abbrev merged : Option Conditions → Option ScopeWhere
merged none = none
merged (some conditions) = some (merge_conditions conditions)

abbrev filter_by : (String → ScopeWhere) → Option String → Option ScopeWhere
filter_by filter none = none
filter_by filter (some id) = some (filter id)

unfoldable pub build_case_abac_conditions :
    AuthenticatedUser → List AbacScopeType → Option ScopeWhere
unfolding AbacScopeType-discrete
build_case_abac_conditions user scopes = merged (
    push_if (includes assignment scopes) (some (assigned_rapporteur_is user.id)) (
      push_if (includes company scopes) (filter_by company_is (truthy user.company_id)) (
        push_if (includes function_location scopes) (filter_by company_is (truthy user.company_id))
          (some nil))))

unfoldable pub build_task_abac_conditions :
    AuthenticatedUser → List AbacScopeType → Option ScopeWhere
unfolding AbacScopeType-discrete
build_task_abac_conditions user scopes = merged (
    push_if (includes assignment scopes) (some (assigned_user_is user.id)) (
      push_if (includes company scopes) (filter_by assigned_company_is (truthy user.company_id)) (
        push_if (includes function_location scopes)
          (filter_by assigned_function_is (truthy user.function_id)) (some nil))))

unfoldable pub build_clearance_condition : PolicyResourceType → ClearanceLevel → ScopeWhere
build_clearance_condition task_resource clearance =
    case_confidentiality_in (get_allowed_clearance_levels clearance)
build_clearance_condition _ clearance = confidentiality_in (get_allowed_clearance_levels clearance)

-- The clearance condition, alone or beside the conditions of the scopes.
abbrev pub with_clearance : ScopeWhere → Option ScopeWhere → ScopeWhere
with_clearance clearance none = build_deny_all_where
with_clearance clearance (some everything) = clearance
with_clearance clearance (some condition) = and_of (cons clearance (cons condition nil))

abbrev pub scope_of_rule :
    AuthenticatedUser
    → PolicyResourceType
    → (List AbacScopeType → Option ScopeWhere)
    → Option AbacScopeRule
    → ScopeWhere
scope_of_rule user resource build_abac none = build_deny_all_where
scope_of_rule user resource build_abac (some rule) =
    if rule.deny_all
    then build_deny_all_where
    else with_clearance (build_clearance_condition resource user.clearance_level)
        (build_abac rule.scopes)

abbrev pub unless_empty {ℓ} : {A : Type ℓ} → List A → ScopeWhere → ScopeWhere
unless_empty [] scope = build_deny_all_where
unless_empty (_ ∷ _) scope = scope

unfoldable pub build_resource_scope :
    AuthenticatedUser → PolicyResourceType → (List AbacScopeType → Option ScopeWhere) → ScopeWhere
unfolding build_clearance_condition
build_resource_scope user resource build_abac =
    unless_empty user.roles
      (scope_of_rule user resource build_abac (resolve_effective_abac_rule user.roles resource))

unfoldable pub build_case_scope : AuthenticatedUser → ScopeWhere
unfolding build_resource_scope build_case_abac_conditions
build_case_scope user = build_resource_scope user case_resource (build_case_abac_conditions user)

unfoldable pub build_task_scope : AuthenticatedUser → ScopeWhere
unfolding build_resource_scope build_task_abac_conditions
build_task_scope user = build_resource_scope user task_resource (build_task_abac_conditions user)
