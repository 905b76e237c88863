-- ===== src/Policy/Abac.antt =====
-- packages/policy/src/abac-rules.ts: which attribute scopes bind a role on a resource.
pub mod Sets
pub mod Effective
use etik_bildirim_platformu.Prelude.{
  ◌≡◌, refl, ◌≢◌, ◌↔◌, ◌⊎◌, inl, inr, Bool, true, false, ◌||◌, Option, none, some, List, [], ◌∷◌,
  ◌++◌, arith, Eq, eq_by, ◌===◌, ===_iff, if◌then◌else◌, any, In, includes, Bool-cases,
}
use etik_bildirim_platformu.Shared.Enums.{
  Role, council_secretary, council_chair, council_member, rapporteur, board_chair, action_owner,
  admin,
}

pub data AbacScopeType : Type 0 where
  company assignment function_location confidentiality_clearance : AbacScopeType

unfoldable pub AbacScopeType-discrete : Discrete AbacScopeType
AbacScopeType-discrete = hlevel

instance abbrev pub abac_scope_type_eq : Eq AbacScopeType
abac_scope_type_eq = eq_by AbacScopeType-discrete

-- The constructor `case` of the source is `case_resource`, and so on.
pub data PolicyResourceType : Type 0 where
  case_resource task_resource document_resource secure_message_resource : PolicyResourceType

pub record AbacScopeRule : Type 0 where
  pub scopes : List AbacScopeType
  pub deny_all : Bool

abbrev scoped : List AbacScopeType → Option AbacScopeRule
scoped scopes = some (record { scopes = scopes; deny_all = false })

abbrev pub denied : AbacScopeRule
denied = record { scopes = []; deny_all = true }

-- `ROLE_RESOURCE_ABAC_RULES[role][resource]`
unfoldable pub get_abac_rule_for_role_and_resource :
    Role → PolicyResourceType → Option AbacScopeRule
get_abac_rule_for_role_and_resource council_secretary case_resource =
    scoped (confidentiality_clearance ∷ [])
get_abac_rule_for_role_and_resource council_secretary task_resource =
    scoped (confidentiality_clearance ∷ [])
get_abac_rule_for_role_and_resource council_secretary document_resource =
    scoped (confidentiality_clearance ∷ assignment ∷ [])
get_abac_rule_for_role_and_resource council_secretary secure_message_resource =
    scoped (confidentiality_clearance ∷ [])
get_abac_rule_for_role_and_resource council_chair case_resource =
    scoped (confidentiality_clearance ∷ [])
get_abac_rule_for_role_and_resource council_chair task_resource =
    scoped (assignment ∷ confidentiality_clearance ∷ [])
get_abac_rule_for_role_and_resource council_chair document_resource =
    scoped (confidentiality_clearance ∷ assignment ∷ [])
get_abac_rule_for_role_and_resource council_member case_resource =
    scoped (confidentiality_clearance ∷ [])
get_abac_rule_for_role_and_resource council_member task_resource =
    scoped (assignment ∷ confidentiality_clearance ∷ [])
get_abac_rule_for_role_and_resource council_member document_resource =
    scoped (confidentiality_clearance ∷ assignment ∷ [])
get_abac_rule_for_role_and_resource board_chair case_resource =
    scoped (confidentiality_clearance ∷ [])
get_abac_rule_for_role_and_resource board_chair task_resource =
    scoped (assignment ∷ confidentiality_clearance ∷ [])
get_abac_rule_for_role_and_resource board_chair document_resource =
    scoped (confidentiality_clearance ∷ assignment ∷ [])
get_abac_rule_for_role_and_resource rapporteur case_resource =
    scoped (assignment ∷ confidentiality_clearance ∷ [])
get_abac_rule_for_role_and_resource rapporteur task_resource =
    scoped (assignment ∷ confidentiality_clearance ∷ [])
get_abac_rule_for_role_and_resource rapporteur document_resource =
    scoped (assignment ∷ confidentiality_clearance ∷ [])
get_abac_rule_for_role_and_resource action_owner case_resource =
    scoped (company ∷ confidentiality_clearance ∷ [])
get_abac_rule_for_role_and_resource action_owner task_resource =
    scoped (company ∷ confidentiality_clearance ∷ [])
get_abac_rule_for_role_and_resource action_owner document_resource =
    scoped (company ∷ confidentiality_clearance ∷ [])
get_abac_rule_for_role_and_resource admin case_resource = scoped []
get_abac_rule_for_role_and_resource admin task_resource = some denied
get_abac_rule_for_role_and_resource admin document_resource = some denied
get_abac_rule_for_role_and_resource admin secure_message_resource = some denied
get_abac_rule_for_role_and_resource _ secure_message_resource = none

-- `Set.add`: a set keeps its members in the order in which they were added first.
abbrev pub add_scope : AbacScopeType → List AbacScopeType → List AbacScopeType
add_scope scope set = if includes scope set then set else set ++ scope ∷ []

pub add_scopes : List AbacScopeType → List AbacScopeType → List AbacScopeType
add_scopes set [] = set
add_scopes set (scope ∷ scopes) = add_scopes (add_scope scope set) scopes

pub collect_scopes : List AbacScopeType → List AbacScopeRule → List AbacScopeType
unfolding add_scopes
collect_scopes set [] = set
collect_scopes set (rule ∷ rules) = collect_scopes (add_scopes set rule.scopes) rules

pub rules_of : List Role → PolicyResourceType → List AbacScopeRule
rules_of [] resource = []
rules_of (role ∷ roles) resource = elim (get_abac_rule_for_role_and_resource role resource) [
  | none ↦ rules_of roles resource
  | some rule ↦ rule ∷ rules_of roles resource
]

pub merge_rules : List AbacScopeRule → Option AbacScopeRule
unfolding collect_scopes
merge_rules [] = none
merge_rules (rule ∷ rules) =
    if any (λ r. r.deny_all) (rule ∷ rules)
    then some denied
    else scoped (collect_scopes [] (rule ∷ rules))

unfoldable pub resolve_effective_abac_rule : List Role → PolicyResourceType → Option AbacScopeRule
unfolding rules_of merge_rules
resolve_effective_abac_rule roles resource = merge_rules (rules_of roles resource)
