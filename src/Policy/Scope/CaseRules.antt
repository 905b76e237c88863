-- ===== src/Policy/Scope/CaseRules.antt =====
-- packages/policy/src/abac-rules.ts: the rules of the cases, read off the table.
use etik_bildirim_platformu.Prelude.{
  ◌≡◌, refl, ◌≢◌, ◌↔◌, inl, inr, true, false, none, some, List, ◌∷◌, arith, In, includes,
  Option-cases, Bool-cases,
}
use etik_bildirim_platformu.Shared.Enums.{Role, rapporteur, action_owner}
use etik_bildirim_platformu.Policy.Abac.{
  AbacScopeType, AbacScopeType-discrete, company, assignment, function_location, abac_scope_type_eq,
  case_resource, AbacScopeRule, get_abac_rule_for_role_and_resource, resolve_effective_abac_rule,
}
use etik_bildirim_platformu.Policy.Abac.Effective.{
  resolve-ne-none, resolve-deny_all_iff, resolve-scopes_iff,
}

rule-ne-none : (role : Role) → get_abac_rule_for_role_and_resource role case_resource ≢ none
unfolding get_abac_rule_for_role_and_resource
rule-ne-none role = ground arith

-- A user with a role has an effective rule on cases, which does not deny everything.
pub case_rule :
    (role : Role) (roles : List Role)
    → (rule : AbacScopeRule) × (resolve_effective_abac_rule (role ∷ roles) case_resource
        ≡ some rule)
      × (rule.deny_all ≡ false)
case_rule role roles =
    elim (Option-cases (resolve_effective_abac_rule (role ∷ roles) case_resource)) [
      | inl e ↦ absurd (resolve-ne-none role roles case_resource (rule-ne-none role) e)
      | inr (rule, e) ↦
          (rule, e, ground (arith, resolve-deny_all_iff (role ∷ roles) case_resource rule e))
    ]

rule-assignment :
    (role : Role) (rule : AbacScopeRule)
    → get_abac_rule_for_role_and_resource role case_resource ≡ some rule
    → (includes assignment rule.scopes ≡ true) ↔ (role ≡ rapporteur)
unfolding get_abac_rule_for_role_and_resource AbacScopeType-discrete
rule-assignment role rule e = ground arith

rule-company :
    (role : Role) (rule : AbacScopeRule)
    → get_abac_rule_for_role_and_resource role case_resource ≡ some rule
    → (includes company rule.scopes ≡ true) ↔ (role ≡ action_owner)
unfolding get_abac_rule_for_role_and_resource AbacScopeType-discrete
rule-company role rule e = ground arith

rule-function_location :
    (role : Role) (rule : AbacScopeRule)
    → get_abac_rule_for_role_and_resource role case_resource ≡ some rule
    → includes function_location rule.scopes ≡ false
unfolding get_abac_rule_for_role_and_resource AbacScopeType-discrete
rule-function_location role rule e = ground arith

-- A scope that exactly one role carries is in the effective rule exactly when that role is there.
carried_by :
    (scope : AbacScopeType) (carrier : Role)
    → ((role : Role) (rule : AbacScopeRule)
        → get_abac_rule_for_role_and_resource role case_resource ≡ some rule
        → (includes scope rule.scopes ≡ true) ↔ (role ≡ carrier))
    → (roles : List Role) (rule : AbacScopeRule)
    → resolve_effective_abac_rule roles case_resource ≡ some rule
    → rule.deny_all ≡ false
    → (includes scope rule.scopes ≡ true) ↔ In carrier roles
carried_by scope carrier table roles rule e d = (
  λ h.
      let (r, (role, i, found), q) = (resolve-scopes_iff roles case_resource rule scope e d).0 h in
      rw ((table role r found).0 q) at i,
  λ i. elim (Option-cases (get_abac_rule_for_role_and_resource carrier case_resource)) [
    | inl n ↦ absurd (rule-ne-none carrier n)
    | inr (r, found) ↦
        (resolve-scopes_iff roles case_resource rule scope e d).1
          (r, (carrier, i, found), (table carrier r found).1 refl)
  ],
)

module _ (roles : List Role) (rule : AbacScopeRule)
    (e : resolve_effective_abac_rule roles case_resource ≡ some rule)
    (d : rule.deny_all ≡ false) where
  pub case_rule-assignment : (includes assignment rule.scopes ≡ true) ↔ In rapporteur roles
  case_rule-assignment = carried_by assignment rapporteur rule-assignment roles rule e d

  pub case_rule-company : (includes company rule.scopes ≡ true) ↔ In action_owner roles
  case_rule-company = carried_by company action_owner rule-company roles rule e d

  pub case_rule-function_location : includes function_location rule.scopes ≡ false
  case_rule-function_location = elim (Bool-cases (includes function_location rule.scopes)) [
    | inl h ↦
        let (r, (role, i, found), q) =
          (resolve-scopes_iff roles case_resource rule function_location e d).0 h in
        cc (rule-function_location role r found, q)
    | inr h ↦ h
  ]
