-- ===== src/Policy/Abac/Effective.antt =====
-- packages/policy/src/abac-rules.ts: what `resolveEffectiveAbacRule` makes of several roles.
use etik_bildirim_platformu.Prelude.{
  ◌≡◌, refl, ◌≢◌, ◌↔◌, inl, inr, true, false, none, some, List, [], ◌∷◌, arith, any, any_iff,
  any_of_In, In, sym, ◌∙◌, includes, Option-cases,
}
use etik_bildirim_platformu.Shared.Enums.{Role, admin}
use etik_bildirim_platformu.Policy.Abac.{
  AbacScopeType, abac_scope_type_eq, PolicyResourceType, case_resource, AbacScopeRule, denied,
  get_abac_rule_for_role_and_resource, rules_of, merge_rules, resolve_effective_abac_rule,
}
use etik_bildirim_platformu.Policy.Abac.Sets.{includes-collect_scopes, HasRule, rules_of_iff}

-- A rule denies everything exactly when it is that of the administrator outside of cases.
denies_iff :
    (role : Role) (resource : PolicyResourceType) (rule : AbacScopeRule)
    → get_abac_rule_for_role_and_resource role resource ≡ some rule
    → (rule.deny_all ≡ true) ↔ ((role ≡ admin) × (resource ≢ case_resource))
unfolding get_abac_rule_for_role_and_resource
denies_iff role resource rule e = ground arith

admin_denied :
    (resource : PolicyResourceType)
    → resource ≢ case_resource
    → get_abac_rule_for_role_and_resource admin resource ≡ some denied
unfolding get_abac_rule_for_role_and_resource
admin_denied resource h = ground arith

merge-deny_all :
    (rules : List AbacScopeRule) (rule : AbacScopeRule)
    → merge_rules rules ≡ some rule
    → rule.deny_all ≡ any (λ r. r.deny_all) rules
unfolding merge_rules
merge-deny_all [] rule e = cc
merge-deny_all (r ∷ rules) rule e = ground arith

merge-scopes :
    (rules : List AbacScopeRule) (rule : AbacScopeRule) (scope : AbacScopeType)
    → merge_rules rules ≡ some rule
    → rule.deny_all ≡ false
    → includes scope rule.scopes ≡ any (λ r. includes scope r.scopes) rules
unfolding merge_rules
merge-scopes [] rule scope e d = cc
merge-scopes (r ∷ rules) rule scope e d =
    ground (arith, includes-collect_scopes scope [] (r ∷ rules))

merge_rules-ne-none :
    (rule : AbacScopeRule) (rules : List AbacScopeRule) → merge_rules (rule ∷ rules) ≢ none
unfolding merge_rules
merge_rules-ne-none rule rules = ground arith

-- The first role's rule is enough for an effective rule.
pub resolve-ne-none :
    (role : Role) (roles : List Role) (resource : PolicyResourceType)
    → get_abac_rule_for_role_and_resource role resource ≢ none
    → resolve_effective_abac_rule (role ∷ roles) resource ≢ none
unfolding resolve_effective_abac_rule rules_of
resolve-ne-none role roles resource some_rule h =
    elim (Option-cases (get_abac_rule_for_role_and_resource role resource)) [
      | inl e ↦ absurd (some_rule e)
      | inr (rule, e) ↦
          let merged : merge_rules (rule ∷ rules_of roles resource) ≡ none =
            rw (e, rules_of) at h in
          absurd (merge_rules-ne-none rule (rules_of roles resource) merged)
    ]

-- The effective rule denies everything exactly when the administrator is among the roles and the
-- resource is not a case, whatever the other roles are.
pub resolve-deny_all_iff :
    (roles : List Role) (resource : PolicyResourceType) (rule : AbacScopeRule)
    → resolve_effective_abac_rule roles resource ≡ some rule
    → (rule.deny_all ≡ true) ↔ (In admin roles × (resource ≢ case_resource))
unfolding resolve_effective_abac_rule
resolve-deny_all_iff roles resource rule e =
    let same = merge-deny_all (rules_of roles resource) rule e in
    (
      λ h.
          let (r, i, d) = (any_iff _ _).0 (sym same ∙ h) in
          let (role, at_role, found) = (rules_of_iff roles resource r).0 i in
          let (is_admin, other) = (denies_iff role resource r found).0 d in
          (rw is_admin at at_role, other),
      λ (at_admin, other).
          same
          ∙ any_of_In _ _ denied
              ((rules_of_iff roles resource denied).1
                (admin, at_admin, admin_denied resource other))
              refl,
    )

-- Of a rule that does not deny everything, the scopes are the union of the scopes of the roles.
pub resolve-scopes_iff :
    (roles : List Role) (resource : PolicyResourceType) (rule : AbacScopeRule)
    (scope : AbacScopeType)
    → resolve_effective_abac_rule roles resource ≡ some rule
    → rule.deny_all ≡ false
    → (includes scope rule.scopes ≡ true)
      ↔ ((r : AbacScopeRule) × HasRule roles resource r × (includes scope r.scopes ≡ true))
unfolding resolve_effective_abac_rule
resolve-scopes_iff roles resource rule scope e d =
    let same = merge-scopes (rules_of roles resource) rule scope e d in
    (
      λ h.
          let (r, i, q) = (any_iff _ _).0 (sym same ∙ h) in
          (r, (rules_of_iff roles resource r).0 i, q),
      λ (r, has, q). same ∙ any_of_In _ _ r ((rules_of_iff roles resource r).1 has) q,
    )
