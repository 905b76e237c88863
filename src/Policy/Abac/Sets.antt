-- ===== src/Policy/Abac/Sets.antt =====
-- packages/policy/src/abac-rules.ts: the members of the `Set` that the rules are merged into.
use etik_bildirim_platformu.Prelude.{
  ◌≡◌, refl, ◌↔◌, inl, inr, ◌||◌, some, List, [], ◌∷◌, ◌++◌, arith, ◌===◌, ===_iff, any, In,
  includes, Option-cases,
}
use etik_bildirim_platformu.Shared.Enums.{Role}
use etik_bildirim_platformu.Policy.Abac.{
  AbacScopeType, abac_scope_type_eq, PolicyResourceType, AbacScopeRule,
  get_abac_rule_for_role_and_resource, add_scope, add_scopes, collect_scopes, rules_of,
}

includes-append_one :
    (s t : AbacScopeType) (set : List AbacScopeType)
    → includes s (set ++ t ∷ []) ≡ (includes s set || s === t)
includes-append_one s t [] = ground arith
includes-append_one s t (x ∷ set) = ground (arith, includes-append_one s t set)

includes-add_scope :
    (s t : AbacScopeType) (set : List AbacScopeType)
    → includes s (add_scope t set) ≡ (includes s set || s === t)
includes-add_scope s t set = ground (arith, includes-append_one s t set, ===_iff s t)

includes-add_scopes :
    (s : AbacScopeType) (set scopes : List AbacScopeType)
    → includes s (add_scopes set scopes) ≡ (includes s set || includes s scopes)
unfolding add_scopes
includes-add_scopes s set [] = ground arith
includes-add_scopes s set (t ∷ scopes) =
    ground (arith, includes-add_scopes s (add_scope t set) scopes, includes-add_scope s t set)

pub includes-collect_scopes :
    (s : AbacScopeType) (set : List AbacScopeType) (rules : List AbacScopeRule)
    → includes s (collect_scopes set rules)
      ≡ (includes s set || any (λ rule. includes s rule.scopes) rules)
unfolding collect_scopes
includes-collect_scopes s set [] = ground arith
includes-collect_scopes s set (rule ∷ rules) = ground (
  arith,
  includes-collect_scopes s (add_scopes set rule.scopes) rules,
  includes-add_scopes s set rule.scopes,
)

-- The rule of one of the roles.
abbrev pub HasRule : List Role → PolicyResourceType → AbacScopeRule → Type 0
HasRule roles resource rule =
    (role : Role) × In role roles × (get_abac_rule_for_role_and_resource role resource ≡ some rule)

HasRule-cons :
    (r : Role) (roles : List Role) (resource : PolicyResourceType) (rule : AbacScopeRule)
    → HasRule roles resource rule
    → HasRule (r ∷ roles) resource rule
HasRule-cons r roles resource rule (role, i, e) = (role, inr i, e)

rules_of-HasRule :
    (roles : List Role) (resource : PolicyResourceType) (rule : AbacScopeRule)
    → In rule (rules_of roles resource)
    → HasRule roles resource rule
unfolding rules_of
rules_of-HasRule [] resource rule h = elim h [ ]
rules_of-HasRule (r ∷ roles) resource rule h =
    elim (Option-cases (get_abac_rule_for_role_and_resource r resource)) [
      | inl e ↦
          HasRule-cons r roles resource rule
            (rules_of-HasRule roles resource rule (rw (e, rules_of) at h))
      | inr (found, e) ↦
          let both : In rule (found ∷ rules_of roles resource) = rw (e, rules_of) at h in
          elim both [
            | inl same ↦ (r, inl refl, rw same e)
            | inr i ↦ HasRule-cons r roles resource rule (rules_of-HasRule roles resource rule i)
          ]
    ]

rules_of-In :
    (roles : List Role) (resource : PolicyResourceType) (rule : AbacScopeRule) (role : Role)
    → In role roles
    → get_abac_rule_for_role_and_resource role resource ≡ some rule
    → In rule (rules_of roles resource)
unfolding rules_of
rules_of-In [] resource rule role i e = elim i [ ]
rules_of-In (r ∷ roles) resource rule role (inl same) e =
    let found : get_abac_rule_for_role_and_resource r resource ≡ some rule = rw (← same) e in
    rw (found, rules_of) (inl refl)
rules_of-In (r ∷ roles) resource rule role (inr i) e =
    elim (Option-cases (get_abac_rule_for_role_and_resource r resource)) [
      | inl n ↦ rw (n, rules_of) (rules_of-In roles resource rule role i e)
      | inr (found, n) ↦ rw (n, rules_of) (inr (rules_of-In roles resource rule role i e))
    ]

pub rules_of_iff :
    (roles : List Role) (resource : PolicyResourceType) (rule : AbacScopeRule)
    → In rule (rules_of roles resource) ↔ HasRule roles resource rule
rules_of_iff roles resource rule =
    (rules_of-HasRule roles resource rule, λ h. rules_of-In roles resource rule h.0 h.1 h.2)
