-- ===== src/Policy/Scope/CaseAccess.antt =====
-- apps/api/src/authorization/policy-scope.service.ts: which cases `buildCaseScope` lets through.
-- The database's reading of a `where` is a parameter, of which only the documented meaning of
-- each filter is used.
use etik_bildirim_platformu.Prelude.{
  ◌≡◌, ◌≢◌, ◌↔◌, inl, inr, Bool, true, false, ◌&&◌, some, List, [], ◌∷◌, arith, String, truthy,
  ◌===◌, ===_iff, string_eq, option_eq, In, includes, Option-cases,
}
use etik_bildirim_platformu.Shared.Enums.{
  Role, rapporteur, action_owner, ClearanceLevel, clearance_level_eq,
}
use etik_bildirim_platformu.Policy.Clearance.{
  is_clearance_sufficient, get_allowed_clearance_levels, get_allowed_clearance_levels_iff,
}
use etik_bildirim_platformu.Storage.Rows.{CaseRow}
use etik_bildirim_platformu.Policy.User.{AuthenticatedUser}
use etik_bildirim_platformu.Policy.Abac.{
  company, assignment, function_location, abac_scope_type_eq, AbacScopeRule, case_resource,
  resolve_effective_abac_rule,
}
use etik_bildirim_platformu.Policy.Scope.{
  ScopeWhere, everything, id_is, confidentiality_in, assigned_rapporteur_is, company_is, and_of,
  Conditions, nil, cons, policy_deny_all_id, unless_empty, scope_of_rule,
  build_case_abac_conditions, build_case_scope,
}
use etik_bildirim_platformu.Policy.Scope.CaseRules.{
  case_rule, case_rule-assignment, case_rule-company, case_rule-function_location,
}

-- How the database client reads a filter on cases.
pub record CaseFilter : Type 0 where
  pub matches : ScopeWhere → CaseRow → Bool
  pub matches-everything : (row : CaseRow) → matches everything row ≡ true
  pub matches-id : (id : String) (row : CaseRow) → matches (id_is id) row ≡ (row.id === id)
  pub matches-confidentiality :
      (levels : List ClearanceLevel) (row : CaseRow)
      → matches (confidentiality_in levels) row ≡ includes row.confidentiality_level levels
  pub matches-rapporteur :
      (id : String) (row : CaseRow)
      → matches (assigned_rapporteur_is id) row ≡ (row.assigned_rapporteur_id === some id)
  pub matches-company :
      (id : String) (row : CaseRow) → matches (company_is id) row ≡ (row.company_id === id)
  pub matches-and_nil : (row : CaseRow) → matches (and_of nil) row ≡ true
  pub matches-and_cons :
      (condition : ScopeWhere) (rest : Conditions) (row : CaseRow)
      → matches (and_of (cons condition rest)) row
        ≡ (matches condition row && matches (and_of rest) row)

-- Who may see a case: a user with some role and with the clearance, who is its rapporteur if
-- that is one of the user's roles, and belongs to its company if a role is that of an action
-- owner.
pub record CanSeeCase (user : AuthenticatedUser) (row : CaseRow) : Type 0 where
  pub has_role : user.roles ≢ []
  pub cleared : is_clearance_sufficient user.clearance_level row.confidentiality_level ≡ true
  pub assigned : In rapporteur user.roles → row.assigned_rapporteur_id ≡ some user.id
  pub same_company : In action_owner user.roles → truthy user.company_id ≡ some row.company_id

module _ (filter : CaseFilter) where
  open filter use {
    matches, matches-everything, matches-id, matches-confidentiality, matches-rapporteur,
    matches-company, matches-and_nil, matches-and_cons,
  }

  matches-and :
      (a b : ScopeWhere) (row : CaseRow)
      → matches (and_of (cons a (cons b nil))) row ≡ (matches a row && matches b row)
  matches-and a b row =
      ground (
        arith,
        matches-and_cons a (cons b nil) row,
        matches-and_cons b nil row,
        matches-and_nil row,
      )

  -- The scope of a rule, by the three tests that the service makes on it.
  scope_of_rule_iff :
      (user : AuthenticatedUser) (row : CaseRow) (rule : AbacScopeRule)
      → row.id ≢ policy_deny_all_id
      → rule.deny_all ≡ false
      → includes function_location rule.scopes ≡ false
      → (matches
            (scope_of_rule user case_resource (build_case_abac_conditions user) (some rule))
            row
          ≡ true)
        ↔ ((is_clearance_sufficient user.clearance_level row.confidentiality_level ≡ true)
            × (includes assignment rule.scopes ≡ true → row.assigned_rapporteur_id ≡ some user.id)
            × (includes company rule.scopes ≡ true → truthy user.company_id ≡ some row.company_id))
  unfolding build_case_abac_conditions build_case_scope
  scope_of_rule_iff user row rule real open_rule no_function =
      let mine = assigned_rapporteur_is user.id in
      let levels = get_allowed_clearance_levels user.clearance_level in
      elim (Option-cases (truthy user.company_id)) [
        | inl e ↦ ground (
          arith,
          e,
          matches-id policy_deny_all_id row,
          ===_iff row.id policy_deny_all_id,
          matches-confidentiality levels row,
          get_allowed_clearance_levels_iff user.clearance_level row.confidentiality_level,
          matches-rapporteur user.id row,
          ===_iff row.assigned_rapporteur_id (some user.id),
          matches-and (confidentiality_in levels) mine row,
        )
        | inr (c, e) ↦ ground (
          arith,
          e,
          matches-confidentiality levels row,
          get_allowed_clearance_levels_iff user.clearance_level row.confidentiality_level,
          matches-rapporteur user.id row,
          ===_iff row.assigned_rapporteur_id (some user.id),
          matches-company c row,
          ===_iff row.company_id c,
          matches-and (confidentiality_in levels) mine row,
          matches-and (confidentiality_in levels) (company_is c) row,
          matches-and (confidentiality_in levels) (and_of (cons mine (cons (company_is c) nil)))
              row,
          matches-and mine (company_is c) row,
        )
      ]

  roles_iff :
      (user : AuthenticatedUser) (row : CaseRow) (roles : List Role)
      → row.id ≢ policy_deny_all_id
      → (matches
            (unless_empty roles (
              scope_of_rule user case_resource
                (build_case_abac_conditions user)
                (resolve_effective_abac_rule roles case_resource)))
            row
          ≡ true)
        ↔ ((roles ≢ [])
            × (is_clearance_sufficient user.clearance_level row.confidentiality_level ≡ true)
            × (In rapporteur roles → row.assigned_rapporteur_id ≡ some user.id)
            × (In action_owner roles → truthy user.company_id ≡ some row.company_id))
  roles_iff user row [] real =
      ground (arith, matches-id policy_deny_all_id row, ===_iff row.id policy_deny_all_id)
  roles_iff user row (r ∷ roles) real =
      let (rule, e, d) = case_rule r roles in
      let no_function = case_rule-function_location (r ∷ roles) rule e d in
      let same = scope_of_rule_iff user row rule real d no_function in
      let mine = case_rule-assignment (r ∷ roles) rule e d in
      let ours = case_rule-company (r ∷ roles) rule e d in
      rw e (
        λ h.
            let (cleared, assigned, owned) = same.0 h in
            ((λ n. cc), cleared, (λ i. assigned (mine.1 i)), (λ i. owned (ours.1 i))),
        λ (has_role, cleared, assigned, owned).
            same.1 (cleared, (λ q. assigned (mine.0 q)), (λ q. owned (ours.0 q))),
      )

  -- The scope of a user matches exactly the cases that the user may see: those for which the
  -- user has a role and the clearance, is the assigned rapporteur if one of the roles is that of
  -- a rapporteur, and belongs to the company of the case if one is that of an action owner. The
  -- row's id is not the reserved one of the deny-all filter.
  pub build_case_scope_iff :
      (user : AuthenticatedUser) (row : CaseRow)
      → row.id ≢ policy_deny_all_id
      → (matches (build_case_scope user) row ≡ true) ↔ CanSeeCase user row
  unfolding build_case_scope
  build_case_scope_iff user row real =
      let same = roles_iff user row user.roles real in
      (
        λ h.
            let (has_role, cleared, assigned, owned) = same.0 h in
            record {
              has_role = has_role;
              cleared = cleared;
              assigned = assigned;
              same_company = owned;
            },
        λ c. same.1 (c.has_role, c.cleared, c.assigned, c.same_company),
      )

  -- Further roles never widen what a user sees of the cases: a case that is in scope with all of
  -- a user's roles is in scope with any non-empty part of them.
  pub build_case_scope_narrows :
      (user : AuthenticatedUser) (fewer : List Role) (row : CaseRow)
      → row.id ≢ policy_deny_all_id
      → fewer ≢ []
      → ((role : Role) → In role fewer → In role user.roles)
      → matches (build_case_scope user) row ≡ true
      → matches (build_case_scope (record user { roles = fewer })) row ≡ true
  build_case_scope_narrows user fewer row real some_role part h =
      let seen = (build_case_scope_iff user row real).0 h in
      (build_case_scope_iff (record user { roles = fewer }) row real).1 (record {
        has_role = some_role;
        cleared = seen.cleared;
        assigned = λ i. seen.assigned (part rapporteur i);
        same_company = λ i. seen.same_company (part action_owner i);
      })
