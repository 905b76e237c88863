-- ===== src/Examples/PolicyExamples.antt =====
-- packages/policy and apps/api/src/authorization: a rapporteur who is also a council member.
use etik_bildirim_platformu.Prelude.{
  ◌≤◌, ◌⊎◌, ◌≡◌, refl, ◌≢◌, ◌↔◌, inl, inr, Bool, true, false, ◌&&◌, none, some, [], ◌∷◌, includes,
  In, ◌===◌, string_eq, option_eq, ne_of_test,
}
use etik_bildirim_platformu.Shared.Enums.{
  Role, council_member, rapporteur, admin, clearance_level_eq, ClearanceLevel-discrete, sensitive,
  member_approval,
}
use etik_bildirim_platformu.Storage.Rows.{CaseRow}
use etik_bildirim_platformu.Policy.Clearance.{get_allowed_clearance_levels}
use etik_bildirim_platformu.Policy.Fields.{
  rapporteur_report, get_field_visibility, resolve_field_visibility_for_roles,
}
use etik_bildirim_platformu.Policy.Fields.Greatest.{shows, resolve_field_visibility-greatest}
use etik_bildirim_platformu.Policy.User.{AuthenticatedUser}
use etik_bildirim_platformu.Policy.Abac.{
  AbacScopeType-discrete, assignment, confidentiality_clearance, abac_scope_type_eq, AbacScopeRule,
  denied, case_resource, task_resource, get_abac_rule_for_role_and_resource,
  resolve_effective_abac_rule,
}
use etik_bildirim_platformu.Policy.Scope.{
  ScopeWhere, everything, id_is, confidentiality_in, case_confidentiality_in,
  assigned_rapporteur_is, company_is, assigned_user_is, assigned_company_is, assigned_function_is,
  and_of, Conditions, nil, cons, build_case_abac_conditions, build_case_scope, policy_deny_all_id,
}
use etik_bildirim_platformu.Policy.Scope.CaseAccess.{
  CaseFilter, CanSeeCase, build_case_scope_iff, build_case_scope_narrows,
}

abbrev mutual
  pub matches : ScopeWhere → CaseRow → Bool
  matches everything row = true
  matches (id_is id) row = row.id === id
  matches (confidentiality_in levels) row = includes row.confidentiality_level levels
  matches (case_confidentiality_in levels) row = false
  matches (assigned_rapporteur_is id) row = row.assigned_rapporteur_id === some id
  matches (company_is id) row = row.company_id === id
  matches (assigned_user_is id) row = false
  matches (assigned_company_is id) row = false
  matches (assigned_function_is id) row = false
  matches (and_of conditions) row = all_match conditions row

  pub all_match : Conditions → CaseRow → Bool
  all_match nil row = true
  all_match (cons condition rest) row = matches condition row && all_match rest row

abbrev pub case_filter : CaseFilter
case_filter = record {
  matches = matches;
  matches-everything = λ row. refl;
  matches-id = λ id row. refl;
  matches-confidentiality = λ levels row. refl;
  matches-rapporteur = λ id row. refl;
  matches-company = λ id row. refl;
  matches-and_nil = λ row. refl;
  matches-and_cons = λ condition rest row. refl;
}

abbrev somebody : AuthenticatedUser
somebody = record {
  id = "u1";
  email = "u1@example.org";
  display_name = "U1";
  roles = rapporteur ∷ council_member ∷ [];
  clearance_level = sensitive;
  company_id = none;
  company_name = none;
  function_id = none;
  location_id = none;
  is_general_secretary = false;
}

abbrev own_case : CaseRow
own_case = record {
  id = "c1";
  current_state = member_approval;
  confidentiality_level = sensitive;
  company_id = "co1";
  report_id = "p1";
  opened_at = 0;
  assigned_rapporteur_id = some "u1";
  assigned_action_owner_id = none;
  closed_at = none;
  optimistic_lock_version = 3;
}

real_case : own_case.id ≢ policy_deny_all_id
real_case = ne_of_test "c1" policy_deny_all_id refl

own_case_found : matches (build_case_scope somebody) own_case ≡ true
unfolding build_case_scope build_case_abac_conditions resolve_effective_abac_rule
    ClearanceLevel-discrete AbacScopeType-discrete get_allowed_clearance_levels
    get_abac_rule_for_role_and_resource
own_case_found = refl

build_case_scope_iff_example :
    (matches (build_case_scope somebody) own_case ≡ true) ↔ CanSeeCase somebody own_case
build_case_scope_iff_example = build_case_scope_iff case_filter somebody own_case real_case

build_case_scope_narrows_example :
    matches (build_case_scope (record somebody { roles = council_member ∷ [] })) own_case ≡ true
build_case_scope_narrows_example =
    build_case_scope_narrows case_filter somebody (council_member ∷ []) own_case real_case (λ e. cc)
      (λ role i. elim i [ inl e ↦ inr (inl e) | inr none_left ↦ elim none_left [ ] ]) own_case_found

admin_on_tasks : resolve_effective_abac_rule (admin ∷ rapporteur ∷ []) task_resource ≡ some denied
unfolding resolve_effective_abac_rule get_abac_rule_for_role_and_resource
admin_on_tasks = refl

abbrev both_scopes : AbacScopeRule
both_scopes = record { scopes = assignment ∷ confidentiality_clearance ∷ []; deny_all = false }

rapporteur_and_member :
    resolve_effective_abac_rule (rapporteur ∷ council_member ∷ []) case_resource ≡ some both_scopes
unfolding resolve_effective_abac_rule get_abac_rule_for_role_and_resource AbacScopeType-discrete
rapporteur_and_member = refl

resolve_field_visibility-greatest_example :
    ((role : Role)
      → In role (council_member ∷ rapporteur ∷ [])
      → shows (get_field_visibility role rapporteur_report)
        ≤ shows (
            resolve_field_visibility_for_roles
              (council_member ∷ rapporteur ∷ [])
              rapporteur_report))
    × ((council_member ∷ rapporteur ∷ [] ≡ [])
        ⊎ ((role : Role) × In role (council_member ∷ rapporteur ∷ [])
            × (get_field_visibility role rapporteur_report
                ≡ resolve_field_visibility_for_roles
                    (council_member ∷ rapporteur ∷ [])
                    rapporteur_report)))
resolve_field_visibility-greatest_example =
    resolve_field_visibility-greatest (council_member ∷ rapporteur ∷ []) rapporteur_report
