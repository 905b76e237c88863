-- ===== src/Documents/Access/OneGrant.antt =====
-- apps/api/src/modules/document/document-access.service.ts: no active grant is given twice.
use etik_bildirim_platformu.Prelude.{
  truthy, Option-cases, ℕ, ◌≡◌, ◌≤◌, refl, subst, inl, inr, String, Bool, true, false, ◌&&◌, Option,
  some, none, List, [], ◌∷◌, ◌++◌, ◌===◌, ===_iff, string_eq, option_eq, any, filter, truthy,
  Option-cases, length, Bool-cases, arith,
}
use etik_bildirim_platformu.Shared.Enums.{WorkflowCommand, Role, role_eq}
use etik_bildirim_platformu.Storage.Table.{update_rows}
use etik_bildirim_platformu.Storage.Finding.{filter_of_any-false, filter-++, filter-++-other}
use etik_bildirim_platformu.Workflow.Validators.{Metadata}
use etik_bildirim_platformu.Documents.Records.{
  DocumentCategory, DocumentRow, GrantRow, CreateDocumentGrantInput, GrantingTransition,
}
use etik_bildirim_platformu.Documents.Access.{
  is_linked, is_linked, is_user_grant, is_role_grant, grant_row, create_user_grant,
  create_role_grant, grant_each, grant_case_documents_to_user, grant_linked, grant_assignee,
  assignee_of, apply_transition_grants, with_id, revoke_grant,
}

-- At most one active grant of a document to a user, and at most one to a role.
pub record HasOneGrant (grants : List GrantRow) : Type 0 where
  pub user :
      (document_id user_id : String)
      → length (filter (is_user_grant document_id user_id) grants) ≤ 1
  pub role :
      (document_id : String) (role : Role)
      → length (filter (is_role_grant document_id role) grants) ≤ 1

module _ (p : GrantRow → Bool) where
  -- A row is added to those that meet `p` only where none does.
  length-filter-one :
      (rows : List GrantRow) (row : GrantRow)
      → (p row ≡ true → any p rows ≡ false)
      → length (filter p rows) ≤ 1
      → length (filter p (rows ++ row ∷ [])) ≤ 1
  length-filter-one rows row first one = elim (Bool-cases (p row)) [
    | inl e ↦
        rw (filter-++ p rows (row ∷ []), filter_of_any-false p rows (first e), e) (omega arith)
    | inr e ↦ rw (filter-++-other p rows row e) one
  ]

  length-filter-update :
      (chosen : GrantRow → Bool) (change : GrantRow → GrantRow) (rows : List GrantRow)
      → ((r : GrantRow) → p (change r) ≡ false)
      → length (filter p (update_rows chosen change rows)) ≤ length (filter p rows)
  length-filter-update chosen change [] off = omega arith
  length-filter-update chosen change (r ∷ rows) off =
      let rest = length-filter-update chosen change rows off in
      elim (Bool-cases (chosen r)) [
        | inl c ↦ elim (Bool-cases (p r)) [
          | inl e ↦ rw (c, off r, e) (omega (arith, rest))
          | inr e ↦ rw (c, off r, e) rest
        ]
        | inr c ↦ elim (Bool-cases (p r)) [
          | inl e ↦ rw (c, e) (omega (arith, rest))
          | inr e ↦ rw (c, e) rest
        ]
      ]

false_at : (a b : Bool) → (a && b && false) ≡ false
false_at true true = refl
false_at true false = refl
false_at false b = refl

false_mid : (a b : Bool) → (a && false && b) ≡ false
false_mid true b = refl
false_mid false b = refl

-- The two ids that a new row's test compares are those of the row.
ids_of : (a b : Bool) → (a && b && true) ≡ true → (a ≡ true) × (b ≡ true)
ids_of true true h = (refl, refl)
ids_of true false h = cc
ids_of false b h = cc

module _ (uuid : ℕ → String) where
  pub create_user_grant-HasOneGrant :
      (input : CreateDocumentGrantInput) (user_id : String) (grants : List GrantRow)
      → HasOneGrant grants
      → HasOneGrant (create_user_grant uuid input user_id grants)
  unfolding create_user_grant
  create_user_grant-HasOneGrant input user_id grants inv =
      elim (Bool-cases (any (is_user_grant input.document_id user_id) grants)) [
        | inl e ↦ rw e inv
        | inr e ↦
            let row = grant_row (uuid (length grants)) input (some user_id) none in
            rw e record {
              user = λ document_id id.
                  length-filter-one (is_user_grant document_id id) grants row
                    (λ mine.
                      let (d, u) =
                        ids_of (input.document_id === document_id)
                          (◌===◌ {Value = Option String} (some user_id) (some id)) mine in
                      subst (λ x. any (is_user_grant x id) grants ≡ false)
                        ((===_iff input.document_id document_id).0 d)
                        (subst (λ x. any (is_user_grant input.document_id x) grants ≡ false)
                          ((===_iff user_id id).0 u) e))
                    (inv.user document_id id);
              role = λ document_id role.
                  length-filter-one (is_role_grant document_id role) grants row
                    (λ mine. let off = false_mid (input.document_id === document_id) true in cc)
                    (inv.role document_id role);
            }
      ]

  pub create_role_grant-HasOneGrant :
      (input : CreateDocumentGrantInput) (role : Role) (grants : List GrantRow)
      → HasOneGrant grants
      → HasOneGrant (create_role_grant uuid input role grants)
  unfolding create_role_grant
  create_role_grant-HasOneGrant input role grants inv =
      elim (Bool-cases (any (is_role_grant input.document_id role) grants)) [
        | inl e ↦ rw e inv
        | inr e ↦
            let row = grant_row (uuid (length grants)) input none (some role) in
            rw e record {
              user = λ document_id id.
                  length-filter-one (is_user_grant document_id id) grants row
                    (λ mine. let off = false_mid (input.document_id === document_id) true in cc)
                    (inv.user document_id id);
              role = λ document_id other.
                  length-filter-one (is_role_grant document_id other) grants row
                    (λ mine.
                      let (d, u) =
                        ids_of (input.document_id === document_id)
                          (◌===◌ {Value = Option Role} (some role) (some other)) mine in
                      subst (λ x. any (is_role_grant x other) grants ≡ false)
                        ((===_iff input.document_id document_id).0 d)
                        (subst (λ x. any (is_role_grant input.document_id x) grants ≡ false)
                          ((===_iff role other).0 u) e))
                    (inv.role document_id other);
            }
      ]

  grant_each-HasOneGrant :
      (user_id transition_id : String) (documents : List DocumentRow) (grants : List GrantRow)
      → HasOneGrant grants
      → HasOneGrant (grant_each uuid user_id transition_id documents grants)
  unfolding grant_each
  grant_each-HasOneGrant user_id transition_id [] grants inv = inv
  grant_each-HasOneGrant user_id transition_id (d ∷ documents) grants inv =
      grant_each-HasOneGrant user_id transition_id documents _
        (create_user_grant-HasOneGrant _ user_id grants inv)

  grant_linked-HasOneGrant :
      (documents : List DocumentRow) (transition : GrantingTransition WorkflowCommand)
      (grants : List GrantRow)
      → HasOneGrant grants
      → HasOneGrant (grant_linked uuid documents transition grants)
  unfolding grant_linked
  grant_linked-HasOneGrant documents transition grants inv =
      elim (Option-cases (truthy transition.performed_by_user_id)) [
        | inl e ↦ rw (grant_linked, e) inv
        | inr (user_id, e) ↦
            rw (grant_linked, e)
              (grant_each-HasOneGrant user_id transition.id
                (filter (is_linked transition.id) documents) grants inv)
      ]

  grant_assignee-HasOneGrant :
      (documents : List DocumentRow) (case_id transition_id : String)
      (to : Option (String × List DocumentCategory)) (grants : List GrantRow)
      → HasOneGrant grants
      → HasOneGrant (grant_assignee uuid documents case_id transition_id to grants)
  unfolding grant_case_documents_to_user
  grant_assignee-HasOneGrant documents case_id transition_id none grants inv = inv
  grant_assignee-HasOneGrant documents case_id transition_id (some (user_id, categories)) grants
        inv =
      grant_each-HasOneGrant user_id transition_id _ grants inv

  pub apply_transition_grants-HasOneGrant :
      (documents : List DocumentRow) (case_id : String)
      (transition : GrantingTransition WorkflowCommand) (metadata : Metadata)
      (grants : List GrantRow)
      → HasOneGrant grants
      → HasOneGrant (apply_transition_grants uuid documents case_id transition metadata grants)
  unfolding apply_transition_grants
  apply_transition_grants-HasOneGrant documents case_id transition metadata grants inv =
      grant_assignee-HasOneGrant documents case_id transition.id
        (assignee_of transition.command metadata) _
        (grant_linked-HasOneGrant documents transition grants inv)

pub revoke_grant-HasOneGrant :
    (now : ℕ) (grant_id : String) (grants : List GrantRow)
    → HasOneGrant grants
    → HasOneGrant (revoke_grant now grant_id grants)
unfolding revoke_grant
revoke_grant-HasOneGrant now grant_id grants inv = record {
  user = λ document_id user_id. omega (
    arith,
    inv.user document_id user_id,
    length-filter-update (is_user_grant document_id user_id) (with_id grant_id)
        (λ (grant : GrantRow). record grant { revoked_at = some now }) grants
        (λ r. false_at (r.document_id === document_id) (r.granted_to_user_id === some user_id)),
  );
  role = λ document_id role. omega (
    arith,
    inv.role document_id role,
    length-filter-update (is_role_grant document_id role) (with_id grant_id)
        (λ (grant : GrantRow). record grant { revoked_at = some now }) grants
        (λ r. false_at (r.document_id === document_id) (r.granted_to_role === some role)),
  );
}
