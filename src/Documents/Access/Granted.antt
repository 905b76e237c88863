-- ===== src/Documents/Access/Granted.antt =====
-- apps/api/src/modules/document/document-access.service.ts: what a transition grants.
use etik_bildirim_platformu.Prelude.{
  both, In-append-one, filter-In, ℕ, ◌≡◌, refl, ap, ◌⊎◌, inl, inr, String, none, some, List, [],
  ◌∷◌, ◌===◌, ===_iff, string_eq, option_eq, any, filter, length, In, includes, includes_iff,
  truthy, Bool-cases, Option-cases,
}
use etik_bildirim_platformu.Shared.Enums.{WorkflowCommand}
use etik_bildirim_platformu.Workflow.Validators.{Metadata}
use etik_bildirim_platformu.Documents.Records.{
  DocumentCategory, document_category_eq, full_access, DocumentRow, GrantRow,
  CreateDocumentGrantInput, GrantingTransition,
}
use etik_bildirim_platformu.Documents.Access.{
  is_user_grant, grant_row, create_user_grant, grant_each, is_case_document, is_linked,
  grant_case_documents_to_user, grant_linked, assignee_of, grant_assignee, apply_transition_grants,
}

-- A grant of a document that a transition gives to a user.
pub record IsGrantFor (user_id transition_id : String) (document : DocumentRow) (grant : GrantRow)
    : Type 0 where
  pub document_id : grant.document_id ≡ document.id
  pub user : grant.granted_to_user_id ≡ some user_id
  pub role : grant.granted_to_role ≡ none
  pub scope : grant.grant_scope ≡ full_access
  pub by : grant.granted_by_transition_id ≡ some transition_id
  pub active : grant.revoked_at ≡ none

-- The grants that a transition is for: of its documents to who carried it out, and of the case's
-- documents to the user that the command assigns.
pub data Receives (documents : List DocumentRow) (case_id : String)
    (transition : GrantingTransition WorkflowCommand) (metadata : Metadata) (user_id : String)
    (document : DocumentRow) : Type 0 where
  performer :
      truthy transition.performed_by_user_id ≡ some user_id
      → In document documents
      → document.transition_id ≡ some transition.id
      → Receives documents case_id transition metadata user_id document
  assignee :
      (categories : List DocumentCategory)
      → assignee_of transition.command metadata ≡ some (user_id, categories)
      → In document documents
      → document.case_id ≡ case_id
      → In document.document_category categories
      → Receives documents case_id transition metadata user_id document

abbrev pub IsGranted :
    List DocumentRow → String → GrantingTransition WorkflowCommand → Metadata → GrantRow → Type 0
IsGranted documents case_id transition metadata grant =
    (user_id : String) × (document : DocumentRow) × Receives documents case_id transition metadata
      user_id document
    × IsGrantFor user_id transition.id document grant

module _ (uuid : ℕ → String) where
  create_user_grant-In :
      (input : CreateDocumentGrantInput) (user_id : String) (grants : List GrantRow)
      (grant : GrantRow)
      → In grant (create_user_grant uuid input user_id grants)
      → In grant grants ⊎ (grant ≡ grant_row (uuid (length grants)) input (some user_id) none)
  unfolding create_user_grant
  create_user_grant-In input user_id grants grant i =
      elim (Bool-cases (any (is_user_grant input.document_id user_id) grants)) [
        | inl e ↦ inl (rw e at i)
        | inr e ↦ In-append-one grant _ grants (rw e at i)
      ]

  grant_each-In :
      (user_id transition_id : String) (documents : List DocumentRow) (grants : List GrantRow)
      (grant : GrantRow)
      → In grant (grant_each uuid user_id transition_id documents grants)
      → In grant grants
        ⊎ ((document : DocumentRow) × In document documents
            × IsGrantFor user_id transition_id document grant)
  unfolding grant_each
  grant_each-In user_id transition_id [] grants grant i = inl i
  grant_each-In user_id transition_id (d ∷ documents) grants grant i =
      elim (grant_each-In user_id transition_id documents _ grant i) [
        | inr (document, k, q) ↦ inr (document, inr k, q)
        | inl k ↦ elim (create_user_grant-In _ user_id grants grant k) [
          | inl old ↦ inl old
          | inr e ↦ inr (
            d,
            inl refl,
            record {
              document_id = ap (λ (g : GrantRow). g.document_id) e;
              user = ap (λ (g : GrantRow). g.granted_to_user_id) e;
              role = ap (λ (g : GrantRow). g.granted_to_role) e;
              scope = ap (λ (g : GrantRow). g.grant_scope) e;
              by = ap (λ (g : GrantRow). g.granted_by_transition_id) e;
              active = ap (λ (g : GrantRow). g.revoked_at) e;
            },
          )
        ]
      ]

  module _ (documents : List DocumentRow) (case_id : String)
      (transition : GrantingTransition WorkflowCommand) (metadata : Metadata) where
    grant_linked-In :
        (grants : List GrantRow) (grant : GrantRow)
        → In grant (grant_linked uuid documents transition grants)
        → In grant grants
          ⊎ ((user_id : String) × (document : DocumentRow) × Receives documents case_id transition
                metadata user_id document
              × IsGrantFor user_id transition.id document grant)
    unfolding grant_linked
    grant_linked-In grants grant i = elim (Option-cases (truthy transition.performed_by_user_id)) [
      | inl e ↦ inl (rw (grant_linked, e) at i)
      | inr (user_id, e) ↦
          elim (grant_each-In user_id transition.id (filter (is_linked transition.id) documents)
            grants grant (rw (grant_linked, e) at i)) [
              | inl old ↦ inl old
              | inr (document, k, q) ↦
                  let (listed, linked) = filter-In (is_linked transition.id) document documents k in
                  inr (
                    user_id,
                    document,
                    performer e listed
                        ((===_iff document.transition_id (some transition.id)).0 linked),
                    q,
                  )
            ]
    ]

    grant_assignee-In :
        (grants : List GrantRow) (grant : GrantRow)
        → In grant (
            grant_assignee uuid documents case_id transition.id
              (assignee_of transition.command metadata)
              grants)
        → In grant grants
          ⊎ ((user_id : String) × (document : DocumentRow) × Receives documents case_id transition
                metadata user_id document
              × IsGrantFor user_id transition.id document grant)
    unfolding grant_case_documents_to_user
    grant_assignee-In grants grant i =
        elim (Option-cases (assignee_of transition.command metadata)) [
          | inl e ↦ inl (rw e at i)
          | inr ((user_id, categories), e) ↦
              elim (grant_each-In user_id transition.id
                (filter (is_case_document case_id categories) documents) grants grant (rw e at i)) [
                  | inl old ↦ inl old
                  | inr (document, k, q) ↦
                      let (listed, chosen) =
                        filter-In (is_case_document case_id categories) document documents k in
                      let (same, category) =
                        both (document.case_id === case_id)
                          (includes document.document_category categories) chosen in
                      inr (
                        user_id,
                        document,
                        assignee categories e listed ((===_iff document.case_id case_id).0 same)
                            ((includes_iff document.document_category categories).0 category),
                        q,
                      )
                ]
        ]

    -- A grant that is in the table after the grants of a transition was there before, or it gives
    -- full access by that transition: to who carried it out, of a document linked to the
    -- transition, or to the user that the command assigns, of a document of the case in a
    -- category that the command grants.
    pub apply_transition_grants-IsGranted :
        (grants : List GrantRow) (grant : GrantRow)
        → In grant (apply_transition_grants uuid documents case_id transition metadata grants)
        → In grant grants
          ⊎ ((user_id : String) × (document : DocumentRow) × Receives documents case_id transition
                metadata user_id document
              × IsGrantFor user_id transition.id document grant)
    unfolding apply_transition_grants
    apply_transition_grants-IsGranted grants grant i =
        elim (grant_assignee-In (grant_linked uuid documents transition grants) grant i) [
          | inl k ↦ grant_linked-In grants grant k
          | inr q ↦ inr q
        ]
