-- ===== src/Documents/Access/Given.antt =====
-- apps/api/src/modules/document/document-access.service.ts: every grant of a transition is given.
use etik_bildirim_platformu.Prelude.{
  In-append, In-append-last, ℕ, ◌≡◌, refl, inl, inr, String, Bool, true, Option, some, none, List,
  [], ◌∷◌, ◌++◌, ===_iff, ===_refl, string_eq, option_eq, any, filter, length, In, In-filter,
  any_iff, any_of_In, includes_iff, truthy, Bool-cases,
}
use etik_bildirim_platformu.Shared.Enums.{WorkflowCommand}
use etik_bildirim_platformu.Workflow.Validators.{Metadata}
use etik_bildirim_platformu.Documents.Records.{
  DocumentCategory, document_category_eq, DocumentRow, GrantRow, CreateDocumentGrantInput,
  GrantingTransition,
}
use etik_bildirim_platformu.Documents.Access.{
  is_user_grant, grant_row, create_user_grant, grant_each, is_case_document, is_linked,
  grant_case_documents_to_user, grant_linked, assignee_of, grant_assignee, apply_transition_grants,
}
use etik_bildirim_platformu.Documents.Access.Granted.{Receives, performer, assignee}

any-append {ℓ} :
    {A : Type ℓ} (p : A → Bool) (xs ys : List A) → any p xs ≡ true → any p (xs ++ ys) ≡ true
any-append p xs ys h =
    let (x, i, q) = (any_iff p xs).0 h in any_of_In p (xs ++ ys) x (In-append x xs ys i) q

module _ (uuid : ℕ → String) where
  create_user_grant-any :
      (p : GrantRow → Bool) (input : CreateDocumentGrantInput) (user_id : String)
      (grants : List GrantRow)
      → any p grants ≡ true
      → any p (create_user_grant uuid input user_id grants) ≡ true
  unfolding create_user_grant
  create_user_grant-any p input user_id grants h =
      elim (Bool-cases (any (is_user_grant input.document_id user_id) grants)) [
        | inl e ↦ rw e h
        | inr e ↦ rw e (any-append p grants _ h)
      ]

  create_user_grant-has :
      (input : CreateDocumentGrantInput) (user_id : String) (grants : List GrantRow)
      → any (is_user_grant input.document_id user_id) (create_user_grant uuid input user_id grants)
        ≡ true
  unfolding create_user_grant
  create_user_grant-has input user_id grants =
      elim (Bool-cases (any (is_user_grant input.document_id user_id) grants)) [
        | inl e ↦ rw e e
        | inr e ↦
            let row = grant_row (uuid (length grants)) input (some user_id) none in
            let mine : is_user_grant input.document_id user_id row ≡ true =
              rw (===_refl input.document_id, ===_refl user_id) refl in
            rw e (
              any_of_In (is_user_grant input.document_id user_id) (grants ++ row ∷ []) row
                (In-append-last row grants) mine)
      ]

  grant_each-any :
      (p : GrantRow → Bool) (user_id transition_id : String) (documents : List DocumentRow)
      (grants : List GrantRow)
      → any p grants ≡ true
      → any p (grant_each uuid user_id transition_id documents grants) ≡ true
  unfolding grant_each
  grant_each-any p user_id transition_id [] grants h = h
  grant_each-any p user_id transition_id (d ∷ documents) grants h =
      grant_each-any p user_id transition_id documents _
        (create_user_grant-any p _ user_id grants h)

  grant_each-has :
      (user_id transition_id : String) (documents : List DocumentRow) (grants : List GrantRow)
      (document : DocumentRow)
      → In document documents
      → any
          (is_user_grant document.id user_id)
          (grant_each uuid user_id transition_id documents grants)
        ≡ true
  unfolding grant_each
  grant_each-has user_id transition_id [] grants document i = elim i [ ]
  grant_each-has user_id transition_id (d ∷ documents) grants document (inl e) = rw e (
      grant_each-any (is_user_grant d.id user_id) user_id transition_id documents _
        (create_user_grant-has _ user_id grants))
  grant_each-has user_id transition_id (d ∷ documents) grants document (inr i) =
      grant_each-has user_id transition_id documents _ document i

  module _ (documents : List DocumentRow) (case_id : String)
      (transition : GrantingTransition WorkflowCommand) (metadata : Metadata) where
    grant_linked-has :
        (grants : List GrantRow) (user_id : String) (document : DocumentRow)
        → truthy transition.performed_by_user_id ≡ some user_id
        → In document documents
        → document.transition_id ≡ some transition.id
        → any (is_user_grant document.id user_id) (grant_linked uuid documents transition grants)
          ≡ true
    unfolding grant_linked
    grant_linked-has grants user_id document e i linked =
        rw (grant_linked, e)
          (grant_each-has user_id transition.id (filter (is_linked transition.id) documents) grants
            document
            (In-filter (is_linked transition.id) document documents i
              ((===_iff document.transition_id (some transition.id)).1 linked)))

    grant_assignee-any :
        (p : GrantRow → Bool) (grants : List GrantRow)
        (to : Option (String × List DocumentCategory))
        → any p grants ≡ true
        → any p (grant_assignee uuid documents case_id transition.id to grants) ≡ true
    unfolding grant_case_documents_to_user
    grant_assignee-any p grants none h = h
    grant_assignee-any p grants (some (user_id, categories)) h =
        grant_each-any p user_id transition.id _ grants h

    -- After the grants of a transition there is an active grant to who carried it out of every
    -- document linked to it, and to the user that the command assigns of every document of the
    -- case in a category that the command grants.
    pub apply_transition_grants-Receives :
        (grants : List GrantRow) (user_id : String) (document : DocumentRow)
        → Receives documents case_id transition metadata user_id document
        → any
            (is_user_grant document.id user_id)
            (apply_transition_grants uuid documents case_id transition metadata grants)
          ≡ true
    unfolding apply_transition_grants grant_case_documents_to_user
    apply_transition_grants-Receives grants user_id document (performer e i linked) =
        grant_assignee-any (is_user_grant document.id user_id) _
          (assignee_of transition.command metadata)
          (grant_linked-has grants user_id document e i linked)
    apply_transition_grants-Receives grants user_id document
          (assignee categories e i same category) =
        let chosen : is_case_document case_id categories document ≡ true =
          rw
            (
              (===_iff document.case_id case_id).1 same,
              (includes_iff document.document_category categories).1 category,
            )
            refl in
        rw e (
          grant_each-has user_id transition.id
            (filter (is_case_document case_id categories) documents) _ document
            (In-filter (is_case_document case_id categories) document documents i chosen))
