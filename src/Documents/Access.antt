-- ===== src/Documents/Access.antt =====
-- apps/api/src/modules/document/document-access.service.ts, on the list of the grants' rows; the
-- row that is created when there are n of them gets the id `uuid n`.
pub mod Granted
pub mod Given
pub mod OneGrant
pub mod Steps
pub mod Found
use Prim.Native.String
use etik_bildirim_platformu.Prelude.{
  ℕ, String, Bool, true, false, ◌&&◌, ◌||◌, Option, none, some, List, [], ◌∷◌, ◌++◌, ◌===◌, not,
  is_some, string_eq, option_eq, any, find, filter, map, length, includes, if◌then◌else◌, truthy,
}
use etik_bildirim_platformu.Storage.Table.{update_rows}
use etik_bildirim_platformu.Shared.Enums.{
  Role, role_eq, WorkflowCommand, assign_rapporteur, assign_action, follow_up_reassign,
}
use etik_bildirim_platformu.Policy.User.{AuthenticatedUser}
use etik_bildirim_platformu.Workflow.Validators.{Metadata, metadata_text}
use etik_bildirim_platformu.Documents.Records.{
  DocumentCategory, incoming_report_attachment, pre_research_note, company_evidence,
  disciplinary_document, rapporteur_report, council_agenda_pack, implementation_letter,
  action_response, document_category_eq, DocumentGrantScope, full_access, metadata_only,
  document_grant_scope_eq, DocumentRow, GrantRow, CreateDocumentGrantInput, GrantingTransition,
}

abbrev pub rapporteur_grant_categories : List DocumentCategory
rapporteur_grant_categories =
    incoming_report_attachment ∷ pre_research_note ∷ company_evidence ∷ disciplinary_document
    ∷ rapporteur_report ∷ council_agenda_pack ∷ []

abbrev pub action_owner_grant_categories : List DocumentCategory
action_owner_grant_categories = implementation_letter ∷ action_response ∷ []

abbrev pub is_active : GrantRow → Bool
is_active grant = not (is_some grant.revoked_at)

abbrev pub is_user_grant : String → String → GrantRow → Bool
is_user_grant document_id user_id grant =
    grant.document_id === document_id
    && grant.granted_to_user_id === some user_id
    && is_active grant

abbrev pub is_role_grant : String → Role → GrantRow → Bool
is_role_grant document_id role grant =
    grant.document_id === document_id && grant.granted_to_role === some role && is_active grant

abbrev pub scope_or_full : Option DocumentGrantScope → DocumentGrantScope
scope_or_full none = full_access
scope_or_full (some scope) = scope

abbrev pub grant_row : String → CreateDocumentGrantInput → Option String → Option Role → GrantRow
grant_row id input user_id role = record {
  id = id;
  document_id = input.document_id;
  granted_to_user_id = user_id;
  granted_to_role = role;
  grant_scope = scope_or_full input.grant_scope;
  granted_by_transition_id = input.granted_by_transition_id;
  revoked_at = none;
}

abbrev pub is_case_document : String → List DocumentCategory → DocumentRow → Bool
is_case_document case_id categories document =
    document.case_id === case_id && includes document.document_category categories

abbrev pub is_linked : String → DocumentRow → Bool
is_linked transition_id document = document.transition_id === some transition_id

-- Whose documents the command's metadata grants, and which.
unfoldable pub assignee_of : WorkflowCommand → Metadata → Option (String × List DocumentCategory)
assignee_of assign_rapporteur metadata = elim (metadata_text metadata "rapporteurUserId") [
  | none ↦ none
  | some user_id ↦ some (user_id, rapporteur_grant_categories)
]
assignee_of assign_action metadata = elim (metadata_text metadata "actionOwnerUserId") [
  | none ↦ none
  | some user_id ↦ some (user_id, action_owner_grant_categories)
]
assignee_of follow_up_reassign metadata = elim (metadata_text metadata "actionOwnerUserId") [
  | none ↦ none
  | some user_id ↦ some (user_id, action_owner_grant_categories)
]
assignee_of _ metadata = none

module _ (uuid : ℕ → String) where
  unfoldable pub create_user_grant :
      CreateDocumentGrantInput → String → List GrantRow → List GrantRow
  create_user_grant input user_id grants =
      if any (is_user_grant input.document_id user_id) grants
      then grants
      else grants ++ grant_row (uuid (length grants)) input (some user_id) none ∷ []

  unfoldable pub create_role_grant : CreateDocumentGrantInput → Role → List GrantRow → List GrantRow
  create_role_grant input role grants =
      if any (is_role_grant input.document_id role) grants
      then grants
      else grants ++ grant_row (uuid (length grants)) input none (some role) ∷ []

  unfoldable pub grant_uploader_access : String → String → List GrantRow → List GrantRow
  grant_uploader_access document_id uploader_user_id grants =
      create_user_grant
        record {
          document_id = document_id;
          grant_scope = some full_access;
          granted_by_transition_id = none;
        }
        uploader_user_id grants

  -- The loops over documents that grant each of them to one user by a transition.
  unfoldable pub grant_each : String → String → List DocumentRow → List GrantRow → List GrantRow
  grant_each user_id transition_id [] grants = grants
  grant_each user_id transition_id (document ∷ documents) grants =
      grant_each user_id transition_id documents (
        create_user_grant
          record {
            document_id = document.id;
            grant_scope = some full_access;
            granted_by_transition_id = some transition_id;
          }
          user_id grants)

  unfoldable pub grant_case_documents_to_user :
      List DocumentRow
      → String
      → String
      → List DocumentCategory
      → String
      → List GrantRow
      → List GrantRow
  grant_case_documents_to_user documents case_id user_id categories transition_id grants =
      grant_each user_id transition_id (filter (is_case_document case_id categories) documents)
        grants

  unfoldable pub grant_linked :
      List DocumentRow → GrantingTransition WorkflowCommand → List GrantRow → List GrantRow
  grant_linked documents transition grants = elim (truthy transition.performed_by_user_id) [
    | none ↦ grants
    | some user_id ↦
        grant_each user_id transition.id (filter (is_linked transition.id) documents) grants
  ]

  abbrev pub grant_assignee :
      List DocumentRow
      → String
      → String
      → Option (String × List DocumentCategory)
      → List GrantRow
      → List GrantRow
  grant_assignee documents case_id transition_id none grants = grants
  grant_assignee documents case_id transition_id (some (user_id, categories)) grants =
      grant_case_documents_to_user documents case_id user_id categories transition_id grants

  unfoldable pub apply_transition_grants :
      List DocumentRow
      → String
      → GrantingTransition WorkflowCommand
      → Metadata
      → List GrantRow
      → List GrantRow
  apply_transition_grants documents case_id transition metadata grants =
      grant_assignee documents case_id transition.id (assignee_of transition.command metadata)
        (grant_linked documents transition grants)

abbrev pub with_id : String → GrantRow → Bool
with_id grant_id grant = grant.id === grant_id && is_active grant

unfoldable pub revoke_grant : ℕ → String → List GrantRow → List GrantRow
revoke_grant now grant_id grants =
    update_rows (with_id grant_id) (λ grant. record grant { revoked_at = some now }) grants

abbrev pub is_for_role : List Role → GrantRow → Bool
is_for_role roles grant = any (λ role. grant.granted_to_role === some role) roles

abbrev pub is_grant_of : AuthenticatedUser → String → GrantRow → Bool
is_grant_of user document_id grant =
    grant.document_id === document_id
    && is_active grant
    && (grant.granted_to_user_id === some user.id || is_for_role user.roles grant)

abbrev pub allows : DocumentGrantScope → DocumentGrantScope → Bool
allows metadata_only scope = scope === metadata_only || scope === full_access
allows full_access scope = scope === full_access

-- The first row that the query finds decides.
unfoldable pub has_active_grant :
    AuthenticatedUser → String → DocumentGrantScope → List GrantRow → Bool
has_active_grant user document_id required_scope grants =
    elim (find (is_grant_of user document_id) grants) [
      | none ↦ false
      | some grant ↦ allows required_scope grant.grant_scope
    ]
