-- ===== src/Examples/GrantExamples.antt =====
-- Runs of Documents.Access: a rapporteur is assigned to a case with two documents.
use etik_bildirim_platformu.Prelude.{
  ℕ, ◌≡◌, ◌↔◌, refl, ◌⊎◌, inl, inr, String, true, false, some, none, List, [], ◌∷◌, In, any, arith,
}
use etik_bildirim_platformu.Shared.Enums.{WorkflowCommand, assign_rapporteur, rapporteur, normal}
use etik_bildirim_platformu.Policy.User.{AuthenticatedUser}
use etik_bildirim_platformu.Workflow.Validators.{Metadata, text, metadata_text}
use etik_bildirim_platformu.Documents.Records.{
  DocumentCategory-discrete, DocumentGrantScope-discrete, full_access, metadata_only,
  pre_research_note, closure_note, DocumentRow, GrantRow, GrantingTransition,
}
use etik_bildirim_platformu.Documents.Access.{
  is_user_grant, apply_transition_grants, create_user_grant, grant_each, grant_linked,
  grant_case_documents_to_user, assignee_of, revoke_grant, has_active_grant,
}
use etik_bildirim_platformu.Documents.Access.Granted.{
  IsGranted, Receives, assignee, apply_transition_grants-IsGranted,
}
use etik_bildirim_platformu.Documents.Access.Given.{apply_transition_grants-Receives}
use etik_bildirim_platformu.Documents.Access.OneGrant.{HasOneGrant}
use etik_bildirim_platformu.Documents.Access.Steps.{
  GrantSteps, done, next, by_transition, revoke, GrantSteps-HasOneGrant,
}
use etik_bildirim_platformu.Documents.Access.Found.{IsGranting, has_active_grant_iff}

abbrev uuid : ℕ → String
uuid n = "g1"

abbrev note : DocumentRow
note = record {
  id = "d1";
  case_id = "c1";
  document_category = pre_research_note;
  transition_id = none;
}

abbrev closing : DocumentRow
closing = record {
  id = "d2";
  case_id = "c1";
  document_category = closure_note;
  transition_id = none;
}

abbrev documents : List DocumentRow
documents = note ∷ closing ∷ []

abbrev assigned : GrantingTransition WorkflowCommand
assigned = record { id = "t1"; command = assign_rapporteur; performed_by_user_id = some "u1" }

abbrev metadata : Metadata
metadata = ("rapporteurUserId", text "r1") ∷ []

abbrev granted : GrantRow
granted = record {
  id = "g1";
  document_id = "d1";
  granted_to_user_id = some "r1";
  granted_to_role = none;
  grant_scope = full_access;
  granted_by_transition_id = some "t1";
  revoked_at = none;
}

abbrev reader : AuthenticatedUser
reader = record {
  id = "r1";
  email = "";
  display_name = "";
  roles = rapporteur ∷ [];
  clearance_level = normal;
  company_id = none;
  company_name = none;
  function_id = none;
  location_id = none;
  is_general_secretary = false;
}

-- The note is granted, the note of the closure is not.
run : apply_transition_grants uuid documents "c1" assigned metadata [] ≡ granted ∷ []
unfolding apply_transition_grants create_user_grant grant_each grant_linked
    grant_case_documents_to_user assignee_of DocumentCategory-discrete metadata_text
run = refl

-- The first grant that is found decides: full access by a second one is not seen.
first_decides :
    has_active_grant reader "d1" full_access (
      record granted { grant_scope = metadata_only }
      ∷ record granted { granted_to_user_id = none; granted_to_role = some rapporteur }
      ∷ [])
    ≡ false
unfolding has_active_grant DocumentGrantScope-discrete
first_decides = refl

rapporteur_receives : Receives documents "c1" assigned metadata "r1" note
unfolding assignee_of metadata_text
rapporteur_receives = assignee _ refl (inl refl) refl (inr (inl refl))

apply_transition_grants-IsGranted_example :
    In granted [] ⊎ IsGranted documents "c1" assigned metadata granted
apply_transition_grants-IsGranted_example =
    apply_transition_grants-IsGranted uuid documents "c1" assigned metadata [] granted
      (rw run (inl refl))

apply_transition_grants-Receives_example :
    any (is_user_grant "d1" "r1") (apply_transition_grants uuid documents "c1" assigned metadata [])
    ≡ true
apply_transition_grants-Receives_example =
    apply_transition_grants-Receives uuid documents "c1" assigned metadata [] "r1" note
      rapporteur_receives

no_grants-HasOneGrant : HasOneGrant []
no_grants-HasOneGrant = record { user = λ d u. omega arith; role = λ d r. omega arith }

abbrev after : List GrantRow
after = revoke_grant 5 "g1" (apply_transition_grants uuid documents "c1" assigned metadata [])

steps : GrantSteps [] after
steps =
    next [] _ after (by_transition uuid documents "c1" assigned metadata [])
      (next _ after after (revoke 5 "g1" _) (done after))

GrantSteps-HasOneGrant_example : HasOneGrant after
GrantSteps-HasOneGrant_example = GrantSteps-HasOneGrant [] after steps no_grants-HasOneGrant

has_active_grant_iff_example :
    (has_active_grant reader "d1" full_access (granted ∷ []) ≡ true)
    ↔ IsGranting reader "d1" full_access (granted ∷ [])
has_active_grant_iff_example = has_active_grant_iff reader "d1" full_access (granted ∷ [])
