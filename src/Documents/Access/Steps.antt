-- ===== src/Documents/Access/Steps.antt =====
-- apps/api/src/modules/document/document-access.service.ts, as sequences of calls.
use etik_bildirim_platformu.Prelude.{ℕ, String, List}
use etik_bildirim_platformu.Shared.Enums.{WorkflowCommand, Role}
use etik_bildirim_platformu.Workflow.Validators.{Metadata}
use etik_bildirim_platformu.Documents.Records.{
  DocumentRow, GrantRow, CreateDocumentGrantInput, GrantingTransition,
}
use etik_bildirim_platformu.Documents.Access.{
  create_user_grant, create_role_grant, grant_uploader_access, apply_transition_grants,
  revoke_grant,
}
use etik_bildirim_platformu.Documents.Access.OneGrant.{
  HasOneGrant, create_user_grant-HasOneGrant, create_role_grant-HasOneGrant,
  apply_transition_grants-HasOneGrant, revoke_grant-HasOneGrant,
}

-- One call of the service, in a transaction of its caller.
pub data GrantStep : List GrantRow → List GrantRow → Type 0 where
  upload :
      (uuid : ℕ → String) (document_id uploader_user_id : String) (grants : List GrantRow)
      → GrantStep grants (grant_uploader_access uuid document_id uploader_user_id grants)
  by_transition :
      (uuid : ℕ → String) (documents : List DocumentRow) (case_id : String)
      (transition : GrantingTransition WorkflowCommand) (metadata : Metadata)
      (grants : List GrantRow)
      → GrantStep grants (apply_transition_grants uuid documents case_id transition metadata grants)
  to_user :
      (uuid : ℕ → String) (input : CreateDocumentGrantInput) (user_id : String)
      (grants : List GrantRow)
      → GrantStep grants (create_user_grant uuid input user_id grants)
  to_role :
      (uuid : ℕ → String) (input : CreateDocumentGrantInput) (role : Role) (grants : List GrantRow)
      → GrantStep grants (create_role_grant uuid input role grants)
  revoke :
      (now : ℕ) (grant_id : String) (grants : List GrantRow)
      → GrantStep grants (revoke_grant now grant_id grants)

pub data GrantSteps : List GrantRow → List GrantRow → Type 0 where
  done : (grants : List GrantRow) → GrantSteps grants grants
  next : (a b c : List GrantRow) → GrantStep a b → GrantSteps b c → GrantSteps a c

GrantStep-HasOneGrant : (a b : List GrantRow) → GrantStep a b → HasOneGrant a → HasOneGrant b
unfolding grant_uploader_access
GrantStep-HasOneGrant _ _ (upload uuid document_id uploader_user_id grants) inv =
    create_user_grant-HasOneGrant uuid _ uploader_user_id grants inv
GrantStep-HasOneGrant _ _ (by_transition uuid documents case_id transition metadata grants) inv =
    apply_transition_grants-HasOneGrant uuid documents case_id transition metadata grants inv
GrantStep-HasOneGrant _ _ (to_user uuid input user_id grants) inv =
    create_user_grant-HasOneGrant uuid input user_id grants inv
GrantStep-HasOneGrant _ _ (to_role uuid input role grants) inv =
    create_role_grant-HasOneGrant uuid input role grants inv
GrantStep-HasOneGrant _ _ (revoke now grant_id grants) inv =
    revoke_grant-HasOneGrant now grant_id grants inv

-- Whatever sequence of calls is made, there is at most one active grant of a document to a user,
-- and at most one to a role, if there was before.
pub GrantSteps-HasOneGrant : (a b : List GrantRow) → GrantSteps a b → HasOneGrant a → HasOneGrant b
GrantSteps-HasOneGrant _ _ (done grants) inv = inv
GrantSteps-HasOneGrant _ _ (next a b c step steps) inv =
    GrantSteps-HasOneGrant b c steps (GrantStep-HasOneGrant a b step inv)
