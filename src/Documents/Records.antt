-- ===== src/Documents/Records.antt =====
-- The enumerations of packages/shared/src/enums that documents use, and the rows of documents and
-- of grants as document-access.service.ts reads and writes them.
use etik_bildirim_platformu.Prelude.{ℕ, String, Option, Eq, eq_by}
use etik_bildirim_platformu.Shared.Enums.{Role}

pub data DocumentCategory : Type 0 where
  incoming_report_attachment pre_research_note company_evidence disciplinary_document
        rapporteur_report council_agenda_pack decision_draft member_approval_record
        board_chair_approval implementation_letter action_response follow_up_decision closure_note :
      DocumentCategory

pub data DocumentGrantScope : Type 0 where
  full_access metadata_only : DocumentGrantScope

unfoldable pub DocumentCategory-discrete : Discrete DocumentCategory
DocumentCategory-discrete = hlevel

unfoldable pub DocumentGrantScope-discrete : Discrete DocumentGrantScope
DocumentGrantScope-discrete = hlevel

instance abbrev pub document_category_eq : Eq DocumentCategory
document_category_eq = eq_by DocumentCategory-discrete

instance abbrev pub document_grant_scope_eq : Eq DocumentGrantScope
document_grant_scope_eq = eq_by DocumentGrantScope-discrete

pub record DocumentRow : Type 0 where
  pub id : String
  pub case_id : String
  pub document_category : DocumentCategory
  pub transition_id : Option String

pub record GrantRow : Type 0 where
  pub id : String
  pub document_id : String
  pub granted_to_user_id : Option String
  pub granted_to_role : Option Role
  pub grant_scope : DocumentGrantScope
  pub granted_by_transition_id : Option String
  pub revoked_at : Option ℕ

-- `CreateDocumentGrantInput`, without the receiver.
pub record CreateDocumentGrantInput : Type 0 where
  pub document_id : String
  pub grant_scope : Option DocumentGrantScope
  pub granted_by_transition_id : Option String

-- What the grants of a transition read of its row.
pub record GrantingTransition (Command : Type 0) : Type 0 where
  pub id : String
  pub command : Command
  pub performed_by_user_id : Option String
