-- ===== src/Audit/Events.antt =====
-- packages/shared/src/enums/audit-event-type.enum.ts, audit-event-category.enum.ts and
-- audit-severity.enum.ts, and the tables of apps/api/src/audit/audit.constants.ts.

pub data AuditEventType : Type 0 where
  case_transition case_confidentiality_changed case_viewed document_downloaded document_uploaded
        role_assignment_requested role_assignment_approved role_revoked clearance_change_requested
        clearance_updated system_setting_changed tracking_verify_attempt tracking_auth_failed
        secure_message_read secure_message_sent field_visibility_changed action_matrix_changed
        sso_login_success sso_login_failed sso_logout_success authz_denied audit_log_viewed
        report_submitted report_attachment_uploaded tracking_attachment_uploaded task_completed
        task_delegated decision_vote_cast silent_acceptance_created master_data_created
        master_data_updated master_data_deleted sla_policy_changed business_calendar_updated
        notification_template_changed kvkk_text_published :
      AuditEventType

pub data AuditEventCategory : Type 0 where
  auth authz workflow document config tracking system intake : AuditEventCategory

pub data AuditSeverity : Type 0 where
  info warn high critical : AuditSeverity

pub data AuditOutcome : Type 0 where
  allowed denied success failure : AuditOutcome

-- `AUDIT_EVENT_CATEGORY_BY_TYPE`
unfoldable pub category_by_type : AuditEventType → AuditEventCategory
category_by_type case_transition = workflow
category_by_type case_confidentiality_changed = workflow
category_by_type case_viewed = workflow
category_by_type document_downloaded = document
category_by_type document_uploaded = document
category_by_type role_assignment_requested = config
category_by_type role_assignment_approved = config
category_by_type role_revoked = config
category_by_type clearance_change_requested = config
category_by_type clearance_updated = config
category_by_type system_setting_changed = config
category_by_type tracking_verify_attempt = tracking
category_by_type tracking_auth_failed = tracking
category_by_type secure_message_read = tracking
category_by_type secure_message_sent = tracking
category_by_type field_visibility_changed = config
category_by_type action_matrix_changed = config
category_by_type sso_login_success = auth
category_by_type sso_login_failed = auth
category_by_type sso_logout_success = auth
category_by_type authz_denied = authz
category_by_type audit_log_viewed = system
category_by_type report_submitted = intake
category_by_type report_attachment_uploaded = intake
category_by_type tracking_attachment_uploaded = tracking
category_by_type task_completed = workflow
category_by_type task_delegated = workflow
category_by_type decision_vote_cast = workflow
category_by_type silent_acceptance_created = workflow
category_by_type master_data_created = config
category_by_type master_data_updated = config
category_by_type master_data_deleted = config
category_by_type sla_policy_changed = config
category_by_type business_calendar_updated = config
category_by_type notification_template_changed = config
category_by_type kvkk_text_published = config

-- `AUDIT_EVENT_DEFAULT_SEVERITY`
unfoldable pub default_severity : AuditEventType → AuditSeverity
default_severity case_transition = info
default_severity case_confidentiality_changed = high
default_severity case_viewed = info
default_severity document_downloaded = info
default_severity document_uploaded = info
default_severity role_assignment_requested = high
default_severity role_assignment_approved = high
default_severity role_revoked = high
default_severity clearance_change_requested = high
default_severity clearance_updated = high
default_severity system_setting_changed = high
default_severity tracking_verify_attempt = info
default_severity tracking_auth_failed = warn
default_severity secure_message_read = info
default_severity secure_message_sent = info
default_severity field_visibility_changed = high
default_severity action_matrix_changed = high
default_severity sso_login_success = info
default_severity sso_login_failed = warn
default_severity sso_logout_success = info
default_severity authz_denied = warn
default_severity audit_log_viewed = info
default_severity report_submitted = info
default_severity report_attachment_uploaded = info
default_severity tracking_attachment_uploaded = info
default_severity task_completed = info
default_severity task_delegated = info
default_severity decision_vote_cast = info
default_severity silent_acceptance_created = info
default_severity master_data_created = info
default_severity master_data_updated = info
default_severity master_data_deleted = info
default_severity sla_policy_changed = high
default_severity business_calendar_updated = high
default_severity notification_template_changed = high
default_severity kvkk_text_published = high
