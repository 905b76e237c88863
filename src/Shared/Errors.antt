-- ===== src/Shared/Errors.antt =====
-- packages/shared/src/constants/error-codes.ts. Two errors of the database client stand beside the codes:
-- P2002, a broken unique constraint, and P2025, no such row.
pub data ErrorCode : Type 0 where
  auth_oidc_failed auth_session_required auth_session_expired auth_invalid_credentials
        auth_account_locked auth_brute_force_locked auth_invalid_return_url auth_csrf_invalid
        authz_forbidden authz_not_found validation_failed rate_limit_exceeded internal_error
        crypto_decrypt_failed crypto_kms_unavailable crypto_invalid_key_config
        audit_forbidden_content audit_publish_failed master_data_inactive document_type_not_allowed
        document_size_exceeded document_quarantined document_rejected resource_not_found
        intake_kvkk_version_mismatch case_invalid_transition case_optimistic_lock
        case_precondition_failed case_already_exists task_not_found task_invalid_state
        task_completion_not_allowed task_already_completed task_delegation_not_allowed
        task_delegation_invalid_target sla_policy_not_found decision_vote_invalid_state
        decision_vote_already_cast decision_unanimity_not_met notification_not_found
        notification_template_unavailable notification_email_not_allowed
        notification_email_not_configured maker_checker_self maker_checker_required
        maker_checker_forbidden admin_user_not_found admin_role_already_active admin_role_not_found
        admin_role_pending admin_clearance_invalid admin_clearance_request_not_found
        admin_clearance_unchanged admin_master_data_type_invalid admin_master_data_not_found
        admin_master_data_code_conflict admin_master_data_company_not_found
        admin_system_setting_not_found admin_system_setting_unchanged admin_system_setting_pending
        admin_system_setting_invalid_value admin_system_setting_batch_not_found
        admin_field_visibility_unchanged admin_field_visibility_pending
        admin_field_visibility_batch_not_found admin_field_visibility_invalid
        admin_field_visibility_admin_protected admin_action_matrix_not_found
        admin_action_matrix_unchanged admin_action_matrix_pending
        admin_action_matrix_batch_not_found admin_action_matrix_invalid_roles
        admin_sla_policy_not_found admin_sla_policy_unchanged admin_sla_policy_pending
        admin_sla_policy_batch_not_found admin_sla_policy_invalid admin_business_calendar_not_found
        admin_business_calendar_date_conflict admin_notification_template_not_found
        admin_notification_template_unchanged admin_notification_template_pending
        admin_notification_template_batch_not_found admin_notification_template_invalid
        admin_notification_template_sensitive_content admin_kvkk_text_version_conflict
        admin_kvkk_text_pending admin_kvkk_text_batch_not_found admin_kvkk_text_invalid
        admin_audit_export_not_found admin_audit_export_not_ready admin_audit_export_failed
        client_p2002 client_p2025 :
      ErrorCode
