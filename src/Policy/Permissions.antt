-- ===== src/Policy/Permissions.antt =====
-- packages/policy/src/permissions.ts and role-permission-map.ts.
use etik_bildirim_platformu.Prelude.{
  ◌≡◌, ◌↔◌, Bool, true, List, [], ◌∷◌, Eq, eq_by, any, any_iff, In, includes,
}
use etik_bildirim_platformu.Shared.Enums.{
  Role, council_secretary, council_chair, council_member, rapporteur, board_chair, action_owner,
  admin,
}

-- `PermissionCode`, each member named after its key.
pub data PermissionCode : Type 0 where
  report_create_manual report_file_upload case_list case_read case_transition case_pre_review
        case_set_agenda case_assign_rapporteur case_update_confidentiality council_vote_decision
        board_approve_or_veto action_respond document_upload document_download task_list
        task_complete task_delegate secure_message_read secure_message_write notification_list
        notification_mark_read audit_view_metadata admin_manage_roles admin_manage_settings
        admin_manage_master_data admin_view_sync_status admin_maker_checker_approve
        admin_manage_kvkk tracking_verify auth_session_read :
      PermissionCode

unfoldable pub PermissionCode-discrete : Discrete PermissionCode
PermissionCode-discrete = hlevel

instance abbrev pub permission_code_eq : Eq PermissionCode
permission_code_eq = eq_by PermissionCode-discrete

abbrev pub public_permission_codes : List PermissionCode
public_permission_codes = report_create_manual ∷ tracking_verify ∷ []

-- `ROLE_PERMISSION_MAP`; a `Set` that is only asked for its members.
unfoldable pub get_permissions_for_role : Role → List PermissionCode
get_permissions_for_role council_secretary =
    case_list ∷ case_read ∷ case_transition ∷ case_pre_review ∷ case_set_agenda
    ∷ case_assign_rapporteur ∷ case_update_confidentiality ∷ document_upload ∷ document_download
    ∷ task_list ∷ task_complete ∷ task_delegate ∷ secure_message_read ∷ secure_message_write
    ∷ notification_list ∷ notification_mark_read ∷ admin_maker_checker_approve ∷ admin_manage_kvkk
    ∷ auth_session_read ∷ []
get_permissions_for_role council_chair =
    case_list ∷ case_read ∷ case_transition ∷ case_update_confidentiality ∷ council_vote_decision
    ∷ document_download ∷ task_list ∷ task_complete ∷ task_delegate ∷ notification_list
    ∷ notification_mark_read ∷ admin_maker_checker_approve ∷ auth_session_read ∷ []
get_permissions_for_role council_member =
    case_list ∷ case_read ∷ case_transition ∷ council_vote_decision ∷ document_download ∷ task_list
    ∷ task_complete ∷ task_delegate ∷ notification_list ∷ notification_mark_read ∷ auth_session_read
    ∷ []
get_permissions_for_role board_chair =
    case_list ∷ case_read ∷ case_transition ∷ board_approve_or_veto ∷ document_download ∷ task_list
    ∷ task_complete ∷ task_delegate ∷ notification_list ∷ notification_mark_read
    ∷ admin_maker_checker_approve ∷ auth_session_read ∷ []
get_permissions_for_role rapporteur =
    case_list ∷ case_read ∷ case_transition ∷ report_file_upload ∷ document_upload
    ∷ document_download ∷ task_list ∷ task_complete ∷ task_delegate ∷ notification_list
    ∷ notification_mark_read ∷ auth_session_read ∷ []
get_permissions_for_role action_owner =
    case_list ∷ case_read ∷ case_transition ∷ action_respond ∷ document_upload ∷ document_download
    ∷ task_list ∷ task_complete ∷ task_delegate ∷ notification_list ∷ notification_mark_read
    ∷ auth_session_read ∷ []
get_permissions_for_role admin =
    case_list ∷ case_read ∷ admin_manage_roles ∷ admin_manage_settings ∷ admin_manage_master_data
    ∷ admin_view_sync_status ∷ admin_maker_checker_approve ∷ admin_manage_kvkk ∷ audit_view_metadata
    ∷ notification_list ∷ notification_mark_read ∷ auth_session_read ∷ []

unfoldable pub role_has_permission : Role → PermissionCode → Bool
unfolding get_permissions_for_role PermissionCode-discrete
role_has_permission role permission = includes permission (get_permissions_for_role role)

unfoldable pub roles_have_permission : List Role → PermissionCode → Bool
roles_have_permission roles permission = any (λ role. role_has_permission role permission) roles

-- Permission is granted exactly when one of the roles holds it.
pub roles_have_permission_iff :
    (roles : List Role) (permission : PermissionCode)
    → (roles_have_permission roles permission ≡ true)
      ↔ ((role : Role) × In role roles × (role_has_permission role permission ≡ true))
unfolding roles_have_permission
roles_have_permission_iff roles permission =
    any_iff (λ role. role_has_permission role permission) roles
