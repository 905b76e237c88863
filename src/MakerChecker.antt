-- ===== src/MakerChecker.antt =====
-- apps/api/src/modules/admin/maker-checker: which role starts an administrative action and which
-- role approves it. A row of the configuration holds a code of the enumeration.
pub mod Checked
use etik_bildirim_platformu.Prelude.{
  ℕ, String, Bool, true, false, not, ◌||◌, Option, none, some, List, [], ◌∷◌, Eq, eq_by, ◌===◌,
  string_eq, find, any, includes, if◌then◌else◌, Outcome, ok, throw, ◌>>=◌, ◌>>◌, require,
}
use etik_bildirim_platformu.Shared.Enums.{
  Role, Role-discrete, role_eq, admin, council_secretary, council_chair, council_member, rapporteur,
  board_chair, action_owner,
}
use etik_bildirim_platformu.Shared.Errors.{
  ErrorCode, authz_forbidden, maker_checker_self, maker_checker_forbidden,
}
use etik_bildirim_platformu.Policy.User.{AuthenticatedUser}

pub data AdminActionCode : Type 0 where
  role_assign role_assign_council_secretary role_assign_board_chair
        clearance_elevate_strictly_confidential system_setting_change field_visibility_change
        action_matrix_change sla_policy_change notification_template_change kvkk_text_publish :
      AdminActionCode

unfoldable pub AdminActionCode-discrete : Discrete AdminActionCode
AdminActionCode-discrete = hlevel

instance abbrev pub admin_action_code_eq : Eq AdminActionCode
admin_action_code_eq = eq_by AdminActionCode-discrete

pub record ActionMatrixEntry : Type 0 where
  pub action_code : AdminActionCode
  pub maker_role : Role
  pub checker_role : Role

abbrev entry : AdminActionCode → Role → Role → ActionMatrixEntry
entry code maker checker = record { action_code = code; maker_role = maker; checker_role = checker }

unfoldable pub default_action_matrix : List ActionMatrixEntry
default_action_matrix =
    entry role_assign admin council_secretary
    ∷ entry role_assign_council_secretary admin board_chair
    ∷ entry role_assign_board_chair admin admin
    ∷ entry clearance_elevate_strictly_confidential council_secretary council_chair
    ∷ entry system_setting_change admin admin
    ∷ entry field_visibility_change admin admin
    ∷ entry action_matrix_change admin admin
    ∷ entry sla_policy_change admin admin
    ∷ entry notification_template_change council_secretary admin
    ∷ entry kvkk_text_publish council_secretary admin
    ∷ []

unfoldable pub resolve_role_assignment_action_code : Role → AdminActionCode
resolve_role_assignment_action_code council_secretary = role_assign_council_secretary
resolve_role_assignment_action_code board_chair = role_assign_board_chair
resolve_role_assignment_action_code _ = role_assign

-- `Map.set`: an entry with the key is replaced where it stands, or the new one comes last.
unfoldable pub set_entry : ActionMatrixEntry → List ActionMatrixEntry → List ActionMatrixEntry
unfolding AdminActionCode-discrete
set_entry new [] = new ∷ []
set_entry new (old ∷ entries) =
    let rest = set_entry new entries in
    if old.action_code === new.action_code then new ∷ entries else old ∷ rest

unfoldable pub merged_entries :
    List ActionMatrixEntry → List ActionMatrixEntry → List ActionMatrixEntry
unfolding set_entry
merged_entries entries [] = entries
merged_entries entries (config ∷ configs) = merged_entries (set_entry config entries) configs

-- `reload`, from the active rows of the configuration: with none, the defaults stand.
unfoldable pub reload : List ActionMatrixEntry → List ActionMatrixEntry
unfolding merged_entries default_action_matrix
reload configs = merged_entries default_action_matrix configs

unfoldable pub get_entry : List ActionMatrixEntry → AdminActionCode → Option ActionMatrixEntry
unfolding AdminActionCode-discrete
get_entry entries code = find (λ (e : ActionMatrixEntry). e.action_code === code) entries

-- A `DomainException`, or the plain `Error` for an unknown code.
pub data Failure : Type 0 where
  domain : ErrorCode → Failure
  unknown_admin_action_code : Failure

abbrev pub entry_or_throw :
    List ActionMatrixEntry → AdminActionCode → Outcome Failure ActionMatrixEntry
entry_or_throw entries code = elim (get_entry entries code) [
  | none ↦ throw unknown_admin_action_code
  | some e ↦ ok e
]

unfoldable pub assert_maker :
    List ActionMatrixEntry → AuthenticatedUser → AdminActionCode → Outcome Failure (Unit {0})
unfolding get_entry Role-discrete
assert_maker entries actor code = do
  e ← entry_or_throw entries code
  require (includes e.maker_role actor.roles) (domain authz_forbidden)

unfoldable pub assert_maker_or_admin :
    List ActionMatrixEntry → AuthenticatedUser → AdminActionCode → Outcome Failure (Unit {0})
unfolding get_entry Role-discrete
assert_maker_or_admin entries actor code = do
  e ← entry_or_throw entries code
  require (includes admin actor.roles || includes e.maker_role actor.roles) (domain authz_forbidden)

unfoldable pub assert_checker :
    List ActionMatrixEntry
    → AuthenticatedUser
    → String
    → AdminActionCode
    → Outcome Failure (Unit {0})
unfolding get_entry Role-discrete
assert_checker entries checker maker_user_id code = do
  require (not (checker.id === maker_user_id)) (domain maker_checker_self)
  e ← entry_or_throw entries code
  require (includes e.checker_role checker.roles) (domain maker_checker_forbidden)
