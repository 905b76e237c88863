-- ===== src/Examples/AdminExamples.antt =====
-- apps/api/src/modules/admin/maker-checker: a configuration that changes one entry, and
-- apps/api/src/modules/auth: failed logins.
use etik_bildirim_platformu.Prelude.{
  refl, ◌≡◌, ◌≢◌, ◌↔◌, false, none, some, List, [], ◌∷◌, ok, throw, ◌+◌, ◌*◌, ◌≤◌, ◌<◌, In,
}
use etik_bildirim_platformu.Shared.Enums.{council_chair, admin, strictly_confidential}
use etik_bildirim_platformu.Shared.Errors.{auth_brute_force_locked}
use etik_bildirim_platformu.Auth.{LoginSettings, assert_not_locked, record_failure}
use etik_bildirim_platformu.Auth.Lockout.{record_failures, failures-locked_iff}
use etik_bildirim_platformu.Policy.User.{AuthenticatedUser}
use etik_bildirim_platformu.MakerChecker.{
  ActionMatrixEntry, kvkk_text_publish, reload, get_entry, assert_checker,
}
use etik_bildirim_platformu.MakerChecker.Checked.{assert_checker_iff}

abbrev chair : AuthenticatedUser
chair = record {
  id = "u2";
  email = "u2@example.org";
  display_name = "U2";
  roles = council_chair ∷ [];
  clearance_level = strictly_confidential;
  company_id = none;
  company_name = none;
  function_id = none;
  location_id = none;
  is_general_secretary = false;
}

abbrev configs : List ActionMatrixEntry
configs =
    record { action_code = kvkk_text_publish; maker_role = admin; checker_role = council_chair }
    ∷ []

assert_checker_iff_example :
    (assert_checker (reload configs) chair "u1" kvkk_text_publish ≡ ok tt) ↔ (
      (chair.id ≢ "u1")
      × ((e : ActionMatrixEntry) × (get_entry (reload configs) kvkk_text_publish ≡ some e)
          × In e.checker_role chair.roles))
assert_checker_iff_example = assert_checker_iff (reload configs) chair "u1" kvkk_text_publish

-- Three failed logins lock an address for a quarter of an hour.
abbrev settings : LoginSettings
settings = record {
  hash_ip_address = λ ip. ip;
  brute_force_max_attempts = 3;
  brute_force_lockout_minutes = 15;
}

failures-locked_iff_example :
    (assert_not_locked settings "10.0.0.1" 900002 (
        record_failure settings "10.0.0.1" none 3
          (record_failures settings "10.0.0.1" (1 ∷ 2 ∷ []) []))
      ≡ throw auth_brute_force_locked)
    ↔ ((3 ≤ 3) × (900002 < 3 + 15 * 60 * 1000))
failures-locked_iff_example = failures-locked_iff settings "10.0.0.1" (1 ∷ 2 ∷ []) 3 900002 [] refl
