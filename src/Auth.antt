-- ===== src/Auth.antt =====
-- apps/api/src/modules/auth/login-attempt.service.ts: the counting of failed logins by address. The
-- hash of an address is a parameter, and so are the two numbers of the environment.
pub mod Lockout
use Prim.Native.String
use etik_bildirim_platformu.Prelude.{
  ℕ, ◌+◌, ◌*◌, String, Bool, Option, none, some, List, [], ◌∷◌, ◌++◌, ◌===◌, string_eq, find, ltb,
  leb, if◌then◌else◌, Outcome, ok, throw,
}
use etik_bildirim_platformu.Shared.Errors.{ErrorCode, auth_brute_force_locked}
use etik_bildirim_platformu.Storage.Table.{update_rows}

-- `LoginAttempt`
pub record LoginAttempt : Type 0 where
  pub scope_key : String
  pub ip_address_hash : String
  pub user_id : Option String
  pub failed_count : ℕ
  pub locked_until : Option ℕ
  pub last_attempt_at : ℕ

pub record LoginSettings : Type 0 where
  pub hash_ip_address : String → String
  pub brute_force_max_attempts : ℕ
  pub brute_force_lockout_minutes : ℕ

abbrev pub failed_count_of : Option LoginAttempt → ℕ
failed_count_of none = 0
failed_count_of (some attempt) = attempt.failed_count

abbrev pub user_of : Option LoginAttempt → Option String
user_of none = none
user_of (some attempt) = attempt.user_id

abbrev pub first_of : Option String → Option String → Option String
first_of none other = other
first_of (some id) other = some id

-- `loginAttempt.findUnique`
abbrev pub find_attempt : String → List LoginAttempt → Option LoginAttempt
find_attempt key attempts = find (λ (attempt : LoginAttempt). attempt.scope_key === key) attempts

-- `loginAttempt.upsert`
unfoldable pub upsert :
    LoginAttempt → (LoginAttempt → LoginAttempt) → List LoginAttempt → List LoginAttempt
upsert created change attempts = elim (find_attempt created.scope_key attempts) [
  | none ↦ attempts ++ created ∷ []
  | some _ ↦
      update_rows (λ (attempt : LoginAttempt). attempt.scope_key === created.scope_key) change
        attempts
]

module _ (settings : LoginSettings) where
  abbrev pub build_scope_key : String → String
  build_scope_key ip = String.◌++◌ "oidc:ip:" (settings.hash_ip_address ip)

  unfoldable pub assert_not_locked : String → ℕ → List LoginAttempt → Outcome ErrorCode (Unit {0})
  assert_not_locked ip now attempts = elim (find_attempt (build_scope_key ip) attempts) [
    | none ↦ ok tt
    | some attempt ↦ elim attempt.locked_until [
      | none ↦ ok tt
      | some until ↦ if leb until now then ok tt else throw auth_brute_force_locked
    ]
  ]

  abbrev pub lock_at : ℕ → ℕ → Option ℕ
  lock_at count now =
      if leb settings.brute_force_max_attempts count
      then some (now + settings.brute_force_lockout_minutes * 60 * 1000)
      else none

  unfoldable pub record_failure : String → Option String → ℕ → List LoginAttempt → List LoginAttempt
  unfolding upsert
  record_failure ip user now attempts =
      let key = build_scope_key ip in
      let existing = find_attempt key attempts in
      let next = failed_count_of existing + 1 in
      upsert
        (record {
          scope_key = key;
          ip_address_hash = settings.hash_ip_address ip;
          user_id = user;
          failed_count = next;
          locked_until = lock_at next now;
          last_attempt_at = now;
        })
        (λ (attempt : LoginAttempt). record attempt {
          user_id = first_of user (user_of existing);
          failed_count = next;
          locked_until = lock_at next now;
          last_attempt_at = now;
        })
        attempts

  unfoldable pub record_success : String → Option String → ℕ → List LoginAttempt → List LoginAttempt
  unfolding upsert
  record_success ip user now attempts =
      upsert
        (record {
          scope_key = build_scope_key ip;
          ip_address_hash = settings.hash_ip_address ip;
          user_id = user;
          failed_count = 0;
          locked_until = none;
          last_attempt_at = now;
        })
        (λ (attempt : LoginAttempt). record attempt {
          user_id = user;
          failed_count = 0;
          locked_until = none;
          last_attempt_at = now;
        })
        attempts
