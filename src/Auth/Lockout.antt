-- ===== src/Auth/Lockout.antt =====
-- apps/api/src/modules/auth/login-attempt.service.ts: when an address is locked out.
use etik_bildirim_platformu.Prelude.{
  ℕ, ◌+◌, ◌*◌, ◌≤◌, ◌<◌, ◌≡◌, refl, ap, ◌∙◌, ◌↔◌, ◌⊎◌, inl, inr, String, Option, none, some, List,
  [], ◌∷◌, arith, ◌===◌, ===_refl, string_eq, length, leb, Bool-cases, Option-cases, ok, throw,
}
use etik_bildirim_platformu.Shared.Errors.{auth_brute_force_locked}
use etik_bildirim_platformu.Storage.Finding.{find-test, find-++-none, find-update_rows}
use etik_bildirim_platformu.Auth.{
  LoginAttempt, LoginSettings, failed_count_of, find_attempt, upsert, build_scope_key,
  assert_not_locked, lock_at, record_failure, record_success,
}

-- What is found after an upsert, of a change that keeps the key.
find_attempt-upsert :
    (created : LoginAttempt) (change : LoginAttempt → LoginAttempt) (attempts : List LoginAttempt)
    → ((attempt : LoginAttempt) → (change attempt).scope_key ≡ attempt.scope_key)
    → (find_attempt created.scope_key (upsert created change attempts) ≡ some created)
      ⊎ ((old : LoginAttempt) × (find_attempt created.scope_key (upsert created change attempts)
            ≡ some (change old)))
unfolding upsert
find_attempt-upsert created change attempts keeps =
    elim (Option-cases (find_attempt created.scope_key attempts)) [
      | inl e ↦ inl (
          rw (e, upsert)
            (find-++-none _ attempts (created ∷ []) e ∙ rw (===_refl created.scope_key) refl))
      | inr (old, e) ↦ inr (
        old,
        rw (e, upsert)
            (find-update_rows _ _ change attempts
              (λ attempt. ap (λ key. key === created.scope_key) (keeps attempt)) e
              (find-test _ attempts e)),
      )
    ]

module _ (settings : LoginSettings) where
  -- The attempt after a failure: one more failure is counted, and the lock is set by the count.
  record_failure-found :
      (ip : String) (user : Option String) (now : ℕ) (attempts : List LoginAttempt)
      → (found : LoginAttempt) × (find_attempt
            (build_scope_key settings ip)
            (record_failure settings ip user now attempts)
          ≡ some found)
        × (found.failed_count
            ≡ failed_count_of (find_attempt (build_scope_key settings ip) attempts) + 1)
        × (found.locked_until ≡ lock_at settings found.failed_count now)
  unfolding record_failure
  record_failure-found ip user now attempts =
      elim (find_attempt-upsert _ _ attempts (λ attempt. refl)) [
        | inl e ↦ (_, e, refl, refl)
        | inr (old, e) ↦ (_, e, refl, refl)
      ]

  -- Failures from one address, at the given times.
  abbrev pub record_failures : String → List ℕ → List LoginAttempt → List LoginAttempt
  record_failures ip [] attempts = attempts
  record_failures ip (now ∷ times) attempts =
      record_failures ip times (record_failure settings ip none now attempts)

  record_failures-count :
      (ip : String) (times : List ℕ) (attempts : List LoginAttempt)
      → failed_count_of
          (find_attempt (build_scope_key settings ip) (record_failures ip times attempts))
        ≡ failed_count_of (find_attempt (build_scope_key settings ip) attempts) + length times
  record_failures-count ip [] attempts = omega arith
  record_failures-count ip (now ∷ times) attempts =
      let (found, e, counted, _) = record_failure-found ip none now attempts in
      let rest = record_failures-count ip times (record_failure settings ip none now attempts) in
      let here : failed_count_of (
            find_attempt (build_scope_key settings ip)
              (record_failure settings ip none now attempts))
          ≡ found.failed_count =
        ap failed_count_of e in
      omega arith

  assert_not_locked_iff :
      (ip : String) (now at : ℕ) (attempts : List LoginAttempt) (found : LoginAttempt)
      → find_attempt (build_scope_key settings ip) attempts ≡ some found
      → found.locked_until ≡ lock_at settings found.failed_count now
      → (assert_not_locked settings ip at attempts ≡ throw auth_brute_force_locked) ↔ (
          (settings.brute_force_max_attempts ≤ found.failed_count)
          × (at < now + settings.brute_force_lockout_minutes * 60 * 1000))
  unfolding assert_not_locked
  assert_not_locked_iff ip now at attempts found e lock =
      elim (Bool-cases (leb settings.brute_force_max_attempts found.failed_count)) [
        | inl many ↦ rw (e, lock, many, assert_not_locked) (ground (arith, many))
        | inr few ↦ rw (e, lock, few, assert_not_locked) (ground (arith, few))
      ]

  -- After failures from an address that had no record, the last of them at `now`, a login from it
  -- is refused exactly when the failures are as many as the settings allow at most, or more, and
  -- the minutes of the lock since the last one are not over.
  pub failures-locked_iff :
      (ip : String) (times : List ℕ) (now at : ℕ) (attempts : List LoginAttempt)
      → find_attempt (build_scope_key settings ip) attempts ≡ none
      → (assert_not_locked settings ip at
            (record_failure settings ip none now (record_failures ip times attempts))
          ≡ throw auth_brute_force_locked)
        ↔ ((settings.brute_force_max_attempts ≤ length times + 1)
            × (at < now + settings.brute_force_lockout_minutes * 60 * 1000))
  failures-locked_iff ip times now at attempts unknown =
      let (found, e, counted, lock) =
        record_failure-found ip none now (record_failures ip times attempts) in
      let before : failed_count_of (find_attempt (build_scope_key settings ip) attempts) ≡ 0 =
        ap failed_count_of unknown in
      let before_last = record_failures-count ip times attempts in
      let count : found.failed_count ≡ length times + 1 = omega arith in
      let same = assert_not_locked_iff ip now at _ found e lock in rw (← count) same

  record_success-found :
      (ip : String) (user : Option String) (now : ℕ) (attempts : List LoginAttempt)
      → (found : LoginAttempt) × (find_attempt
            (build_scope_key settings ip)
            (record_success settings ip user now attempts)
          ≡ some found)
        × (found.locked_until ≡ none)
  unfolding record_success
  record_success-found ip user now attempts =
      elim (find_attempt-upsert _ _ attempts (λ attempt. refl)) [
        | inl e ↦ (_, e, refl)
        | inr (old, e) ↦ (_, e, refl)
      ]

  -- After a login that succeeds, the address is not locked out, whatever was counted before.
  pub record_success-assert_not_locked :
      (ip : String) (user : Option String) (now at : ℕ) (attempts : List LoginAttempt)
      → assert_not_locked settings ip at (record_success settings ip user now attempts) ≡ ok tt
  unfolding assert_not_locked
  record_success-assert_not_locked ip user now at attempts =
      let (found, e, unlocked) = record_success-found ip user now attempts in
      rw (e, unlocked, assert_not_locked) refl
