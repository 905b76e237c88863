-- ===== src/Audit/Chain.antt =====
-- apps/worker/src/audit/audit-chain-verifier.ts, its twin `verifyChainIntegrity` of
-- apps/api/src/audit/audit-seal.service.ts, and apps/worker/src/jobs/audit-chain-verify.job.ts.
-- The hashes are written by a trigger of the database; here they are only compared.
pub mod Links
use etik_bildirim_platformu.Prelude.{
  ℕ, ◌+◌, String, Bool, true, false, not, ◌&&◌, Option, none, some, List, [], ◌∷◌, ◌===◌, string_eq,
  option_eq, length, ltb, is_some, truthy, if◌then◌else◌,
}

-- `AuditChainRow`
pub record ChainRow : Type 0 where
  pub id : String
  pub prev_hash : Option String
  pub event_hash : Option String

-- `AuditChainVerificationResult`
pub record ChainVerification : Type 0 where
  pub valid : Bool
  pub event_count : ℕ
  pub broken_at_event_id : Option String

abbrev pub intact : ℕ → ChainVerification
intact count = record { valid = true; event_count = count; broken_at_event_id = none }

abbrev pub broken_at : ℕ → String → ChainVerification
broken_at count id = record { valid = false; event_count = count; broken_at_event_id = some id }

-- The loop over the rows, with the hash of the row before.
unfoldable pub verify_from : ℕ → Option String → List ChainRow → ChainVerification
verify_from count previous_hash [] = intact count
verify_from count previous_hash (row ∷ rows) =
    let rest = verify_from count row.event_hash rows in
    if not (row.prev_hash === previous_hash)
    then broken_at count row.id
    else (if not (is_some (truthy row.event_hash)) then broken_at count row.id else rest)

unfoldable pub verify : List ChainRow → ChainVerification
unfolding verify_from
verify [] = intact 0
verify (row ∷ rows) = verify_from (length (row ∷ rows)) none (row ∷ rows)

-- `AuditChainVerifyJobResult`
pub record ChainReport : Type 0 where
  pub verification : ChainVerification
  pub alarm_raised : Bool

unfoldable pub run : List ChainRow → ChainReport
unfolding verify
run rows =
    let verification = verify rows in
    record {
      verification = verification;
      alarm_raised = if verification.valid then false else true;
    }

-- The state of the job is `lastRunAt`, which starts at 0.
unfoldable pub run_if_due : ℕ → ℕ → List ChainRow → ℕ → Option ChainReport × ℕ
unfolding run
run_if_due interval_ms now_ms rows last_run_at =
    if ltb 0 last_run_at && ltb now_ms (last_run_at + interval_ms)
    then (none, last_run_at)
    else (some (run rows), now_ms)
