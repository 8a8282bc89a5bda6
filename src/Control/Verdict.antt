-- ===== src/Control/Verdict.antt =====
-- `BuildVerdict` (internal/control/verdict.go): the parts of a verdict that it decides. The run id,
-- the profile, the commit, the violations and the artifacts path are passed through.
use pro_thesis.Prelude.{ℕ, ◌≡◌, Bool, true, false, if◌then◌else◌, String, arith, ◌&&◌, str_eq}
use pro_thesis.Schema.{VerdictResult, verdict_pass, verdict_fail, verdict_inconclusive}
use pro_thesis.Control.Outcome.{Outcome, pass, violation, inconclusive, verdict_result, describe}

-- `LockStatus`; `no_lock_status` is the empty string.
pub data LockStatus : Type 0 where
  lock_ok lock_mismatch lock_absent lock_bypassed no_lock_status : LockStatus
  other_lock : ℕ → LockStatus

pub record VerdictInput : Type 0 where
  pub outcome : Outcome
  pub narrowed : Bool
  pub oracle_lock : LockStatus
  pub error : String

pub record Verdict : Type 0 where
  pub verdict : VerdictResult
  pub oracle_lock : LockStatus
  pub error : String

abbrev is_pass : Outcome → Bool
is_pass pass = true
is_pass _ = false

abbrev is_inconclusive : VerdictResult → Bool
is_inconclusive verdict_inconclusive = true
is_inconclusive _ = false

bypass : LockStatus → LockStatus
bypass lock_ok = lock_bypassed
bypass s = s

-- The lock status that `Verdict.Normalize` leaves.
normalize_lock : LockStatus → LockStatus
normalize_lock no_lock_status = lock_absent
normalize_lock s = s

abbrev narrowed_cause : String
narrowed_cause =
    "the command line narrowed the profile's budget or fault schedule and no violation was found: a narrowed run cannot report PASS (D-059)"

-- `quote` is the `%q` of the standard library.
module _ (quote : String → String) where
  unfoldable pub build_verdict : VerdictInput → Verdict
  unfolding bypass normalize_lock
  build_verdict i =
      let cut = i.narrowed && is_pass i.outcome in
      let outcome = if cut then inconclusive else i.outcome in
      let cause = if cut then narrowed_cause else i.error in
      let lock = if i.narrowed then bypass i.oracle_lock else i.oracle_lock in
      let v = verdict_result outcome in
      record {
        verdict = v;
        oracle_lock = normalize_lock lock;
        error =
            if is_inconclusive v
            then (if str_eq cause "" then describe quote outcome else cause)
            else "";
      }

  -- A PASS is reported only for a run that passed and was not narrowed; a narrowed run never
  -- reports its lock as ok, and a violation is reported as FAIL all the same.
  pub build_verdict-gate :
      (i : VerdictInput)
      → ((build_verdict i).verdict ≡ verdict_pass → (i.outcome ≡ pass) × (i.narrowed ≡ false))
        × ((build_verdict i).oracle_lock ≡ lock_ok
            → (i.oracle_lock ≡ lock_ok) × (i.narrowed ≡ false))
        × (i.outcome ≡ violation → (build_verdict i).verdict ≡ verdict_fail)
  unfolding build_verdict verdict_result
  build_verdict-gate i = (
    (λ h. (ground arith, ground arith)),
    (λ h. (ground arith, ground arith)),
    (λ h. ground arith),
  )
