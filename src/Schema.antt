-- ===== src/Schema.antt =====
-- The verdict, exit-code and status vocabularies of pkg/schema (exit.go, enums.go, oracle.go). A Go
-- string type has values outside its constants: `other_status` and `unknown_verdict` stand for them.
pub mod Codes
use pro_thesis.Prelude.{
  ℕ, ◌==◌, if◌then◌else◌, ltb, Option, some, none, Bool, true, false, ◌≡◌, arith,
}
use pro_thesis.Prelude.Int.{ℤ, pos, negsuc}

pub data VerdictResult : Type 0 where
  verdict_pass verdict_fail verdict_inconclusive verdict_budget_exhausted : VerdictResult
  verdict_oracle_drift verdict_config_error : VerdictResult
  unknown_verdict : ℤ → VerdictResult

-- `ExitCode` is an int.
abbrev pub exit_pass : ℤ
exit_pass = pos 0

abbrev pub exit_fail : ℤ
exit_fail = pos 1

abbrev pub exit_inconclusive : ℤ
exit_inconclusive = pos 2

abbrev pub exit_budget_exhausted : ℤ
exit_budget_exhausted = pos 3

abbrev pub exit_oracle_drift : ℤ
exit_oracle_drift = pos 4

abbrev pub exit_config_error : ℤ
exit_config_error = pos 5

-- `ExitCode.Verdict`.
unfoldable pub verdict_of_code : ℤ → VerdictResult
verdict_of_code (negsuc n) = unknown_verdict (negsuc n)
verdict_of_code (pos n) =
    if n == 0
    then verdict_pass
    else if n == 1
    then verdict_fail
    else if n == 2
    then verdict_inconclusive
    else if n == 3
    then verdict_budget_exhausted
    else if n == 4
    then verdict_oracle_drift
    else if n == 5
    then verdict_config_error
    else unknown_verdict (pos n)

-- `VerdictResult.ExitCode`.
unfoldable pub exit_code : VerdictResult → ℤ
exit_code verdict_pass = exit_pass
exit_code verdict_fail = exit_fail
exit_code verdict_inconclusive = exit_inconclusive
exit_code verdict_budget_exhausted = exit_budget_exhausted
exit_code verdict_oracle_drift = exit_oracle_drift
exit_code verdict_config_error = exit_config_error
exit_code (unknown_verdict c) = negsuc 0

pub data AgentAction : Type 0 where
  proceed fix_bug retry_once_then_escalate soft_warn escalate fix_config : AgentAction

-- `ExitCode.AgentAction`.
unfoldable pub agent_action : ℤ → AgentAction
agent_action (negsuc n) = fix_config
agent_action (pos n) =
    if n == 0
    then proceed
    else if n == 1
    then fix_bug
    else if n == 2
    then retry_once_then_escalate
    else if n == 3
    then soft_warn
    else if n == 4
    then escalate
    else fix_config

-- `OracleStatus`; `no_status` is the empty string, and `other` any other undefined one.
pub data OracleStatus : Type 0 where
  status_ok status_violated status_inconclusive no_status : OracleStatus
  other_status : ℕ → OracleStatus

unfoldable pub status_rank : OracleStatus → ℕ
status_rank status_violated = 2
status_rank status_inconclusive = 1
status_rank status_ok = 0
status_rank no_status = 1
status_rank (other_status n) = 1

-- `OracleStatus.Worse`.
unfoldable pub worse_status : OracleStatus → OracleStatus → OracleStatus
unfolding status_rank
worse_status s o = if ltb (status_rank s) (status_rank o) then o else s

-- `OracleExitCode.Status`.
unfoldable pub status_of_exit : ℤ → OracleStatus
status_of_exit (negsuc n) = status_inconclusive
status_of_exit (pos n) =
    if n == 0 then status_ok else if n == 1 then status_violated else status_inconclusive

-- The status that `DecodeOracleOutput` reports: `parsed` is what `ParseOracleOutput` read from
-- stdout, `none` where it refused.
unfoldable pub decode_status : Option OracleStatus → ℤ → OracleStatus
unfolding worse_status status_of_exit
decode_status none code = worse_status status_inconclusive (status_of_exit code)
decode_status (some no_status) code = worse_status status_inconclusive (status_of_exit code)
decode_status (some s) code = worse_status s (status_of_exit code)
