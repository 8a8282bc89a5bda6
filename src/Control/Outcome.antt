-- ===== src/Control/Outcome.antt =====
-- Outcomes and their folding (internal/control/outcome.go, and `OracleResult.Outcome` of seams.go).
use pro_thesis.Prelude.{ℕ, ◌≡◌, ◌≤◌, Bool, true, false, if◌then◌else◌, ltb, arith, ◌⊎◌}
use Prim.Native.String.{◌++◌ as append}
use pro_thesis.Prelude.{String}
use pro_thesis.Prelude.Int.{ℤ}
use pro_thesis.Schema.{
  VerdictResult, verdict_pass, verdict_fail, verdict_inconclusive, verdict_budget_exhausted,
  verdict_config_error, exit_code, OracleStatus, status_ok, status_violated, agent_action, proceed,
  fix_bug, escalate,
}

-- `undefined` holds a string outside the closed set.
pub data Outcome : Type 0 where
  pass violation inconclusive harness_error canceled budget_exhausted config_error : Outcome
  undefined : String → Outcome

unfoldable pub rank : Outcome → ℕ
rank pass = 0
rank budget_exhausted = 1
rank canceled = 2
rank inconclusive = 3
rank harness_error = 4
rank violation = 5
rank config_error = 6
rank (undefined n) = 7

-- `Outcome.Worse`.
unfoldable pub worse : Outcome → Outcome → Outcome
unfolding rank
worse o p = if ltb (rank o) (rank p) then p else o

-- `Outcome.VerdictResult`.
unfoldable pub verdict_result : Outcome → VerdictResult
verdict_result pass = verdict_pass
verdict_result violation = verdict_fail
verdict_result inconclusive = verdict_inconclusive
verdict_result harness_error = verdict_inconclusive
verdict_result canceled = verdict_inconclusive
verdict_result budget_exhausted = verdict_budget_exhausted
verdict_result config_error = verdict_config_error
verdict_result (undefined n) = verdict_inconclusive

-- `Outcome.ExitCode`.
unfoldable pub outcome_exit_code : Outcome → ℤ
unfolding verdict_result exit_code
outcome_exit_code o = exit_code (verdict_result o)

-- `Outcome.Describe`; `quote` is the `%q` of the standard library.
unfoldable pub describe : (String → String) → Outcome → String
describe quote pass = "all oracles satisfied"
describe quote violation = "oracle violation; work from the violation's witness"
describe quote inconclusive = "an oracle could not evaluate; retry once, then escalate"
describe quote harness_error = "harness or environment failure; retry once, then escalate"
describe quote canceled = "interrupted before a verdict was reached"
describe quote budget_exhausted = "budget expired before the planned worlds finished"
describe quote config_error = "invalid configuration or arguments"
describe quote (undefined s) =
    append "unrecognised outcome " (append (quote s) ", treated as inconclusive")

-- `OracleResult.Outcome`: `failed` is a non-nil `Err`.
unfoldable pub result_outcome : Bool → OracleStatus → Outcome
result_outcome true s = inconclusive
result_outcome false status_ok = pass
result_outcome false status_violated = violation
result_outcome false _ = inconclusive

-- An agent is told to proceed only by a pass, told to fix a bug only by a violation, and is never
-- given the action `escalate`, which is for drift.
pub agent_action-outcome :
    (o : Outcome)
    → (agent_action (outcome_exit_code o) ≡ proceed → o ≡ pass)
      × (agent_action (outcome_exit_code o) ≡ fix_bug → o ≡ violation)
      × ¬ (agent_action (outcome_exit_code o) ≡ escalate)
unfolding outcome_exit_code agent_action
agent_action-outcome o = ((λ h. ground arith), (λ h. ground arith), (λ h. ground arith))

-- The aggregate of two outcomes is a pass only where both are; it is one of the two, and ranks no
-- lower than either.
pub worse-gate :
    (o p : Outcome)
    → (worse o p ≡ pass → (o ≡ pass) × (p ≡ pass))
      × ((worse o p ≡ o) ⊎ (worse o p ≡ p))
      × (rank o ≤ rank (worse o p))
      × (rank p ≤ rank (worse o p))
unfolding worse
worse-gate o p = ((λ h. ground arith), ground arith, ground arith, ground arith)
