-- ===== src/Samples/Runs.antt =====
-- Runs of the controller of internal/control, and codes of pkg/schema.
use pro_thesis.Prelude.{◌≡◌, ◌≤◌, refl, List, [], ◌∷◌, true, false, some, All, ◌⊎◌, arith, take}
use pro_thesis.Prelude.Int.{pos, ◌≤ℤ◌, ◌<ℤ◌}
use pro_thesis.Schema.{
  status_ok, status_violated, status_inconclusive, worse_status, status_rank, status_of_exit,
  decode_status, exit_code, verdict_of_code, agent_action, proceed, fix_bug, escalate, verdict_pass,
  verdict_fail,
}
use pro_thesis.Schema.Codes.{
  exit_code-verdict_of_code, decode_status-fails_closed, worse_status-IsUpper,
}
use pro_thesis.Control.Outcome.{
  Outcome, pass, violation, inconclusive, worse, rank, outcome_exit_code, agent_action-outcome,
  worse-gate,
}
use pro_thesis.Control.Budget.{
  Budget, Tracker, new_tracker, worlds_exhausted, wall_expired, may_start_world, expiry_outcome,
  apply_cli_overrides, apply_cli_overrides-narrows,
}
use pro_thesis.Control.Run.{Round, run_loop, run_outcome}
use pro_thesis.Control.Run.Earned.{run-earned, run_loop-ends, IsEnough}
use pro_thesis.Control.Verdict.{VerdictInput, build_verdict, build_verdict-gate, lock_ok}

-- Two worlds, with a wall of 100.
abbrev two_worlds : Budget
two_worlds = record {
  wall = pos 100;
  worlds = pos 2;
  required_wall = pos 100;
  required_worlds = pos 2;
  narrowed = false;
  min_worlds = pos 0;
}

abbrev passing : List Round
passing =
    record { elapsed = pos 0; interrupted = false; result = pass }
    ∷ record { elapsed = pos 40; interrupted = false; result = pass }
    ∷ record { elapsed = pos 90; interrupted = false; result = pass }
    ∷ []

abbrev both_done : Tracker
both_done = record { budget = two_worlds; started = 2; completed = 2 }

run-earned_example : (2 ≤ 3) × All (λ r. r.result ≡ pass) (take 2 passing) × IsEnough two_worlds 2
unfolding run_loop run_outcome may_start_world worlds_exhausted wall_expired rank expiry_outcome
run-earned_example = run-earned two_worlds passing (pos 101) both_done pass (ground arith) refl refl

run_loop-ends_example :
    (r : Tracker × Outcome) × (run_loop (new_tracker two_worlds) pass passing ≡ some r)
run_loop-ends_example =
    run_loop-ends (new_tracker two_worlds) pass passing (ground arith) (ground arith) (ground arith)

abbrev narrowed_pass : VerdictInput
narrowed_pass = record { outcome = pass; narrowed = true; oracle_lock = lock_ok; error = "" }

build_verdict-gate_example :
    ((build_verdict (λ s. s) narrowed_pass).verdict ≡ verdict_pass → (pass ≡ pass) × (true ≡ false))
    × ((build_verdict (λ s. s) narrowed_pass).oracle_lock ≡ lock_ok
        → (lock_ok ≡ lock_ok) × (true ≡ false))
    × (pass ≡ violation → (build_verdict (λ s. s) narrowed_pass).verdict ≡ verdict_fail)
build_verdict-gate_example = build_verdict-gate (λ s. s) narrowed_pass

apply_cli_overrides-narrows_example :
    (((apply_cli_overrides two_worlds (pos 60) (pos 5)).wall ≡ pos 100)
      ⊎ ((pos 0 <ℤ (apply_cli_overrides two_worlds (pos 60) (pos 5)).wall)
          × ((pos 100 ≤ℤ pos 0)
              ⊎ ((apply_cli_overrides two_worlds (pos 60) (pos 5)).wall <ℤ pos 100))
          × ((apply_cli_overrides two_worlds (pos 60) (pos 5)).narrowed ≡ true)))
    × (((apply_cli_overrides two_worlds (pos 60) (pos 5)).worlds ≡ pos 2)
        ⊎ ((pos 0 <ℤ (apply_cli_overrides two_worlds (pos 60) (pos 5)).worlds)
            × ((pos 2 <ℤ pos 0)
                ⊎ ((apply_cli_overrides two_worlds (pos 60) (pos 5)).worlds <ℤ pos 2))
            × ((apply_cli_overrides two_worlds (pos 60) (pos 5)).narrowed ≡ true)))
    × ((apply_cli_overrides two_worlds (pos 60) (pos 5)).required_wall ≡ pos 100)
    × ((apply_cli_overrides two_worlds (pos 60) (pos 5)).required_worlds ≡ pos 2)
apply_cli_overrides-narrows_example = apply_cli_overrides-narrows two_worlds (pos 60) (pos 5)

worse-gate_example :
    (worse inconclusive violation ≡ pass → (inconclusive ≡ pass) × (violation ≡ pass))
    × ((worse inconclusive violation ≡ inconclusive) ⊎ (worse inconclusive violation ≡ violation))
    × (rank inconclusive ≤ rank (worse inconclusive violation))
    × (rank violation ≤ rank (worse inconclusive violation))
worse-gate_example = worse-gate inconclusive violation

agent_action-outcome_example :
    (agent_action (outcome_exit_code violation) ≡ proceed → violation ≡ pass)
    × (agent_action (outcome_exit_code violation) ≡ fix_bug → violation ≡ violation)
    × ¬ (agent_action (outcome_exit_code violation) ≡ escalate)
agent_action-outcome_example = agent_action-outcome violation

exit_code-verdict_of_code_example : exit_code (verdict_of_code (pos 3)) ≡ pos 3
exit_code-verdict_of_code_example = exit_code-verdict_of_code (pos 3) (ground arith) (ground arith)

-- Stdout says `ok`, and the exit code says violated.
decode_status-fails_closed_example :
    (decode_status (some status_ok) (pos 1) ≡ status_ok
      → (some status_ok ≡ some status_ok) × (pos 1 ≡ pos 0))
    × (status_rank (status_of_exit (pos 1)) ≤ status_rank (decode_status (some status_ok) (pos 1)))
decode_status-fails_closed_example = decode_status-fails_closed (some status_ok) (pos 1)

worse_status-IsUpper_example :
    (status_rank status_violated ≤ status_rank (worse_status status_violated status_inconclusive))
    × (status_rank status_inconclusive
        ≤ status_rank (worse_status status_violated status_inconclusive))
    × ((worse_status status_violated status_inconclusive ≡ status_violated)
        ⊎ (worse_status status_violated status_inconclusive ≡ status_inconclusive))
worse_status-IsUpper_example = worse_status-IsUpper status_violated status_inconclusive
