-- ===== src/Control/Run.antt =====
-- The loop over worlds of `Runner.Run` (internal/control/runner.go). What the environment decides
-- in a round is given: the clock reading, whether the context is cancelled, the world's outcome.
pub mod Earned
use pro_thesis.Prelude.{
  ℕ, ◌+◌, ◌≡◌, List, [], ◌∷◌, Bool, true, false, ◌&&◌, if◌then◌else◌, Option, none, some, ltb,
}
use pro_thesis.Prelude.Int.{ℤ}
use pro_thesis.Control.Outcome.{Outcome, pass, violation, canceled, rank}
use pro_thesis.Control.Budget.{
  Budget, Tracker, new_tracker, may_start_world, wall_expired, note_world_started,
  note_world_finished, expiry_outcome,
}

pub record Round : Type 0 where
  pub elapsed : ℤ
  pub interrupted : Bool
  pub result : Outcome

abbrev pub is_violation : Outcome → Bool
is_violation violation = true
is_violation _ = false

abbrev pub is_pass : Outcome → Bool
is_pass pass = true
is_pass _ = false

-- `none`: the loop is not over when the given rounds are.
unfoldable pub run_loop : Tracker → Outcome → List Round → Option (Tracker × Outcome)
run_loop t o [] = none
run_loop t o (r ∷ rounds) =
    let t' = note_world_finished (note_world_started t) in
    let o' = if ltb (rank o) (rank r.result) then r.result else o in
    let rest = run_loop t' o' rounds in
    if may_start_world t r.elapsed
    then if r.interrupted
      then some (t, canceled)
      else if is_violation r.result
      then some (t', o')
      else rest
    else some (t, o)

-- What follows the loop, at the clock's last reading.
unfoldable pub run_outcome : ℤ → Tracker → Outcome → Outcome
run_outcome elapsed t o = if is_pass o && wall_expired t elapsed then expiry_outcome t else o
