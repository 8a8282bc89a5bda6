-- ===== src/Control/Budget.antt =====
-- The run budget (internal/control/budget.go): what a profile asks for, what the command line cuts,
-- and what an expiry means. Durations and world counts are signed; the clock readings are given.
use pro_thesis.Prelude.{
  ℕ, ◌+◌, ◌≡◌, Bool, true, false, not, ◌&&◌, ◌||◌, if◌then◌else◌, Option, none, some,
}
use pro_thesis.Prelude.{arith, ◌⊎◌}
use pro_thesis.Prelude.Int.{ℤ, pos, negsuc, ltb_ℤ, leb_ℤ, ◌≤ℤ◌, ◌<ℤ◌}
use pro_thesis.Control.Outcome.{Outcome, pass, budget_exhausted}

pub record Budget : Type 0 where
  pub wall : ℤ
  pub worlds : ℤ
  pub required_wall : ℤ
  pub required_worlds : ℤ
  pub narrowed : Bool
  pub min_worlds : ℤ

-- The fields of `schema.Profile` that a budget reads.
pub record Profile : Type 0 where
  pub budget : ℤ
  pub worlds : Option ℤ
  pub min_worlds : Option ℤ

abbrev pub schema_worlds_unbounded : ℤ
schema_worlds_unbounded = negsuc 0

abbrev pub wall_unbounded : Budget → Bool
wall_unbounded b = leb_ℤ b.wall (pos 0)

abbrev pub worlds_unbounded : Budget → Bool
worlds_unbounded b = leb_ℤ b.worlds (pos 0)

abbrev given_or : Option ℤ → ℤ → ℤ
given_or none d = d
given_or (some z) d = z

unfoldable pub budget_for_profile : Profile → Budget
budget_for_profile prof =
    let b : Budget = record {
      wall = prof.budget;
      worlds = given_or prof.worlds schema_worlds_unbounded;
      required_wall = pos 0;
      required_worlds = pos 0;
      narrowed = false;
      min_worlds = pos 0;
    } in
    if worlds_unbounded b then record b { min_worlds = given_or prof.min_worlds (pos 1) } else b

-- `ApplyCLIOverrides`.
unfoldable pub apply_cli_overrides : Budget → ℤ → ℤ → Budget
apply_cli_overrides b0 cli_wall cli_worlds =
    let b = record b0 { required_wall = b0.wall; required_worlds = b0.worlds } in
    let b =
      if ltb_ℤ (pos 0) cli_wall && (leb_ℤ b.wall (pos 0) || ltb_ℤ cli_wall b.wall)
      then record b { wall = cli_wall; narrowed = true }
      else b in
    if ltb_ℤ (pos 0) cli_worlds && (ltb_ℤ b.worlds (pos 0) || ltb_ℤ cli_worlds b.worlds)
    then record b { worlds = cli_worlds; narrowed = true }
    else b

-- `Validate`: no error.
unfoldable pub is_bounded : Budget → Bool
is_bounded b =
    not (wall_unbounded b && worlds_unbounded b) && not (ltb_ℤ b.worlds schema_worlds_unbounded)

pub record Tracker : Type 0 where
  pub budget : Budget
  pub started : ℕ
  pub completed : ℕ

abbrev pub new_tracker : Budget → Tracker
new_tracker b = record { budget = b; started = 0; completed = 0 }

-- `WallExpired` at a reading of `Elapsed`.
unfoldable pub wall_expired : Tracker → ℤ → Bool
wall_expired t elapsed = not (wall_unbounded t.budget) && leb_ℤ t.budget.wall elapsed

unfoldable pub worlds_exhausted : Tracker → Bool
worlds_exhausted t =
    if worlds_unbounded t.budget then false else leb_ℤ t.budget.worlds (pos t.started)

unfoldable pub may_start_world : Tracker → ℤ → Bool
unfolding worlds_exhausted wall_expired
may_start_world t elapsed =
    if worlds_exhausted t then false else if wall_expired t elapsed then false else true

abbrev pub note_world_started : Tracker → Tracker
note_world_started t = record t { started = t.started + 1 }

abbrev pub note_world_finished : Tracker → Tracker
note_world_finished t = record t { completed = t.completed + 1 }

unfoldable pub budget_outcome : Bool → Outcome
budget_outcome true = pass
budget_outcome false = budget_exhausted

-- `ExpiryOutcome`.
unfoldable pub expiry_outcome : Tracker → Outcome
unfolding budget_outcome
expiry_outcome t =
    if worlds_unbounded t.budget
    then (let least = if ltb_ℤ t.budget.min_worlds (pos 1) then pos 1 else t.budget.min_worlds in
        if leb_ℤ least (pos t.completed) then pass else budget_outcome false)
    else if leb_ℤ t.budget.worlds (pos t.completed)
    then pass
    else budget_outcome false

-- The command line can only cut a limit: each limit stays, or a positive one takes the place of a
-- larger one or of none; and where either moved, the budget says that it was narrowed, beside the
-- profile's own numbers.
pub apply_cli_overrides-narrows :
    (b : Budget) (cli_wall cli_worlds : ℤ)
    → (((apply_cli_overrides b cli_wall cli_worlds).wall ≡ b.wall)
        ⊎ ((pos 0 <ℤ (apply_cli_overrides b cli_wall cli_worlds).wall)
            × ((b.wall ≤ℤ pos 0) ⊎ ((apply_cli_overrides b cli_wall cli_worlds).wall <ℤ b.wall))
            × ((apply_cli_overrides b cli_wall cli_worlds).narrowed ≡ true)))
      × (((apply_cli_overrides b cli_wall cli_worlds).worlds ≡ b.worlds)
          ⊎ ((pos 0 <ℤ (apply_cli_overrides b cli_wall cli_worlds).worlds)
              × ((b.worlds <ℤ pos 0)
                  ⊎ ((apply_cli_overrides b cli_wall cli_worlds).worlds <ℤ b.worlds))
              × ((apply_cli_overrides b cli_wall cli_worlds).narrowed ≡ true)))
      × ((apply_cli_overrides b cli_wall cli_worlds).required_wall ≡ b.wall)
      × ((apply_cli_overrides b cli_wall cli_worlds).required_worlds ≡ b.worlds)
unfolding apply_cli_overrides
apply_cli_overrides-narrows b cli_wall cli_worlds =
    (ground arith, ground arith, ground arith, ground arith)
