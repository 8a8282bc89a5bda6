-- ===== src/Shrink/Attempt.antt =====
-- A candidate world, one execution of it, and the judgement of the execution
-- (internal/shrink/candidate.go). The text of a reason is left out.
pub mod Shown
use pro_thesis.Prelude.{List, [], ◌∷◌, Bool, Option, none, some, String, if◌then◌else◌}
use pro_thesis.Prelude.Int.{ℤ}
use pro_thesis.Shrink.Identity.{Identity, Strictness, match_at}

-- `ops`: `none` for the whole workload.
pub record Candidate : Type 0 where
  pub faults : List String
  pub ops : Option (List ℤ)

-- `failed`: the executor reported an error for this candidate.
pub record Attempt : Type 0 where
  pub reached : Bool
  pub observed : List Identity
  pub world_path : String
  pub failed : Bool

pub data Signal : Type 0 where
  signal_unknown signal_reproduced signal_different signal_clean : Signal

-- The loop of `Classify` over what was observed, with what diverged so far in front.
unfoldable pub classify_observed : Strictness → Identity → List Identity → Signal × List Identity
unfolding match_at
classify_observed s orig [] = (signal_clean, [])
classify_observed s orig (got ∷ rest) =
    let later = classify_observed s orig rest in
    elim (match_at s orig got) [
      | none ↦ (signal_reproduced, got ∷ [])
      | some why ↦ elim later.0 [
        | signal_reproduced ↦ later
        | signal_unknown ↦ (signal_different, got ∷ later.1)
        | signal_different ↦ (signal_different, got ∷ later.1)
        | signal_clean ↦ (signal_different, got ∷ later.1)
      ]
    ]

unfoldable pub classify : Strictness → Identity → Attempt → Signal × List Identity
unfolding classify_observed
classify s orig a =
    if a.failed
    then (signal_unknown, [])
    else if a.reached
    then classify_observed s orig a.observed
    else (signal_unknown, [])
