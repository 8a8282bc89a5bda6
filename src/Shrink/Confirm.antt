-- ===== src/Shrink/Confirm.antt =====
-- The confirmation gate (internal/shrink/confirm.go).
pub mod Counts
pub mod Replays
pub mod Report
use pro_thesis.Prelude.{
  ℕ, zero, suc, ◌+◌, List, [], ◌∷◌, Bool, true, false, not, ◌&&◌, ◌||◌, Option, none, some, String,
  str_eq,
}
use pro_thesis.Prelude.{if◌then◌else◌, ◌==◌, ltb, leb}
use pro_thesis.Prelude.Int.{ℤ, pos, negsuc}
use pro_thesis.Shrink.Budget.{
  StopReason, stop_complete, stop_canceled, stop_world_budget, truncated,
}
use pro_thesis.Shrink.Identity.{Identity}
use pro_thesis.Shrink.Attempt.{
  Candidate, Attempt, Signal, signal_unknown, signal_reproduced, signal_different, signal_clean,
  classify,
}
use pro_thesis.Shrink.Prober.{Prober, execute, note_attempt}

pub record Confirmation : Type 0 where
  pub k : ℤ
  pub trials : ℕ
  pub reproduced : ℕ
  pub different : ℕ
  pub unknown : ℕ
  pub world : String
  pub stop : StopReason

abbrev pub new_confirmation : ℤ → Confirmation
new_confirmation k = record {
  k = k;
  trials = 0;
  reproduced = 0;
  different = 0;
  unknown = 0;
  world = "";
  stop = stop_complete;
}

-- `Ran`.
abbrev pub has_run : Confirmation → Bool
has_run c = ltb 0 c.trials

abbrev pub reaches : ℤ → ℕ → Bool
reaches (pos k) n = ltb 0 k && leb k n
reaches (negsuc k) n = false

-- `Passed`.
unfoldable pub has_passed : Confirmation → Bool
has_passed c = reaches c.k c.trials && c.reproduced == c.trials

-- The count that a replay adds to.
abbrev pub count : Confirmation → Signal → Confirmation
count c signal_reproduced = record c { reproduced = c.reproduced + 1 }
count c signal_different = record c { different = c.different + 1 }
count c signal_unknown = record c { unknown = c.unknown + 1 }
count c signal_clean = c

-- One replay, by its signal and the world it names.
abbrev pub replayed : Confirmation → Signal → String → Confirmation
replayed c sig world =
    count (record c { trials = c.trials + 1; world = if str_eq world "" then c.world else world })
      sig

-- `minimalRepro`: the counts of the `reproduced` text.
unfoldable pub minimal_repro : String → Confirmation → Option (String × ℕ × ℕ)
minimal_repro world c =
    if str_eq world "" || (not (has_run c) || c.reproduced == 0)
    then none
    else some (world, c.reproduced, c.trials)

module _ {E : Type 0} (orig : Identity) (same_candidate : Candidate → Candidate → Bool)
    (execute_one : E → Candidate → E × Option Attempt) (elapsed : E → ℤ) (canceled : E → Bool) where
  -- The loop of `confirm`, with `left` replays to go.
  unfoldable pub confirm_from : ℕ → Prober E → Candidate → Confirmation → Prober E × Confirmation
  unfolding execute note_attempt classify
  confirm_from zero p c out = (p, out)
  confirm_from (suc left) p c out =
      let (p', attempts, reason) =
        execute orig same_candidate execute_one elapsed canceled p (c ∷ []) in
      elim attempts [
        | [] ↦ (p', record out { stop = if truncated reason then reason else stop_world_budget })
        | a ∷ as_ ↦
            let out' = replayed out (classify p'.pol.strictness orig a).0 a.world_path in
            let q = note_attempt orig same_candidate execute_one elapsed canceled p' c a in
            let rest = confirm_from left q c out' in
            if truncated reason
            then (q, record out' { stop = reason })
            else if canceled q.env
            then (q, record out' { stop = stop_canceled })
            else rest
      ]

  unfoldable pub confirm : Prober E → Candidate → ℤ → Prober E × Confirmation
  unfolding confirm_from
  confirm p c (pos k) = confirm_from k p c (new_confirmation (pos k))
  confirm p c (negsuc k) = (p, new_confirmation (negsuc k))
