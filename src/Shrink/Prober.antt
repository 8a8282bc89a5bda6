-- ===== src/Shrink/Prober.antt =====
-- The prober (internal/shrink/probe.go): it executes candidates against the ledger, records what diverged and
-- where, and may lower the level of the identity test once. The executor, with the clock and the
-- cancellation, is a parameter; it is not a batch executor. Log lines and reasons are left out.
pub mod Evidence
pub mod Sane
pub mod Shown
use pro_thesis.Prelude.{
  ℕ, zero, suc, ◌+◌, List, [], ◌∷◌, Bool, true, false, not, ◌&&◌, ◌||◌, Option, none, some, String,
  str_eq,
}
use pro_thesis.Prelude.{if◌then◌else◌, ◌==◌, ltb, leb, length, take, bool_eq}
use pro_thesis.Prelude.Int.{ℤ, pos, ltb_ℤ}
use pro_thesis.Shrink.Budget.{
  Ledger, StopReason, stop_complete, stop_canceled, stop_executor_error, acquire,
}
use pro_thesis.Shrink.Identity.{
  Identity, Strictness, Mismatch, match_at, match_oracle_class, match_witness_key, rank,
}
use pro_thesis.Shrink.Policy.{Policy}
use pro_thesis.Shrink.Attempt.{
  Candidate, Attempt, Signal, signal_unknown, signal_reproduced, signal_different, classify,
}

pub record Decision : Type 0 where
  pub signal : Signal
  pub trials : ℕ
  pub reproduced : ℕ
  pub world_path : String
  pub truncated : Bool

pub record Divergence : Type 0 where
  pub id : Identity
  pub unreduced : Bool

-- `reprobes` counts against the calibration probes; `calibrated`: there is a calibration note.
pub record Prober (E : Type 0) : Type 0 where
  pub env : E
  pub pol : Policy
  pub led : Ledger
  pub cache : List (Candidate × Decision)
  pub divergent : List Divergence
  pub attempts : ℕ
  pub unreduced : Option Candidate
  pub reprobes : ℕ
  pub may_calibrate : Bool
  pub calibrated : Bool

-- Equality of `Identity.key`, for texts without a NUL.
abbrev pub same_key : Identity → Identity → Bool
same_key a b = str_eq a.oracle b.oracle && (str_eq a.cls b.cls && str_eq a.key b.key)

abbrev pub is_reproduced : Signal → Bool
is_reproduced signal_reproduced = true
is_reproduced _ = false

abbrev pub is_different : Signal → Bool
is_different signal_different = true
is_different _ = false

abbrev pub is_match : Option Mismatch → Bool
is_match none = true
is_match (some why) = false

-- One identity of the loop of `noteDivergence`.
unfoldable pub note_one : List Divergence → Identity → Bool → List Divergence
note_one [] id from_unreduced = record { id = id; unreduced = from_unreduced } ∷ []
note_one (d ∷ ds) id from_unreduced =
    let rest = note_one ds id from_unreduced in
    if same_key d.id id
    then record { id = d.id; unreduced = d.unreduced || from_unreduced } ∷ ds
    else d ∷ rest

unfoldable pub note_divergence : List Divergence → List Identity → Bool → List Divergence
unfolding note_one
note_divergence ds [] from_unreduced = ds
note_divergence ds (id ∷ ids) from_unreduced =
    note_divergence (note_one ds id from_unreduced) ids from_unreduced

-- The divergences that stay when the level falls to `s`.
unfoldable pub still_divergent : Strictness → Identity → List Divergence → List Divergence
unfolding match_at
still_divergent s orig [] = []
still_divergent s orig (d ∷ ds) =
    let rest = still_divergent s orig ds in
    if is_match (match_at s orig d.id) then rest else d ∷ rest

-- `driftFrom`; the source ranges over a map, and so may find another one.
unfoldable pub drift_from : Identity → List Divergence → Bool → Option Identity
unfolding match_at
drift_from orig [] unreduced = none
drift_from orig (d ∷ ds) unreduced =
    let rest = drift_from orig ds unreduced in
    if (bool_eq d.unreduced unreduced
        && (not (str_eq orig.key "")
            && (not (str_eq d.id.key "") && not (str_eq d.id.key orig.key))))
      && is_match (match_at match_oracle_class orig d.id)
    then some d.id
    else rest

module _ {E : Type 0} (orig : Identity) where
  unfoldable pub relax_to : Prober E → Strictness → Prober E
  unfolding still_divergent
  relax_to p s = if leb (rank p.pol.strictness) (rank s) then p else record p {
    pol = record (p.pol) { strictness = s };
    cache = [];
    divergent = still_divergent s orig p.divergent;
  }

  -- Whether the level may still be calibrated.
  abbrev pub calibration_open : Prober E → Bool
  calibration_open p =
      p.may_calibrate
      && (not p.calibrated
          && (not (str_eq orig.key "")
              && (leb (rank p.pol.strictness) (rank match_witness_key)
                  && leb (rank match_witness_key) (rank p.pol.strictness))))

  unfoldable pub maybe_calibrate : Prober E → Prober E
  unfolding drift_from relax_to
  maybe_calibrate p = elim (drift_from orig p.divergent true) [
    | none ↦ p
    | some drift ↦
        if calibration_open p
        then record (relax_to p match_oracle_class) { calibrated = true }
        else p
  ]

  module _ (same_candidate : Candidate → Candidate → Bool)
      (execute_one : E → Candidate → E × Option Attempt) (elapsed : E → ℤ)
      (canceled : E → Bool) where
    abbrev pub is_unreduced : Prober E → Candidate → Bool
    is_unreduced p c = elim p.unreduced [ none ↦ false | some u ↦ same_candidate u c ]

    -- The loop of `execute`, one candidate at a time; `reason` is what the ledger said.
    unfoldable pub run_all :
        Prober E → List Candidate → StopReason → Prober E × List Attempt × StopReason
    run_all p [] reason = (p, [], reason)
    run_all p (c ∷ cs) reason =
        let (env, r) = execute_one p.env c in
        let p' = record p { env = env } in
        let rest = run_all p' cs reason in
        elim r [
          | none ↦ (p', [], if canceled env then stop_canceled else stop_executor_error)
          | some a ↦
              if canceled env then (p', a ∷ [], stop_canceled) else (rest.0, a ∷ rest.1, rest.2)
        ]

    unfoldable pub execute : Prober E → List Candidate → Prober E × List Attempt × StopReason
    unfolding run_all acquire
    execute p cs =
        let (led, granted, reason) = acquire p.led (length cs) (elapsed p.env) in
        let charged = record p { led = led; attempts = p.attempts + length (take granted cs) } in
        if length cs == 0
        then (p, [], stop_complete)
        else if canceled p.env
        then (p, [], stop_canceled)
        else if granted == 0
        then (record p { led = led }, [], reason)
        else run_all charged (take granted cs) reason

    -- What one execution of `c` diverged by, where it did.
    unfoldable pub note_attempt : Prober E → Candidate → Attempt → Prober E
    unfolding note_divergence classify
    note_attempt p c a =
        let (sig, ids) = classify p.pol.strictness orig a in
        if is_different sig
        then record p { divergent = note_divergence p.divergent ids (is_unreduced p c) }
        else p

    -- `probeOnce`.
    unfoldable pub probe_once : Prober E → Candidate → Prober E × List Identity × StopReason
    unfolding execute note_attempt
    probe_once p c =
        let (p', attempts, stop) = execute p (c ∷ []) in
        elim attempts [
          | [] ↦ (p', [], stop)
          | a ∷ as_ ↦ (note_attempt p' c a, (classify p'.pol.strictness orig a).1, stop)
        ]

    -- `answerDriftQuestion`.
    unfoldable pub answer_drift_question : Prober E → Prober E × StopReason
    unfolding drift_from probe_once
    answer_drift_question p = elim p.unreduced [
      | none ↦ (p, stop_complete)
      | some u ↦ elim (drift_from orig p.divergent false) [
        | none ↦ (p, stop_complete)
        | some asked ↦ elim (drift_from orig p.divergent true) [
          | some answered ↦ (p, stop_complete)
          | none ↦
              let (p', ids, stop) = probe_once (record p { reprobes = p.reprobes + 1 }) u in
              if calibration_open p && ltb_ℤ (pos p.reprobes) p.pol.calibration_probes
              then (p', stop)
              else (p, stop_complete)
        ]
      ]
    ]
