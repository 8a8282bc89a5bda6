-- ===== src/Samples/Probing.antt =====
-- Judging and confirming candidates.
use pro_thesis.Prelude.{
  ℕ, ◌+◌, ◌<◌, ◌≡◌, ◌↔◌, ◌⊎◌, ◌&&◌, refl, ap, ◌∙◌, subst, inl, [], ◌∷◌, Bool, true, false, Option,
  none, some, String, arith, str_eq, str_eq_iff, ◌≤◌,
}
use pro_thesis.Prelude.{All, get_or, length, if◌then◌else◌, ◌==◌}
use pro_thesis.Prelude.Int.{pos, ◌≤ℤ◌}
use pro_thesis.Shrink.Budget.{new_ledger}
use pro_thesis.Shrink.Identity.{Identity, match_witness_key}
use pro_thesis.Shrink.Attempt.{Candidate, Attempt}
use pro_thesis.Shrink.Prober.{Prober, same_key, is_reproduced}
use pro_thesis.Shrink.Prober.Sane.{IsSane}
use pro_thesis.Shrink.Judge.{first_reproducing, no_decision, no_candidate}
use pro_thesis.Shrink.Judge.Logged.{Log, logged, runs_showing, first_reproducing-RestsOnLog}
use pro_thesis.Shrink.Attempt.Shown.{shows, number}
use pro_thesis.Shrink.Confirm.{confirm, has_passed, minimal_repro}
use pro_thesis.Shrink.Confirm.Replays.{executions}
use pro_thesis.Shrink.Confirm.Counts.{IsCounted, IsTallied, AllShow, confirm-IsCounted}
use pro_thesis.Shrink.Confirm.Report.{minimal_repro-confirm}

abbrev kv_target : Identity
kv_target = record {
  oracle = "linearizable.kv";
  cls = "consistency";
  severity = "high";
  key = "k/0";
  op_ids = [];
}

abbrev drifted : Identity
drifted = record kv_target { key = "k/1" }

-- Every world fires the kv_target's oracle, on another key.
abbrev drifting : Attempt
drifting = record {
  reached = true;
  observed = drifted ∷ [];
  world_path = "w.thesis";
  failed = false;
}

abbrev whole_world : Candidate
whole_world = record { faults = "a" ∷ "b" ∷ []; ops = none }

abbrev half : Candidate
half = record { faults = "a" ∷ []; ops = none }

abbrev first_fault : Candidate → String
first_fault c = get_or c.faults 1 ""

-- Enough to tell the candidates here apart.
abbrev same_here : Candidate → Candidate → Bool
same_here a b = str_eq (first_fault a) (first_fault b)

abbrev run_one : ℕ → Candidate → ℕ × Option Attempt
run_one n c = (n + 1, some drifting)

abbrev prober_at : {E : Type 0} → E → Prober E
prober_at env = record {
  env = env;
  pol = record {
    strictness = match_witness_key;
    accept_trials = pos 1;
    reject_trials = pos 2;
    unknown_retries = pos 1;
    confirm_k = pos 3;
    parallelism = pos 1;
    narrow_granularity_ms = pos 100;
    narrow_max_probes = pos 8;
    skip_narrowing = false;
    skip_baseline = false;
    skip_ops = false;
    disable_cache = false;
    calibration_probes = pos 4;
  };
  led = new_ledger (record {
    wall = pos 1000;
    worlds = pos 10;
    confirm_reserve = pos 3;
    confirm_wall_grace = pos 0;
  });
  cache = [];
  divergent = [];
  attempts = 0;
  unreduced = some whole_world;
  reprobes = 0;
  may_calibrate = true;
  calibrated = false;
}

abbrev fresh_prober : Prober ℕ
fresh_prober = prober_at 0

abbrev logging_prober : Prober (ℕ × Log)
logging_prober = prober_at (0, [])

same_here_refl : (c : Candidate) → same_here c c ≡ true
same_here_refl c = (str_eq_iff (first_fault c) (first_fault c)).1 refl

same_here_trans :
    (c d e : Candidate) → same_here c d ≡ true → same_here d e ≡ true → same_here c e ≡ true
same_here_trans c d e p q = (str_eq_iff (first_fault c) (first_fault e)).1 (
    (str_eq_iff (first_fault c) (first_fault d)).0 p
    ∙ (str_eq_iff (first_fault d) (first_fault e)).0 q)

-- Seen: the oracle of the kv_target fired.
abbrev Fired : Identity → Type 0
Fired id = id.oracle ≡ "linearizable.kv"

and_first : (a b : Bool) → (a && b) ≡ true → a ≡ true
and_first a b e = ground arith

Fired-same_key : (d id : Identity) → same_key d id ≡ true → Fired id → Fired d
Fired-same_key d id e f = (str_eq_iff d.oracle id.oracle).0 (and_first _ _ e) ∙ f

some_attempt : (a b : Attempt) → some a ≡ some b → a ≡ b
some_attempt a b e = ap (λ z. elim z [ none ↦ a | some y ↦ y ]) e

run_one-Fired :
    (e : ℕ) (c : Candidate) (a : Attempt) (u : Candidate)
    → (run_one e c).1 ≡ some a
    → some whole_world ≡ some u
    → same_here u c ≡ true
    → All Fired a.observed
run_one-Fired e c a u q _ _ =
    subst (λ z. All Fired z.observed) (some_attempt drifting a q) (refl, tt)

logging_prober-IsSane :
    IsSane kv_target Fired (pos 1) (some whole_world) 10 3 match_witness_key logging_prober
logging_prober-IsSane = record {
  accepts = refl;
  proven = tt;
  evidence = tt;
  target = refl;
  metered = record { ceiling = refl; held = refl; within = omega arith };
  charged = refl;
  at_level = inl refl;
}

first_reproducing-RestsOnLog_example :
    let x =
      first_reproducing kv_target same_here
        (logged run_one)
        (λ _. pos 1)
        (λ _. false)
        logging_prober
        (half ∷ []) in
    IsSane kv_target Fired (pos 1) (some whole_world) 10 3 match_witness_key x.prober
    × All
        (λ y.
          (y.1).reproduced
          ≤ runs_showing kv_target same_here (x.prober).pol.strictness y.0 ((x.prober).env).1)
        (x.prober).cache
    × ((i : ℕ)
        → x.accepted ≡ some i
        → (i < 1)
          × (is_reproduced (get_or x.decisions i no_decision).signal ≡ true)
          × (pos 1 ≤ℤ pos (get_or x.decisions i no_decision).reproduced)
          × ((get_or x.decisions i no_decision).reproduced
              ≤ runs_showing kv_target same_here
                  (x.prober).pol.strictness
                  (get_or (half ∷ []) i no_candidate)
                  ((x.prober).env).1))
first_reproducing-RestsOnLog_example =
    first_reproducing-RestsOnLog kv_target same_here same_here_refl same_here_trans run_one Fired
      (pos 1) (some whole_world) 10 3 match_witness_key (λ _. pos 1) (λ _. false) Fired-same_key
      run_one-Fired logging_prober (half ∷ []) logging_prober-IsSane tt

-- A world that reproduces on every other execution.
abbrev run_mixed : ℕ → Candidate → ℕ × Option Attempt
run_mixed n c =
    (n + 1, some (record drifting { observed = (if n == 1 then drifted else kv_target) ∷ [] }))

confirm-IsCounted_example :
    let out =
      (confirm kv_target same_here run_mixed
        (λ _. pos 1)
        (λ _. false)
        fresh_prober
        half
        (pos 3)).1 in
    IsCounted 3 out
    × IsTallied kv_target same_here run_mixed (λ _. pos 1) (λ _. false) match_witness_key half 0 out
    × ((has_passed out ≡ true) ↔ (
        (1 ≤ 3)
        × (out.trials ≡ 3)
        × AllShow kv_target same_here run_mixed
            (λ _. pos 1)
            (λ _. false)
            match_witness_key
            3
            0
            half))
confirm-IsCounted_example =
    confirm-IsCounted kv_target same_here run_mixed (λ _. pos 1) (λ _. false) fresh_prober half 3

minimal_repro-confirm_example :
    let out =
      (confirm kv_target same_here run_mixed
        (λ _. pos 1)
        (λ _. false)
        fresh_prober
        half
        (pos 3)).1 in
    let runs =
      executions kv_target same_here run_mixed (λ _. pos 1) (λ _. false) out.trials 0 half in
    ((minimal_repro "w.thesis" out ≡ none) ↔ (
      (◌≡◌ {A = String} "w.thesis" "")
      ⊎ All (λ a. shows match_witness_key kv_target a ≡ false) runs))
    × ((x : String × ℕ × ℕ)
        → minimal_repro "w.thesis" out ≡ some x
        → (x ≡ ("w.thesis", number (shows match_witness_key kv_target) runs, length runs))
          × (1 ≤ x.1)
          × (x.2 ≤ 3))
minimal_repro-confirm_example =
    minimal_repro-confirm kv_target same_here run_mixed (λ _. pos 1) (λ _. false) fresh_prober half
      3 "w.thesis"

-- Two of the three replays reproduce.
mixed_repro :
    minimal_repro "w.thesis"
      (confirm kv_target same_here run_mixed (λ _. pos 1) (λ _. false) fresh_prober half (pos 3)).1
    ≡ some ("w.thesis", 2, 3)
unfolding confirm minimal_repro
mixed_repro = refl

-- The half schedule drifts, the whole one is run again and drifts as well: the level falls to the floor, and
-- the half is accepted.
calibrated_half :
    (first_reproducing kv_target same_here run_one
      (λ _. pos 1)
      (λ _. false)
      fresh_prober
      (half ∷ [])).accepted
    ≡ some 0
unfolding first_reproducing
calibrated_half = refl
