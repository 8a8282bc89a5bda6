-- ===== src/Shrink/Judge.antt =====
-- Judging candidates in rounds (internal/shrink/probe.go, `tally` and `firstReproducing`).
pub mod Accepted
pub mod Logged
pub mod Passes
pub mod Rounds
pub mod Shown
pub mod Remembered
pub mod Resting
use pro_thesis.Prelude.{
  ℕ, zero, suc, ◌+◌, List, [], ◌∷◌, Bool, true, false, not, ◌&&◌, ◌||◌, Option, none, some, String,
  str_eq, map, ◌++◌,
}
use pro_thesis.Prelude.{if◌then◌else◌, ◌==◌, ltb, leb, length, get_or, set, replicate}
use pro_thesis.Prelude.Int.{ℤ, pos, pos_part, leb_ℤ, ltb_ℤ}
use pro_thesis.Shrink.Budget.{StopReason, stop_complete, truncated}
use pro_thesis.Shrink.Identity.{Identity}
use pro_thesis.Shrink.Policy.{Policy}
use pro_thesis.Shrink.Attempt.{
  Candidate, Attempt, Signal, signal_unknown, signal_reproduced, signal_different, signal_clean,
  classify,
}
use pro_thesis.Shrink.Prober.{
  Prober, Decision, is_reproduced, is_different, note_attempt, execute, answer_drift_question,
  maybe_calibrate,
}

pub record Tally : Type 0 where
  pub reproduced : ℕ
  pub misses : ℕ
  pub unknowns : ℕ
  pub trials : ℕ
  pub sig : Signal
  pub world : String
  pub done : Bool

abbrev pub new_tally : Tally
new_tally = record {
  reproduced = 0;
  misses = 0;
  unknowns = 0;
  trials = 0;
  sig = signal_unknown;
  world = "";
  done = false;
}

-- The default case of `observe`.
abbrev pub miss : Tally → Signal → Policy → Tally
miss t sig pol = record t {
  misses = t.misses + 1;
  sig = if is_different sig || not (is_different t.sig) then sig else t.sig;
  done = t.done || leb_ℤ pol.reject_trials (pos (t.misses + 1));
}

abbrev pub observe_signal : Tally → Signal → Policy → Tally
observe_signal t signal_reproduced pol =
    let more = record t { reproduced = t.reproduced + 1 } in
    if leb_ℤ pol.accept_trials (pos (t.reproduced + 1))
    then record more { sig = signal_reproduced; done = true }
    else more
observe_signal t signal_unknown pol =
    let more = record t { unknowns = t.unknowns + 1 } in
    if ltb_ℤ pol.unknown_retries (pos (t.unknowns + 1))
    then record more { sig = signal_unknown; done = true }
    else more
observe_signal t signal_different pol = miss t signal_different pol
observe_signal t signal_clean pol = miss t signal_clean pol

unfoldable pub observe : Tally → Signal → String → Policy → Tally
observe t sig world pol =
    observe_signal
      (record t { trials = t.trials + 1; world = if str_eq world "" then t.world else world }) sig
      pol

-- `tally.decision`.
abbrev pub decision_of : Tally → Bool → Decision
decision_of t truncated = record {
  signal = t.sig;
  trials = t.trials;
  reproduced = t.reproduced;
  world_path = t.world;
  truncated = truncated;
}

-- What `firstReproducing` returns.
pub record Judged (E : Type 0) : Type 0 where
  pub prober : Prober E
  pub accepted : Option ℕ
  pub decisions : List Decision
  pub stop : StopReason

-- The end of a round: what was settled.
pub record Settled (E : Type 0) : Type 0 where
  pub prober : Prober E
  pub decisions : List Decision
  pub accepted : Option ℕ
  pub next : List ℕ

abbrev pub no_decision : Decision
no_decision = decision_of new_tally false

abbrev pub no_candidate : Candidate
no_candidate = record { faults = []; ops = none }

abbrev pub max_rounds : Policy → ℕ
max_rounds pol =
    pos_part pol.accept_trials + pos_part pol.reject_trials + pos_part pol.unknown_retries

module _ {E : Type 0} (orig : Identity) (same_candidate : Candidate → Candidate → Bool)
    (execute_one : E → Candidate → E × Option Attempt) (elapsed : E → ℤ) (canceled : E → Bool) where
  unfoldable pub find_cached : List (Candidate × Decision) → Candidate → Option Decision
  find_cached [] c = none
  find_cached ((k, d) ∷ rest) c =
      let later = find_cached rest c in if same_candidate k c then some d else later

  unfoldable pub cached : Prober E → Candidate → Option Decision
  unfolding find_cached
  cached p c = if p.pol.disable_cache then none else find_cached p.cache c

  -- A later entry comes in front of an earlier one.
  unfoldable pub memo : Prober E → Candidate → Decision → Prober E
  memo p c d =
      if p.pol.disable_cache || d.truncated then p else record p { cache = (c, d) ∷ p.cache }

  -- The first loop of `firstReproducing`, from candidate `i` on: an accepted one that is cached, or the
  -- decisions and what is pending.
  unfoldable pub look_up :
      Prober E → List Candidate → ℕ → List Decision → List ℕ → Option ℕ × List Decision × List ℕ
  unfolding cached
  look_up p [] i ds pending = (none, ds, pending)
  look_up p (c ∷ cs) i ds pending = elim (cached p c) [
    | none ↦ look_up p cs (i + 1) ds (pending ++ (i ∷ []))
    | some d ↦
        let rest = look_up p cs (i + 1) (set ds i d) pending in
        if is_reproduced d.signal then (some i, set ds i d, pending) else rest
  ]

  -- The first pass over a round's attempts.
  unfoldable pub note_all : Prober E → List Candidate → List Attempt → Prober E
  unfolding note_attempt
  note_all p [] as_ = p
  note_all p (c ∷ cs) [] = p
  note_all p (c ∷ cs) (a ∷ as_) =
      note_all (note_attempt orig same_candidate execute_one elapsed canceled p c a) cs as_

  -- The second pass.
  unfoldable pub observe_all :
      Prober E → List Candidate → List ℕ → List Attempt → List Tally → Prober E × List Tally
  unfolding observe note_attempt classify
  observe_all p [] is as_ ts = (p, ts)
  observe_all p (c ∷ cs) [] as_ ts = (p, ts)
  observe_all p (c ∷ cs) (i ∷ is) [] ts = (p, ts)
  observe_all p (c ∷ cs) (i ∷ is) (a ∷ as_) ts =
      let sig = (classify p.pol.strictness orig a).0 in
      let p' = note_attempt orig same_candidate execute_one elapsed canceled p c a in
      let t = observe (get_or ts i new_tally) sig a.world_path p'.pol in
      observe_all p' cs is as_ (set ts i t)

  -- The third: what is settled, over the pending candidates.
  unfoldable pub settle :
      Prober E → List Candidate → List Tally → List ℕ → List Decision → Settled E
  unfolding memo
  settle p cs ts [] ds = record { prober = p; decisions = ds; accepted = none; next = [] }
  settle p cs ts (i ∷ is) ds =
      let t = get_or ts i new_tally in
      let d = decision_of t (not t.done) in
      let settled = settle (memo p (get_or cs i no_candidate) d) cs ts is (set ds i d) in
      let provisional = settle p cs ts is (set ds i d) in
      if t.done
      then record settled { accepted = if is_reproduced t.sig then some i else settled.accepted }
      else record provisional { next = i ∷ provisional.next }

  -- What follows the rounds: the candidates that are still pending.
  unfoldable pub leave_pending :
      Prober E
      → List Candidate
      → List Tally
      → List ℕ
      → List Decision
      → StopReason
      → Prober E × List Decision
  unfolding memo
  leave_pending p cs ts [] ds stop = (p, ds)
  leave_pending p cs ts (i ∷ is) ds stop =
      let d0 = decision_of (get_or ts i new_tally) (truncated stop) in
      let d = if is_reproduced d0.signal then record d0 { signal = signal_unknown } else d0 in
      leave_pending (memo p (get_or cs i no_candidate) d) cs ts is (set ds i d) stop

  -- One round: what it settles, the tallies, and why it was cut short.
  unfoldable pub run_round :
      Prober E
      → List Candidate
      → List Tally
      → List ℕ
      → List Decision
      → Settled E × List Tally × StopReason
  unfolding execute note_all answer_drift_question maybe_calibrate observe_all settle
  run_round p cs ts pending ds =
      let batch = map (λ i. get_or cs i no_candidate) pending in
      let (p1, attempts, reason) =
        execute orig same_candidate execute_one elapsed canceled p batch in
      let p2 = note_all p1 batch attempts in
      let (p3, asked) = answer_drift_question orig same_candidate execute_one elapsed canceled p2 in
      let p4 = maybe_calibrate orig p3 in
      let (p5, ts') = observe_all p4 batch pending attempts ts in
      (settle p5 cs ts' pending ds, ts', if truncated reason then reason else asked)

  -- The rounds that are left.
  unfoldable pub rounds_from :
      ℕ → Prober E → List Candidate → List Tally → List ℕ → List Decision → Judged E
  unfolding run_round leave_pending
  rounds_from zero p cs ts pending ds =
      let (p', ds') = leave_pending p cs ts pending ds stop_complete in
      record { prober = p'; accepted = none; decisions = ds'; stop = stop_complete }
  rounds_from (suc left) p cs ts pending ds =
      let (s, ts', stop) = run_round p cs ts pending ds in
      let (p', ds') = leave_pending s.prober cs ts' s.next s.decisions stop in
      let rest = rounds_from left s.prober cs ts' s.next s.decisions in
      if length pending == 0
      then record { prober = p; accepted = none; decisions = ds; stop = stop_complete }
      else elim s.accepted [
        | some i ↦ record {
          prober = s.prober;
          accepted = some i;
          decisions = s.decisions;
          stop = stop_complete;
        }
        | none ↦
            if truncated stop
            then record { prober = p'; accepted = none; decisions = ds'; stop = stop }
            else rest
      ]

  unfoldable pub first_reproducing : Prober E → List Candidate → Judged E
  unfolding look_up rounds_from
  first_reproducing p cs =
      let (hit, ds, pending) = look_up p cs 0 (replicate (length cs) no_decision) [] in
      let ts = replicate (length cs) new_tally in
      elim hit [
        | some i ↦ record { prober = p; accepted = some i; decisions = ds; stop = stop_complete }
        | none ↦ rounds_from (max_rounds p.pol) p cs ts pending ds
      ]
