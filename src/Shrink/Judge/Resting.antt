-- ===== src/Shrink/Judge/Resting.antt =====
-- What the decisions of `firstReproducing` (internal/shrink/probe.go) rest on: its rounds, and the whole.
use pro_thesis.Prelude.{
  ℕ, zero, suc, ◌≤◌, ◌≡◌, refl, sym, ap, ◌∙◌, subst, List, [], ◌∷◌, map, Bool, Option, none, some,
  arith,
}
use pro_thesis.Prelude.{if_intro, ◌==◌, length, get_or, replicate, All}
use pro_thesis.Prelude.Int.{ℤ}
use pro_thesis.Shrink.Budget.{StopReason, stop_complete, truncated}
use pro_thesis.Shrink.Identity.{Identity, Strictness, rank}
use pro_thesis.Shrink.Attempt.{Candidate, Attempt}
use pro_thesis.Shrink.Prober.{Prober, Decision, execute, answer_drift_question, maybe_calibrate}
use pro_thesis.Shrink.Prober.Shown.{
  IsMeasure, worth, EntriesRest, Follows, Follows-refl, IsSame-IsMoved, AreShown-wider,
  execute-IsRun, answer_drift_question-IsMoved, maybe_calibrate-IsRelaxed,
}
use pro_thesis.Shrink.Judge.{
  Tally, new_tally, no_decision, max_rounds, Judged, Settled, no_candidate, look_up, note_all,
  observe_all, settle, leave_pending, run_round, rounds_from, first_reproducing,
}
use pro_thesis.Shrink.Judge.Passes.{Rising}
use pro_thesis.Shrink.Judge.Shown.{
  Then-decisions, Then-tallies, trans, leave_pending-rest, settle-IsSettling, note_all-Same, moved,
  observe_all-rest,
}
use pro_thesis.Shrink.Judge.Remembered.{IsLookedUp, look_up-IsLookedUp}

module _ {E : Type 0} (orig : Identity) (same_candidate : Candidate → Candidate → Bool)
    (execute_one : E → Candidate → E × Option Attempt) (elapsed : E → ℤ) (canceled : E → Bool)
    (shown : Strictness → Candidate → E → ℕ)
    (m : IsMeasure orig same_candidate execute_one shown) where
  abbrev value : Prober E → Candidate → ℕ
  value p c = worth orig same_candidate execute_one elapsed canceled shown m p c

  abbrev Then : Prober E → Prober E → Type 0
  Then p q = Follows orig same_candidate execute_one elapsed canceled shown m p q

  -- The reproductions of the decisions, and of the tallies, are executions that showed the violation.
  abbrev DecisionsRest : Prober E → List Candidate → List Decision → Type 0
  DecisionsRest p cs ds =
      (i : ℕ) → (get_or ds i no_decision).reproduced ≤ value p (get_or cs i no_candidate)

  abbrev TalliesRest : Prober E → List Candidate → List Tally → Type 0
  TalliesRest p cs ts =
      (i : ℕ) → (get_or ts i new_tally).reproduced ≤ value p (get_or cs i no_candidate)

  all_of : (P : ℕ → Type 0) (is : List ℕ) → ((i : ℕ) → P i) → All P is
  all_of P [] h = tt
  all_of P (i ∷ is) h = (h i, all_of P is h)

  record IsRound (p : Prober E) (cs : List Candidate) (pending : List ℕ)
      (x : Settled E × List Tally × StopReason) : Type 0 where
    then_on : Then p (x.0).prober
    decisions : DecisionsRest (x.0).prober cs (x.0).decisions
    tallies : TalliesRest (x.0).prober cs x.1
    rising : Rising pending → Rising (x.0).next

  run_round-IsRound :
      (p : Prober E) (cs : List Candidate) (ts : List Tally) (pending : List ℕ) (ds : List Decision)
      → TalliesRest p cs ts
      → DecisionsRest p cs ds
      → Rising pending
      → IsRound p cs pending
          (run_round orig same_candidate execute_one elapsed canceled p cs ts pending ds)
  unfolding run_round
  run_round-IsRound p cs ts pending ds t h rise =
      let batch = map (λ i. get_or cs i no_candidate) pending in
      let (p1, attempts, reason) =
        execute orig same_candidate execute_one elapsed canceled p batch in
      let ran = execute-IsRun orig same_candidate execute_one elapsed canceled shown m p batch in
      let p2 = note_all orig same_candidate execute_one elapsed canceled p1 batch attempts in
      let same2 =
        note_all-Same orig same_candidate execute_one elapsed canceled shown m p1 batch attempts in
      let move2 =
        IsSame-IsMoved orig same_candidate execute_one elapsed canceled shown m p1 p2 same2 in
      let (p3, asked) = answer_drift_question orig same_candidate execute_one elapsed canceled p2 in
      let move3 =
        answer_drift_question-IsMoved orig same_candidate execute_one elapsed canceled shown m p2 in
      let p4 = maybe_calibrate orig p3 in
      let lax4 =
        maybe_calibrate-IsRelaxed orig same_candidate execute_one elapsed canceled shown m p3 in
      let f4 =
        trans orig same_candidate execute_one elapsed canceled shown m p p1 p4
          (moved orig same_candidate execute_one elapsed canceled shown m p p1 ran.moved)
          (trans orig same_candidate execute_one elapsed canceled shown m p1 p2 p4
            (moved orig same_candidate execute_one elapsed canceled shown m p1 p2 move2)
            (trans orig same_candidate execute_one elapsed canceled shown m p2 p3 p4
              (moved orig same_candidate execute_one elapsed canceled shown m p2 p3 move3)
              lax4.follows)) in
      let wide =
        AreShown-wider orig same_candidate execute_one elapsed canceled shown m p.env p.env p1.env
          p4.env batch attempts (λ s c. omega arith)
          (λ s c.
            subst (λ e. shown s c p1.env ≤ shown s c e) (sym lax4.env)
              (omega (arith, move2.grew s c, move3.grew s c)))
          ran.shown_by in
      let level = move3.level ∙ (move2.level ∙ ran.moved.level) in
      let early : (i : ℕ)
          → (get_or ts i new_tally).reproduced
            ≤ shown p4.pol.strictness (get_or cs i no_candidate) p.env =
        λ i. omega (
          arith,
          t i,
          m.laxer p4.pol.strictness p.pol.strictness (get_or cs i no_candidate) p.env
              (subst (λ s. rank p4.pol.strictness ≤ rank s) level lax4.lower),
        ) in
      let (p5, ts') =
        observe_all orig same_candidate execute_one elapsed canceled p4 batch pending attempts ts in
      let (same5, t5) =
        observe_all-rest orig same_candidate execute_one elapsed canceled shown m p4.pol.strictness
          p.env p4.env p4 cs pending attempts ts refl rise
          (Then-tallies orig same_candidate execute_one elapsed canceled shown m p p4 cs ts f4 t)
          (all_of
            (λ i.
              (get_or ts i new_tally).reproduced
              ≤ shown p4.pol.strictness (get_or cs i no_candidate) p.env)
            pending early)
          wide in
      let f5 =
        moved orig same_candidate execute_one elapsed canceled shown m p4 p5
          (IsSame-IsMoved orig same_candidate execute_one elapsed canceled shown m p4 p5 same5) in
      let t' =
        Then-tallies orig same_candidate execute_one elapsed canceled shown m p4 p5 cs ts' f5 t5 in
      let all5 = trans orig same_candidate execute_one elapsed canceled shown m p p4 p5 f4 f5 in
      let x =
        settle-IsSettling orig same_candidate execute_one elapsed canceled shown m p5 cs ts' pending
          ds t'
          (Then-decisions orig same_candidate execute_one elapsed canceled shown m p p5 cs ds all5
            h) in
      let s = settle orig same_candidate execute_one elapsed canceled p5 cs ts' pending ds in
      record {
        then_on =
            trans orig same_candidate execute_one elapsed canceled shown m p p5 s.prober all5
              x.then_on;
        decisions = x.decisions;
        tallies =
            Then-tallies orig same_candidate execute_one elapsed canceled shown m p5 s.prober cs ts'
              x.then_on t';
        rising = x.rising;
      }

  -- What the decisions of a judgement rest on.
  pub record IsResting (p : Prober E) (cs : List Candidate) (j : Judged E) : Type 0 where
    pub then_on : Follows orig same_candidate execute_one elapsed canceled shown m p j.prober
    pub decisions : DecisionsRest j.prober cs j.decisions

  answered :
      (p : Prober E) (cs : List Candidate) (s : Settled E) (rest : Judged E) (x : Option ℕ)
      → Then p s.prober
      → DecisionsRest s.prober cs s.decisions
      → IsResting p cs rest
      → IsResting p cs (elim x as (λ _. Judged E) [
        | some i ↦ record {
          prober = s.prober;
          accepted = some i;
          decisions = s.decisions;
          stop = stop_complete;
        }
        | none ↦ rest
      ])
  answered p cs s rest none f h r = r
  answered p cs s rest (some i) f h r = record { then_on = f; decisions = h }

  IsResting-later :
      (p q : Prober E) (cs : List Candidate) (j : Judged E)
      → Then p q
      → IsResting q cs j
      → IsResting p cs j
  IsResting-later p q cs j f h = record {
    then_on =
        trans orig same_candidate execute_one elapsed canceled shown m p q j.prober f h.then_on;
    decisions = h.decisions;
  }

  rounds_from-IsResting :
      (left : ℕ) (p : Prober E) (cs : List Candidate) (ts : List Tally) (pending : List ℕ)
      (ds : List Decision)
      → TalliesRest p cs ts
      → DecisionsRest p cs ds
      → Rising pending
      → IsResting p cs
          (rounds_from orig same_candidate execute_one elapsed canceled left p cs ts pending ds)
  unfolding rounds_from
  rounds_from-IsResting zero p cs ts pending ds t h rise =
      let x =
        leave_pending-rest orig same_candidate execute_one elapsed canceled shown m p cs ts pending
          ds stop_complete t h in
      record { then_on = x.0; decisions = x.1 }
  rounds_from-IsResting (suc left) p cs ts pending ds t h rise =
      let (s, ts', stop) =
        run_round orig same_candidate execute_one elapsed canceled p cs ts pending ds in
      let R = run_round-IsRound p cs ts pending ds t h rise in
      let x =
        leave_pending-rest orig same_candidate execute_one elapsed canceled shown m s.prober cs ts'
          s.next s.decisions stop R.tallies R.decisions in
      let (p', ds') =
        leave_pending orig same_candidate execute_one elapsed canceled s.prober cs ts' s.next
          s.decisions stop in
      let rest =
        rounds_from-IsResting left s.prober cs ts' s.next s.decisions R.tallies R.decisions
          (R.rising rise) in
      if_intro (IsResting p cs) (length pending == 0)
        (record { prober = p; accepted = none; decisions = ds; stop = stop_complete }) _
        (λ _. record {
          then_on = Follows-refl orig same_candidate execute_one elapsed canceled shown m p;
          decisions = h;
        })
        (λ _. answered p cs s _ s.accepted R.then_on R.decisions (
          if_intro (IsResting p cs) (truncated stop)
            (record { prober = p'; accepted = none; decisions = ds'; stop = stop })
            (rounds_from orig same_candidate execute_one elapsed canceled left s.prober cs ts'
              s.next s.decisions)
            (λ _. record {
              then_on =
                  trans orig same_candidate execute_one elapsed canceled shown m p s.prober p'
                    R.then_on x.0;
              decisions = x.1;
            })
            (λ _. IsResting-later p s.prober cs _ R.then_on rest)))

  first_hit :
      (p : Prober E) (cs : List Candidate) (x : Option ℕ × List Decision × List ℕ) (rest : Judged E)
      → IsLookedUp orig same_candidate execute_one elapsed canceled shown m p cs x
      → IsResting p cs rest
      → IsResting p cs (elim x.0 as (λ _. Judged E) [
        | some i ↦ record { prober = p; accepted = some i; decisions = x.1; stop = stop_complete }
        | none ↦ rest
      ])
  first_hit p cs (none, ds, pending) rest l j = j
  first_hit p cs (some i, ds, pending) rest l j = record {
    then_on = Follows-refl orig same_candidate execute_one elapsed canceled shown m p;
    decisions = l.decisions;
  }

  fresh_decision : (n i : ℕ) → (get_or (replicate n no_decision) i no_decision).reproduced ≡ 0
  fresh_decision zero i = refl
  fresh_decision (suc n) zero = refl
  fresh_decision (suc n) (suc i) = fresh_decision n i

  fresh_tally : (n i : ℕ) → (get_or (replicate n new_tally) i new_tally).reproduced ≡ 0
  fresh_tally zero i = refl
  fresh_tally (suc n) zero = refl
  fresh_tally (suc n) (suc i) = fresh_tally n i

  pub first_reproducing-IsResting :
      (p : Prober E) (cs : List Candidate)
      → EntriesRest orig same_candidate execute_one elapsed canceled shown m p
      → IsResting p cs (first_reproducing orig same_candidate execute_one elapsed canceled p cs)
  unfolding first_reproducing
  first_reproducing-IsResting p cs h =
      let n = length cs in
      let start = replicate n no_decision in
      let ts = replicate n new_tally in
      let l =
        look_up-IsLookedUp orig same_candidate execute_one elapsed canceled shown m p cs cs 0 start
          [] h (λ k. ap (λ j. get_or cs j no_candidate) (omega arith))
          (λ i. omega (arith, fresh_decision n i)) tt tt in
      let x = look_up orig same_candidate execute_one elapsed canceled p cs 0 start [] in
      first_hit p cs x _ l (
        rounds_from-IsResting (max_rounds p.pol) p cs ts x.2 x.1
          (λ i. omega (arith, fresh_tally n i)) l.decisions l.rising)
