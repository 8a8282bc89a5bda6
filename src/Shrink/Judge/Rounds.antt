-- ===== src/Shrink/Judge/Rounds.antt =====
-- The rounds of `firstReproducing` (internal/shrink/probe.go): what they keep, and what they accept.
use pro_thesis.Prelude.{
  ℕ, zero, suc, ◌+◌, ◌<◌, ◌≡◌, inl, inr, refl, sym, ap, ◌∙◌, subst, List, [], ◌∷◌, ◌++◌, Bool, true,
  Option, none, some, arith, map,
}
use pro_thesis.Prelude.{
  if◌then◌else◌, if_intro, ◌==◌, length, get_or, set, replicate, All, Bool-cases, length-set,
  get_or-set_self, length-replicate,
}
use pro_thesis.Prelude.Int.{ℤ, pos, ◌≤ℤ◌}
use pro_thesis.Prelude.{All-get_or, All-set, All-replicate}
use pro_thesis.Shrink.Budget.{StopReason, stop_complete, truncated}
use pro_thesis.Shrink.Identity.{Identity, Strictness}
use pro_thesis.Shrink.Attempt.{Candidate, Attempt, signal_unknown}
use pro_thesis.Shrink.Prober.{
  Prober, Decision, same_key, is_reproduced, execute, answer_drift_question, maybe_calibrate,
}
use pro_thesis.Shrink.Prober.Evidence.{IsProven}
use pro_thesis.Shrink.Prober.Sane.{
  IsSane, execute-IsRun, answer_drift_question-IsSane, maybe_calibrate-IsSane,
}
use pro_thesis.Shrink.Judge.{
  Tally, new_tally, decision_of, no_decision, max_rounds, Judged, Settled, no_candidate,
  find_cached, cached, memo, look_up, note_all, observe_all, leave_pending, run_round, rounds_from,
  first_reproducing,
}
use pro_thesis.Shrink.Judge.Accepted.{IsBacked}
use pro_thesis.Shrink.Judge.Passes.{
  none-some, some_inj, nat_inj, Rising, All-widen, All-snoc, Rising-snoc, Accepts, memo-Sane,
  note_all-Sane, observe_all-Sane, settle-IsSettled, IsSettled,
}

module _ {E : Type 0} (orig : Identity) (Seen : Identity → Type 0) (needed : ℤ)
    (unreduced : Option Candidate) (w r : ℕ) (level : Strictness)
    (same_candidate : Candidate → Candidate → Bool)
    (execute_one : E → Candidate → E × Option Attempt) (elapsed : E → ℤ) (canceled : E → Bool)
    (keyed : (d id : Identity) → same_key d id ≡ true → Seen id → Seen d)
    (seen : (e : E) (c : Candidate) (a : Attempt) (u : Candidate)
      → (execute_one e c).1 ≡ some a
      → unreduced ≡ some u
      → same_candidate u c ≡ true
      → All Seen a.observed) where
  abbrev Sane : Prober E → Type 0
  Sane p = IsSane orig Seen needed unreduced w r level p

  leave_pending-Sane :
      (p : Prober E) (cs : List Candidate) (ts : List Tally) (is : List ℕ) (ds : List Decision)
      (stop : StopReason)
      → Sane p
      → All (IsBacked needed) ts
      → All (IsProven needed) ds
      → let x = leave_pending orig same_candidate execute_one elapsed canceled p cs ts is ds stop in
        Sane x.0 × All (IsProven needed) x.1
  unfolding leave_pending
  leave_pending-Sane p cs ts [] ds stop h b q = (h, q)
  leave_pending-Sane p cs ts (i ∷ is) ds stop h b q =
      let d0 = decision_of (get_or ts i new_tally) (truncated stop) in
      let d = if is_reproduced d0.signal then record d0 { signal = signal_unknown } else d0 in
      let p' =
        memo orig same_candidate execute_one elapsed canceled p (get_or cs i no_candidate) d in
      let good : IsProven needed d =
        if_intro (IsProven needed) (is_reproduced d0.signal) (record d0 { signal = signal_unknown })
          d0 (λ _ e. absurd (ground arith))
          (λ _. All-get_or (IsBacked needed) ts i new_tally b (λ e. absurd (ground arith))) in
      leave_pending-Sane p' cs ts is (set ds i d) stop
        (memo-Sane orig Seen needed unreduced w r level same_candidate execute_one elapsed canceled
          keyed seen p _ d h good)
        b (All-set (IsProven needed) ds i d q good)

  record IsRound (pending : List ℕ) (ds : List Decision) (x : Settled E × List Tally × StopReason)
      : Type 0 where
    settled :
        IsSettled orig Seen needed unreduced w r level same_candidate execute_one elapsed canceled
          keyed seen pending ds x.0
    backed : All (IsBacked needed) x.1

  run_round-IsRound :
      (p : Prober E) (cs : List Candidate) (ts : List Tally) (pending : List ℕ) (ds : List Decision)
      → Sane p
      → All (IsBacked needed) ts
      → IsRound pending ds
          (run_round orig same_candidate execute_one elapsed canceled p cs ts pending ds)
  unfolding run_round
  run_round-IsRound p cs ts pending ds h b =
      let batch = map (λ i. get_or cs i no_candidate) pending in
      let (p1, attempts, reason) =
        execute orig same_candidate execute_one elapsed canceled p batch in
      let (h1, s1) =
        execute-IsRun orig Seen needed unreduced w r level same_candidate execute_one elapsed
          canceled keyed seen p batch h in
      let p2 = note_all orig same_candidate execute_one elapsed canceled p1 batch attempts in
      let h2 =
        note_all-Sane orig Seen needed unreduced w r level same_candidate execute_one elapsed
          canceled keyed seen p1 batch attempts h1 s1 in
      let (p3, asked) = answer_drift_question orig same_candidate execute_one elapsed canceled p2 in
      let h3 =
        answer_drift_question-IsSane orig Seen needed unreduced w r level same_candidate execute_one
          elapsed canceled keyed seen p2 h2 in
      let p4 = maybe_calibrate orig p3 in
      let h4 = maybe_calibrate-IsSane orig Seen needed unreduced w r level p3 h3 in
      let (p5, ts') =
        observe_all orig same_candidate execute_one elapsed canceled p4 batch pending attempts ts in
      let (h5, b5) =
        observe_all-Sane orig Seen needed unreduced w r level same_candidate execute_one elapsed
          canceled keyed seen p4 batch pending attempts ts h4 s1 b in
      record {
        settled =
            settle-IsSettled orig Seen needed unreduced w r level same_candidate execute_one elapsed
              canceled keyed seen p5 cs ts' pending ds h5 b5;
        backed = b5;
      }

  -- What judging `n` candidates has to give.
  pub record IsJudged (n : ℕ) (x : Judged E) : Type 0 where
    pub sane : Sane x.prober
    pub proven : All (IsProven needed) x.decisions
    pub accepts : (i : ℕ) → x.accepted ≡ some i → Accepts x.decisions i × (i < n)

  not_accepted :
      (n : ℕ) (p : Prober E) (ds : List Decision) (stop : StopReason)
      → Sane p
      → All (IsProven needed) ds
      → IsJudged n (record { prober = p; accepted = none; decisions = ds; stop = stop })
  not_accepted n p ds stop h q = record {
    sane = h;
    proven = q;
    accepts = λ i e. absurd (ground arith);
  }

  answered :
      (n : ℕ) (s : Settled E) (rest : Judged E) (x : Option ℕ)
      → ((i : ℕ) → x ≡ some i → Accepts s.decisions i × (i < n))
      → Sane s.prober
      → All (IsProven needed) s.decisions
      → IsJudged n rest
      → IsJudged n (elim x as (λ _. Judged E) [
        | some i ↦ record {
          prober = s.prober;
          accepted = some i;
          decisions = s.decisions;
          stop = stop_complete;
        }
        | none ↦ rest
      ])
  answered n s rest none a h q j = j
  answered n s rest (some i) a h q j = record { sane = h; proven = q; accepts = λ k e. a k e }

  rounds_from-IsJudged :
      (left : ℕ) (p : Prober E) (cs : List Candidate) (ts : List Tally) (pending : List ℕ)
      (ds : List Decision)
      → Sane p
      → All (IsBacked needed) ts
      → All (IsProven needed) ds
      → Rising pending
      → All (λ j. j < length cs) pending
      → length ds ≡ length cs
      → IsJudged
          (length cs)
          (rounds_from orig same_candidate execute_one elapsed canceled left p cs ts pending ds)
  unfolding rounds_from
  rounds_from-IsJudged zero p cs ts pending ds h b q rise small len =
      let (h', q') = leave_pending-Sane p cs ts pending ds stop_complete h b q in
      not_accepted (length cs) _ _ stop_complete h' q'
  rounds_from-IsJudged (suc left) p cs ts pending ds h b q rise small len =
      let (s, ts', stop) =
        run_round orig same_candidate execute_one elapsed canceled p cs ts pending ds in
      let ok = run_round-IsRound p cs ts pending ds h b in
      let S = ok.settled in
      let q' = S.proven q in
      let left_h = leave_pending-Sane s.prober cs ts' s.next s.decisions stop S.sane ok.backed q' in
      let (p', ds') =
        leave_pending orig same_candidate execute_one elapsed canceled s.prober cs ts' s.next
          s.decisions stop in
      let rest =
        rounds_from-IsJudged left s.prober cs ts' s.next s.decisions S.sane ok.backed q'
          (S.rising rise) (S.bounded (length cs) small) (S.same_length ∙ len) in
      if_intro (IsJudged (length cs)) (length pending == 0)
        (record { prober = p; accepted = none; decisions = ds; stop = stop_complete }) _
        (λ _. not_accepted (length cs) p ds stop_complete h q)
        (λ _.
          answered (length cs) s _ s.accepted
            (λ i e.
              let (x, y) =
                S.accepts i e rise (subst (λ n. All (λ j. j < n) pending) (sym len) small) in
              (x, subst (λ n. i < n) len y))
            S.sane q'
            (if_intro (IsJudged (length cs)) (truncated stop)
              (record { prober = p'; accepted = none; decisions = ds'; stop = stop })
              (rounds_from orig same_candidate execute_one elapsed canceled left s.prober cs ts'
                s.next s.decisions)
              (λ _. not_accepted (length cs) p' ds' stop left_h.0 left_h.1) (λ _. rest)))

  find_cached-IsProven :
      (cache : List (Candidate × Decision)) (c : Candidate) (d : Decision)
      → All (λ e. IsProven needed e.1) cache
      → find_cached orig same_candidate execute_one elapsed canceled cache c ≡ some d
      → IsProven needed d
  unfolding find_cached
  find_cached-IsProven [] c d h e = absurd (ground arith)
  find_cached-IsProven ((k, x) ∷ rest) c d h e = elim (Bool-cases (same_candidate k c)) [
    | inl q ↦
        subst (IsProven needed)
          (some_inj x d (
            ap
              (λ b.
                if b
                then some x
                else find_cached orig same_candidate execute_one elapsed canceled rest c)
              (sym q)
            ∙ e))
          h.0
    | inr q ↦ find_cached-IsProven rest c d h.1 (
        ap
          (λ b.
            if b
            then some x
            else find_cached orig same_candidate execute_one elapsed canceled rest c)
          (sym q)
        ∙ e)
  ]

  cached-IsProven :
      (p : Prober E) (c : Candidate) (d : Decision)
      → Sane p
      → cached orig same_candidate execute_one elapsed canceled p c ≡ some d
      → IsProven needed d
  unfolding cached
  cached-IsProven p c d h e = elim (Bool-cases p.pol.disable_cache) [
    | inl q ↦ absurd (
        none-some d (
          ap
            (λ b.
              if b
              then none
              else find_cached orig same_candidate execute_one elapsed canceled p.cache c)
            (sym q)
          ∙ e))
    | inr q ↦ find_cached-IsProven p.cache c d h.proven (
        ap
          (λ b.
            if b
            then none
            else find_cached orig same_candidate execute_one elapsed canceled p.cache c)
          (sym q)
        ∙ e)
  ]

  -- The answer of the cache for the candidates from `i` on.
  record IsLookedUp (n : ℕ) (x : Option ℕ × List Decision × List ℕ) : Type 0 where
    proven : All (IsProven needed) x.1
    same_length : length x.1 ≡ n
    rising : Rising x.2
    small : All (λ j. j < n) x.2
    hit : (j : ℕ) → x.0 ≡ some j → Accepts x.1 j × (j < n)

  look_up-IsLookedUp :
      (p : Prober E) (n : ℕ) (cs : List Candidate) (i : ℕ) (ds : List Decision) (pending : List ℕ)
      → Sane p
      → i + length cs ≡ n
      → length ds ≡ n
      → All (IsProven needed) ds
      → Rising pending
      → All (λ j. j < i) pending
      → IsLookedUp n (look_up orig same_candidate execute_one elapsed canceled p cs i ds pending)
  unfolding look_up
  look_up-IsLookedUp p n [] i ds pending h e len q rise small = record {
    proven = q;
    same_length = len;
    rising = rise;
    small = subst (λ k. All (λ j. j < k) pending) (omega arith) small;
    hit = λ j e. absurd (ground arith);
  }
  look_up-IsLookedUp p n (c ∷ cs) i ds pending h e len q rise small =
      found (cached orig same_candidate execute_one elapsed canceled p c)
        (λ d x. cached-IsProven p c d h x)
        (λ ds' pending' len' q' rise' small'.
          look_up-IsLookedUp p n cs (i + 1) ds' pending' h (omega arith) len' q' rise' small')
    where
      found :
          (x : Option Decision)
          → ((d : Decision) → x ≡ some d → IsProven needed d)
          → ((ds' : List Decision) (pending' : List ℕ)
              → length ds' ≡ n
              → All (IsProven needed) ds'
              → Rising pending'
              → All (λ j. j < i + 1) pending'
              → IsLookedUp n (
                  look_up orig same_candidate execute_one elapsed canceled p cs
                    (i + 1)
                    ds'
                    pending'))
          → IsLookedUp n (elim x as (λ _. Option ℕ × List Decision × List ℕ) [
            | none ↦
                look_up orig same_candidate execute_one elapsed canceled p cs
                  (i + 1)
                  ds
                  (pending ++ (i ∷ []))
            | some d ↦
                let rest =
                  look_up orig same_candidate execute_one elapsed canceled p cs
                    (i + 1)
                    (set ds i d)
                    pending in
                if is_reproduced d.signal then (some i, set ds i d, pending) else rest
          ])
      found none s ih = ih ds (pending ++ (i ∷ [])) len q (Rising-snoc pending i rise small) (
          All-snoc (λ j. j < i + 1) pending i (All-widen i (i + 1) pending (omega arith) small)
            (omega arith))
      found (some d) s ih =
          let q' = All-set (IsProven needed) ds i d q (s d refl) in
          let len' = length-set ds i d ∙ len in
          let lt : i < n = omega arith in
          if_intro (IsLookedUp n) (is_reproduced d.signal) (some i, set ds i d, pending) _
            (λ hit. record {
              proven = q';
              same_length = len';
              rising = rise;
              small = All-widen i n pending (omega arith) small;
              hit = λ j x.
                  subst (λ k. Accepts (set ds i d) k × (k < n)) (nat_inj i j x)
                    (
                      ap (λ z. is_reproduced z.signal)
                            (get_or-set_self ds i d no_decision (omega arith))
                          ∙ hit,
                      lt,
                    );
            })
            (λ _.
              ih (set ds i d) pending len' q' rise
                (All-widen i (i + 1) pending (omega arith) small))

  first_hit :
      (p : Prober E) (n : ℕ) (x : Option ℕ × List Decision × List ℕ) (rest : Judged E)
      → Sane p
      → IsLookedUp n x
      → IsJudged n rest
      → IsJudged n (elim x.0 as (λ _. Judged E) [
        | some i ↦ record { prober = p; accepted = some i; decisions = x.1; stop = stop_complete }
        | none ↦ rest
      ])
  first_hit p n (none, ds, pending) rest h l j = j
  first_hit p n (some i, ds, pending) rest h l j = record {
    sane = h;
    proven = l.proven;
    accepts = l.hit;
  }

  pub first_reproducing-IsJudged :
      (p : Prober E) (cs : List Candidate)
      → Sane p
      → let x = first_reproducing orig same_candidate execute_one elapsed canceled p cs in
        Sane x.prober
        × ((i : ℕ)
            → x.accepted ≡ some i
            → (i < length cs)
              × Accepts x.decisions i
              × (needed ≤ℤ pos (get_or x.decisions i no_decision).reproduced))
  unfolding first_reproducing
  first_reproducing-IsJudged p cs h =
      let n = length cs in
      let start = replicate n no_decision in
      let ts = replicate n new_tally in
      let fresh : IsProven needed no_decision = λ e. absurd (ground arith) in
      let l =
        look_up-IsLookedUp p n cs 0 start [] h (omega arith) (length-replicate n no_decision)
          (All-replicate (IsProven needed) n no_decision fresh) tt tt in
      let x = look_up orig same_candidate execute_one elapsed canceled p cs 0 start [] in
      let j = first_hit p n x _ h l (
        rounds_from-IsJudged (max_rounds p.pol) p cs ts x.2 x.1 h
          (All-replicate (IsBacked needed) n new_tally (λ e. absurd (ground arith))) l.proven
          l.rising l.small l.same_length) in
      (
        j.sane,
        λ i e.
            let (a, b) = j.accepts i e in
            (b, a, All-get_or (IsProven needed) _ i no_decision j.proven fresh a),
      )
