-- ===== src/Shrink/Prober/Sane.antt =====
-- The invariant of the prober (internal/shrink/probe.go): what its cache, its divergences, its ledger and
-- its level of the identity test may hold, kept by every operation below the rounds.
use pro_thesis.Prelude.{
  ℕ, zero, suc, ◌+◌, ◌≤◌, ◌≡◌, ◌⊎◌, inr, refl, sym, ap, List, [], ◌∷◌, Bool, true, false, ◌&&◌,
  Option, none, some, arith,
}
use pro_thesis.Prelude.{if◌then◌else◌, if_intro, ◌==◌, leb, length, take, All}
use pro_thesis.Prelude.Int.{ℤ, pos, ltb_ℤ}
use pro_thesis.Shrink.Budget.{
  StopReason, stop_complete, stop_canceled, stop_executor_error, acquire,
}
use pro_thesis.Shrink.Budget.Grants.{IsMetered, acquire-IsCharged}
use pro_thesis.Shrink.Identity.{Identity, Strictness, match_oracle_class, rank}
use pro_thesis.Shrink.Attempt.{Candidate, Attempt, classify}
use pro_thesis.Shrink.Prober.{
  Prober, same_key, is_different, note_divergence, drift_from, relax_to, calibration_open,
  maybe_calibrate, is_unreduced, run_all, execute, note_attempt, probe_once, answer_drift_question,
}
use pro_thesis.Shrink.Prober.Evidence.{
  IsProven, IsDrift, IsEvidence, IsFound, note_divergence-All, still_divergent-All, classify-All,
  drift_from-IsFound,
}

refused :
    (attempts spent after g : ℕ)
    → attempts ≡ spent
    → after ≡ spent + g
    → (g == 0) ≡ true
    → attempts ≡ after
refused attempts spent after g a b e = ground arith

-- The level is the one at the start, or the floor, and then the unreduced world drifted.
abbrev pub IsLevel : Identity → (Identity → Type 0) → Strictness → Strictness → Type 0
IsLevel orig Seen level s =
    (s ≡ level) ⊎ ((s ≡ match_oracle_class) × ((id : Identity) × Seen id × IsDrift orig id))

module _ {E : Type 0} (orig : Identity) (Seen : Identity → Type 0) (needed : ℤ)
    (unreduced : Option Candidate) (w r : ℕ) (level : Strictness) where
  pub record IsSane (p : Prober E) : Type 0 where
    pub accepts : p.pol.accept_trials ≡ needed
    pub proven : All (λ e. IsProven needed e.1) p.cache
    pub evidence : All (IsEvidence Seen) p.divergent
    pub target : p.unreduced ≡ unreduced
    pub metered : IsMetered w r p.led
    pub charged : p.attempts ≡ p.led.spent
    pub at_level : IsLevel orig Seen level p.pol.strictness

  relax_to-IsSane :
      (p : Prober E) (id : Identity)
      → IsSane p
      → Seen id
      → IsDrift orig id
      → IsSane (record (relax_to orig p match_oracle_class) { calibrated = true })
  unfolding relax_to
  relax_to-IsSane p id h s d =
      if_intro (λ (z : Prober E). IsSane (record z { calibrated = true }))
        (leb (rank p.pol.strictness) (rank match_oracle_class)) p _
        (λ _. record {
          accepts = h.accepts;
          proven = h.proven;
          evidence = h.evidence;
          target = h.target;
          metered = h.metered;
          charged = h.charged;
          at_level = h.at_level;
        })
        (λ _. record {
          accepts = h.accepts;
          proven = tt;
          evidence = still_divergent-All Seen match_oracle_class orig p.divergent h.evidence;
          target = h.target;
          metered = h.metered;
          charged = h.charged;
          at_level = inr (refl, (id, s, d));
        })

  pub maybe_calibrate-IsSane : (p : Prober E) → IsSane p → IsSane (maybe_calibrate orig p)
  unfolding maybe_calibrate
  maybe_calibrate-IsSane p h =
      found (drift_from orig p.divergent true) (drift_from-IsFound Seen orig p.divergent h.evidence)
    where
      found :
          (x : Option Identity)
          → IsFound Seen orig x
          → IsSane (elim x as (λ _. Prober E) [
            | none ↦ p
            | some drift ↦
                if calibration_open orig p
                then record (relax_to orig p match_oracle_class) { calibrated = true }
                else p
          ])
      found none f = h
      found (some id) (s, d) =
          if_intro IsSane (calibration_open orig p) _ p (λ _. relax_to-IsSane p id h s d) (λ _. h)

  module _ (same_candidate : Candidate → Candidate → Bool)
      (execute_one : E → Candidate → E × Option Attempt) (elapsed : E → ℤ) (canceled : E → Bool)
      (keyed : (d id : Identity) → same_key d id ≡ true → Seen id → Seen d)
      (seen : (e : E) (c : Candidate) (a : Attempt) (u : Candidate)
        → (execute_one e c).1 ≡ some a
        → unreduced ≡ some u
        → same_candidate u c ≡ true
        → All Seen a.observed) where
    -- What an execution of `c` observed was seen, where `c` is the unreduced world.
    abbrev pub IsSeen : Candidate → Attempt → Type 0
    IsSeen c a =
        (u : Candidate) → unreduced ≡ some u → same_candidate u c ≡ true → All Seen a.observed

    -- Attempts against the candidates they are of.
    abbrev pub AreSeen : List Candidate → List Attempt → Type 0
    AreSeen [] as_ = Unit
    AreSeen (c ∷ cs) [] = Unit
    AreSeen (c ∷ cs) (a ∷ as_) = IsSeen c a × AreSeen cs as_

    abbrev pub IsRun : List Candidate → Prober E × List Attempt × StopReason → Type 0
    IsRun cs (p, as_, stop) = IsSane p × AreSeen cs as_

    move : (p : Prober E) (env : E) → IsSane p → IsSane (record p { env = env })
    move p env h = record {
      accepts = h.accepts;
      proven = h.proven;
      evidence = h.evidence;
      target = h.target;
      metered = h.metered;
      charged = h.charged;
      at_level = h.at_level;
    }

    AreSeen-nil : (cs : List Candidate) → AreSeen cs []
    AreSeen-nil [] = tt
    AreSeen-nil (c ∷ cs) = tt

    run_all-IsRun :
        (cs : List Candidate) (p : Prober E) (reason : StopReason)
        → IsSane p
        → IsRun cs (run_all orig same_candidate execute_one elapsed canceled p cs reason)
    unfolding run_all
    run_all-IsRun [] p reason h = (h, tt)
    run_all-IsRun (c ∷ cs) p reason h =
        let env = (execute_one p.env c).0 in
        let p' = record p { env = env } in
        ran (execute_one p.env c).1 (λ a e u. seen p.env c a u e)
          (run_all-IsRun cs p' reason (move p env h))
      where
        ran :
            (x : Option Attempt)
            → ((a : Attempt) → x ≡ some a → IsSeen c a)
            → (let p' = record p { env = (execute_one p.env c).0 } in
                IsRun cs (run_all orig same_candidate execute_one elapsed canceled p' cs reason))
            → (let env = (execute_one p.env c).0 in
                let p' = record p { env = env } in
                let rest = run_all orig same_candidate execute_one elapsed canceled p' cs reason in
                IsRun (c ∷ cs) (elim x as (λ _. Prober E × List Attempt × StopReason) [
                  | none ↦ (p', [], if canceled env then stop_canceled else stop_executor_error)
                  | some a ↦
                      if canceled env
                      then (p', a ∷ [], stop_canceled)
                      else (rest.0, a ∷ rest.1, rest.2)
                ]))
        ran none s g = (move p _ h, tt)
        ran (some a) s g =
            let env = (execute_one p.env c).0 in
            let p' = record p { env = env } in
            let rest = run_all orig same_candidate execute_one elapsed canceled p' cs reason in
            if_intro (IsRun (c ∷ cs)) (canceled env) (p', a ∷ [], stop_canceled)
              (rest.0, a ∷ rest.1, rest.2) (λ _. (move p env h, (s a refl, AreSeen-nil cs)))
              (λ _. (g.0, (s a refl, g.1)))

    length-take_le : (n : ℕ) (cs : List Candidate) → n ≤ length cs → length (take n cs) ≡ n
    length-take_le zero cs h = refl
    length-take_le (suc n) [] h = absurd (omega arith)
    length-take_le (suc n) (c ∷ cs) h = ap suc (length-take_le n cs (omega arith))

    AreSeen-take :
        (n : ℕ) (cs : List Candidate) (as_ : List Attempt)
        → AreSeen (take n cs) as_
        → n ≤ length cs
        → length as_ ≤ n
        → AreSeen cs as_
    AreSeen-take zero [] as_ h le q = tt
    AreSeen-take zero (c ∷ cs) [] h le q = tt
    AreSeen-take zero (c ∷ cs) (a ∷ as_) h le q = absurd (omega arith)
    AreSeen-take (suc n) [] as_ h le q = tt
    AreSeen-take (suc n) (c ∷ cs) [] h le q = tt
    AreSeen-take (suc n) (c ∷ cs) (a ∷ as_) h le q =
        (h.0, AreSeen-take n cs as_ h.1 (omega arith) (omega arith))

    length-run_all :
        (cs : List Candidate) (p : Prober E) (reason : StopReason)
        → length (run_all orig same_candidate execute_one elapsed canceled p cs reason).1
          ≤ length cs
    unfolding run_all
    length-run_all [] p reason = omega arith
    length-run_all (c ∷ cs) p reason =
        bounded (execute_one p.env c).1
          (length-run_all cs (record p { env = (execute_one p.env c).0 }) reason)
      where
        bounded :
            (x : Option Attempt)
            → (let p' = record p { env = (execute_one p.env c).0 } in
                length (run_all orig same_candidate execute_one elapsed canceled p' cs reason).1
                ≤ length cs)
            → (let env = (execute_one p.env c).0 in
                let p' = record p { env = env } in
                let rest = run_all orig same_candidate execute_one elapsed canceled p' cs reason in
                length
                  (elim x as (λ _. Prober E × List Attempt × StopReason) [
                    | none ↦ (p', [], if canceled env then stop_canceled else stop_executor_error)
                    | some a ↦
                        if canceled env
                        then (p', a ∷ [], stop_canceled)
                        else (rest.0, a ∷ rest.1, rest.2)
                  ]).1
                ≤ suc (length cs))
        bounded none g = omega arith
        bounded (some a) g =
            let env = (execute_one p.env c).0 in
            let p' = record p { env = env } in
            let rest = run_all orig same_candidate execute_one elapsed canceled p' cs reason in
            if_intro (λ (z : Prober E × List Attempt × StopReason). length z.1 ≤ suc (length cs))
              (canceled env) (p', a ∷ [], stop_canceled) (rest.0, a ∷ rest.1, rest.2)
              (λ _. omega arith) (λ _. omega arith)

    pub execute-IsRun :
        (p : Prober E) (cs : List Candidate)
        → IsSane p
        → IsRun cs (execute orig same_candidate execute_one elapsed canceled p cs)
    unfolding execute
    execute-IsRun p cs h =
        let t = elapsed p.env in
        let (led, granted, reason) = acquire p.led (length cs) t in
        let c = acquire-IsCharged w r (length cs) p.led t h.metered in
        let charged = record p { led = led; attempts = p.attempts + length (take granted cs) } in
        let all =
          run_all orig same_candidate execute_one elapsed canceled charged (take granted cs)
            reason in
        let len = length-take_le granted cs c.at_most in
        let ran = run_all-IsRun (take granted cs) charged reason (record {
          accepts = h.accepts;
          proven = h.proven;
          evidence = h.evidence;
          target = h.target;
          metered = c.metered;
          charged = omega (arith, h.charged, c.charge, len);
          at_level = h.at_level;
        }) in
        if_intro (IsRun cs) (length cs == 0) (p, [], stop_complete) _ (λ _. (h, AreSeen-nil cs))
          (λ _.
            if_intro (IsRun cs) (canceled p.env) (p, [], stop_canceled) _ (λ _. (h, AreSeen-nil cs))
              (λ _.
                if_intro (IsRun cs) (granted == 0) (record p { led = led }, [], reason) all
                  (λ e. (
                    record {
                      accepts = h.accepts;
                      proven = h.proven;
                      evidence = h.evidence;
                      target = h.target;
                      metered = c.metered;
                      charged = refused p.attempts _ _ granted h.charged c.charge e;
                      at_level = h.at_level;
                    },
                    AreSeen-nil cs,
                  ))
                  (λ _. (
                    ran.0,
                    AreSeen-take granted cs all.1 ran.1 c.at_most
                        (omega (arith, length-run_all (take granted cs) charged reason, len)),
                  ))))

    is_unreduced-target :
        (p : Prober E) (c : Candidate)
        → IsSane p
        → is_unreduced orig same_candidate execute_one elapsed canceled p c ≡ true
        → (u : Candidate) × (unreduced ≡ some u) × (same_candidate u c ≡ true)
    is_unreduced-target p c h e = named p.unreduced h.target e
      where
        named :
            (x : Option Candidate)
            → x ≡ unreduced
            → (elim x as (λ _. Bool) [ none ↦ false | some u ↦ same_candidate u c ]) ≡ true
            → (u : Candidate) × (unreduced ≡ some u) × (same_candidate u c ≡ true)
        named none q e = absurd (ground arith)
        named (some u) q e = (u, sym q, e)

    pub note_attempt-IsSane :
        (p : Prober E) (c : Candidate) (a : Attempt)
        → IsSane p
        → IsSeen c a
        → IsSane (note_attempt orig same_candidate execute_one elapsed canceled p c a)
    unfolding note_attempt
    note_attempt-IsSane p c a h s =
        let (sig, ids) = classify p.pol.strictness orig a in
        let b = is_unreduced orig same_candidate execute_one elapsed canceled p c in
        if_intro IsSane (is_different sig)
          (record p { divergent = note_divergence p.divergent ids b }) p
          (λ _. record {
            accepts = h.accepts;
            proven = h.proven;
            evidence = note_divergence-All Seen p.divergent ids b keyed h.evidence (λ e.
                let (u, q, same) = is_unreduced-target p c h e in
                classify-All Seen p.pol.strictness orig a (s u q same));
            target = h.target;
            metered = h.metered;
            charged = h.charged;
            at_level = h.at_level;
          })
          (λ _. h)

    probe_once-IsSane :
        (p : Prober E) (c : Candidate)
        → IsSane p
        → IsSane (probe_once orig same_candidate execute_one elapsed canceled p c).0
    unfolding probe_once
    probe_once-IsSane p c h =
        let x = execute orig same_candidate execute_one elapsed canceled p (c ∷ []) in
        let ran = execute-IsRun p (c ∷ []) h in noted x.0 x.1 x.2 ran.0 ran.1
      where
        noted :
            (p' : Prober E) (as_ : List Attempt) (stop : StopReason)
            → IsSane p'
            → AreSeen (c ∷ []) as_
            → IsSane
                (elim as_ as (λ _. Prober E × List Identity × StopReason) [
                  | [] ↦ (p', [], stop)
                  | a ∷ as_ ↦ (
                    note_attempt orig same_candidate execute_one elapsed canceled p' c a,
                    (classify p'.pol.strictness orig a).1,
                    stop,
                  )
                ]).0
        noted p' [] stop s q = s
        noted p' (a ∷ as_) stop s q = note_attempt-IsSane p' c a s q.0

    pub answer_drift_question-IsSane :
        (p : Prober E)
        → IsSane p
        → IsSane (answer_drift_question orig same_candidate execute_one elapsed canceled p).0
    unfolding answer_drift_question
    answer_drift_question-IsSane p h =
        answered p.unreduced (drift_from orig p.divergent false) (drift_from orig p.divergent true)
      where
        answered :
            (x : Option Candidate) (y z : Option Identity)
            → IsSane
                (elim x as (λ _. Prober E × StopReason) [
                  | none ↦ (p, stop_complete)
                  | some u ↦ elim y as (λ _. Prober E × StopReason) [
                    | none ↦ (p, stop_complete)
                    | some asked ↦ elim z as (λ _. Prober E × StopReason) [
                      | some answer ↦ (p, stop_complete)
                      | none ↦
                          let (p', ids, stop) =
                            probe_once orig same_candidate execute_one elapsed canceled
                              (record p { reprobes = p.reprobes + 1 })
                              u in
                          if calibration_open orig p
                            && ltb_ℤ (pos p.reprobes) p.pol.calibration_probes
                          then (p', stop)
                          else (p, stop_complete)
                    ]
                  ]
                ]).0
        answered none y z = h
        answered (some u) none z = h
        answered (some u) (some asked) (some answer) = h
        answered (some u) (some asked) none =
            let q = record p { reprobes = p.reprobes + 1 } in
            let x = probe_once orig same_candidate execute_one elapsed canceled q u in
            if_intro (λ (z : Prober E × StopReason). IsSane z.0)
              (calibration_open orig p && ltb_ℤ (pos p.reprobes) p.pol.calibration_probes)
              (x.0, x.2) (p, stop_complete)
              (λ _. probe_once-IsSane q u (record {
                accepts = h.accepts;
                proven = h.proven;
                evidence = h.evidence;
                target = h.target;
                metered = h.metered;
                charged = h.charged;
                at_level = h.at_level;
              }))
              (λ _. h)
