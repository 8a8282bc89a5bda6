-- ===== src/Shrink/Prober/Shown.antt =====
-- Executions that showed the violation, counted for each candidate, along the operations of the prober
-- (internal/shrink/probe.go).
use pro_thesis.Prelude.{
  ℕ, zero, suc, ◌+◌, ◌≤◌, ◌≡◌, refl, sym, ◌∙◌, subst, List, [], ◌∷◌, Bool, true, false, ◌&&◌,
  Option, none, some, arith,
}
use pro_thesis.Prelude.{if◌then◌else◌, if_intro, ◌==◌, leb, length, take, All}
use pro_thesis.Prelude.Int.{ℤ, pos, ltb_ℤ}
use pro_thesis.Shrink.Budget.{
  StopReason, stop_complete, stop_canceled, stop_executor_error, acquire,
}
use pro_thesis.Shrink.Identity.{Identity, Strictness, match_oracle_class, rank}
use pro_thesis.Shrink.Attempt.{Candidate, Attempt, classify}
use pro_thesis.Shrink.Attempt.Shown.{shows, one_if}
use pro_thesis.Shrink.Prober.{
  Prober, Decision, is_different, drift_from, relax_to, calibration_open, maybe_calibrate, run_all,
  execute, note_attempt, probe_once, answer_drift_question,
}

-- A count of the executions of a candidate that showed the violation at a level.
pub record IsMeasure {E : Type 0} (orig : Identity) (same_candidate : Candidate → Candidate → Bool)
    (execute_one : E → Candidate → E × Option Attempt) (shown : Strictness → Candidate → E → ℕ)
    : Type 0 where
  pub grows :
      (s : Strictness) (d : Candidate) (e : E) (c : Candidate)
      → shown s d e ≤ shown s d (execute_one e c).0
  pub hits :
      (s : Strictness) (e : E) (c : Candidate) (a : Attempt)
      → (execute_one e c).1 ≡ some a
      → shown s c e + one_if (shows s orig a) ≤ shown s c (execute_one e c).0
  pub laxer :
      (s t : Strictness) (c : Candidate) (e : E) → rank s ≤ rank t → shown t c e ≤ shown s c e
  pub shared :
      (s : Strictness) (c d : Candidate) (e : E)
      → same_candidate c d ≡ true
      → shown s c e ≤ shown s d e

module _ {E : Type 0} (orig : Identity) (same_candidate : Candidate → Candidate → Bool)
    (execute_one : E → Candidate → E × Option Attempt) (elapsed : E → ℤ) (canceled : E → Bool)
    (shown : Strictness → Candidate → E → ℕ)
    (m : IsMeasure orig same_candidate execute_one shown) where
  -- The executions of a candidate that showed the violation at the level of the prober.
  abbrev pub worth : Prober E → Candidate → ℕ
  worth p c = shown p.pol.strictness c p.env

  -- The reproductions of each cached decision are executions of its candidate that showed it.
  abbrev pub EntriesRest : Prober E → Type 0
  EntriesRest p = All (λ x. (x.1).reproduced ≤ worth p x.0) p.cache

  -- The counts only grow, and what the cache rests on stands.
  pub record Follows (p q : Prober E) : Type 0 where
    pub grew : (c : Candidate) → worth p c ≤ worth q c
    pub rest : EntriesRest p → EntriesRest q

  pub Follows-refl : (p : Prober E) → Follows p p
  Follows-refl p = record { grew = λ c. omega arith; rest = λ h. h }

  pub Follows-trans : (p q u : Prober E) → Follows p q → Follows q u → Follows p u
  Follows-trans p q u f g = record {
    grew = λ c. omega (arith, f.grew c, g.grew c);
    rest = λ h. g.rest (f.rest h);
  }

  entries_grow :
      (p q : Prober E) (xs : List (Candidate × Decision))
      → ((c : Candidate) → worth p c ≤ worth q c)
      → All (λ x. (x.1).reproduced ≤ worth p x.0) xs
      → All (λ x. (x.1).reproduced ≤ worth q x.0) xs
  entries_grow p q [] g h = tt
  entries_grow p q ((c, d) ∷ xs) g h = (omega (arith, g c, h.0), entries_grow p q xs g h.1)

  -- An execution leaves the policy and the cache as they are.
  pub record IsMoved (p q : Prober E) : Type 0 where
    pub grew : (s : Strictness) (c : Candidate) → shown s c p.env ≤ shown s c q.env
    pub level : q.pol.strictness ≡ p.pol.strictness
    pub cache : q.cache ≡ p.cache

  pub IsMoved-Follows : (p q : Prober E) → IsMoved p q → Follows p q
  IsMoved-Follows p q h =
      let g : (c : Candidate) → worth p c ≤ worth q c = λ c.
        subst (λ s. shown p.pol.strictness c p.env ≤ shown s c q.env) (sym h.level)
          (h.grew p.pol.strictness c) in
      record {
        grew = g;
        rest = λ x.
            subst (All (λ y. (y.1).reproduced ≤ worth q y.0)) (sym h.cache)
              (entries_grow p q p.cache g x);
      }

  -- Attempts that raise the counts of their candidates, between two states of the environment.
  abbrev pub AreShown : E → E → List Candidate → List Attempt → Type 0
  AreShown e e' [] as_ = as_ ≡ []
  AreShown e e' (c ∷ cs) [] = Unit {0}
  AreShown e e' (c ∷ cs) (a ∷ as_) =
      ((s : Strictness) → shown s c e + one_if (shows s orig a) ≤ shown s c e')
      × AreShown e e' cs as_

  AreShown-nil : (e e' : E) (cs : List Candidate) → AreShown e e' cs []
  AreShown-nil e e' [] = refl
  AreShown-nil e e' (c ∷ cs) = tt

  AreShown-take :
      (n : ℕ) (e e' : E) (cs : List Candidate) (as_ : List Attempt)
      → AreShown e e' (take n cs) as_
      → AreShown e e' cs as_
  AreShown-take zero e e' cs as_ h = subst (AreShown e e' cs) (sym h) (AreShown-nil e e' cs)
  AreShown-take (suc n) e e' [] as_ h = h
  AreShown-take (suc n) e e' (c ∷ cs) [] h = tt
  AreShown-take (suc n) e e' (c ∷ cs) (a ∷ as_) h = (h.0, AreShown-take n e e' cs as_ h.1)

  -- Attempts still raise the counts when the environment started earlier and went on.
  pub AreShown-wider :
      (d e e' f : E) (cs : List Candidate) (as_ : List Attempt)
      → ((s : Strictness) (c : Candidate) → shown s c d ≤ shown s c e)
      → ((s : Strictness) (c : Candidate) → shown s c e' ≤ shown s c f)
      → AreShown e e' cs as_
      → AreShown d f cs as_
  AreShown-wider d e e' f [] as_ a b h = h
  AreShown-wider d e e' f (c ∷ cs) [] a b h = tt
  AreShown-wider d e e' f (c ∷ cs) (x ∷ as_) a b h =
      (λ s. omega (arith, a s c, b s c, h.0 s), AreShown-wider d e e' f cs as_ a b h.1)

  pub record IsRun (p : Prober E) (cs : List Candidate) (x : Prober E × List Attempt × StopReason)
      : Type 0 where
    pub moved : IsMoved p x.0
    pub shown_by : AreShown p.env (x.0).env cs x.1

  not-IsRun :
      (p q : Prober E) (cs : List Candidate) (stop : StopReason)
      → q.env ≡ p.env
      → q.pol.strictness ≡ p.pol.strictness
      → q.cache ≡ p.cache
      → IsRun p cs (q, [], stop)
  not-IsRun p q cs stop a b c = record {
    moved = record {
      grew = λ s d. subst (λ e. shown s d p.env ≤ shown s d e) (sym a) (omega arith);
      level = b;
      cache = c;
    };
    shown_by = AreShown-nil p.env q.env cs;
  }

  run_all-IsRun :
      (cs : List Candidate) (p : Prober E) (reason : StopReason)
      → IsRun p cs (run_all orig same_candidate execute_one elapsed canceled p cs reason)
  unfolding run_all
  run_all-IsRun [] p reason = not-IsRun p p [] reason refl refl refl
  run_all-IsRun (c ∷ cs) p reason =
      let env = (execute_one p.env c).0 in
      attempted (execute_one p.env c).1 refl (run_all-IsRun cs (record p { env = env }) reason)
    where
      attempted :
          (r : Option Attempt)
          → (execute_one p.env c).1 ≡ r
          → (let p' = record p { env = (execute_one p.env c).0 } in
              IsRun p' cs (run_all orig same_candidate execute_one elapsed canceled p' cs reason))
          → (let env = (execute_one p.env c).0 in
              let p' = record p { env = env } in
              let rest = run_all orig same_candidate execute_one elapsed canceled p' cs reason in
              IsRun p (c ∷ cs) (elim r as (λ _. Prober E × List Attempt × StopReason) [
                | none ↦ (p', [], if canceled env then stop_canceled else stop_executor_error)
                | some a ↦
                    if canceled env
                    then (p', a ∷ [], stop_canceled)
                    else (rest.0, a ∷ rest.1, rest.2)
              ]))
      attempted none e ih = record {
        moved = record { grew = λ s d. m.grows s d p.env c; level = refl; cache = refl };
        shown_by = tt;
      }
      attempted (some a) e ih =
          let env = (execute_one p.env c).0 in
          let p' = record p { env = env } in
          let rest = run_all orig same_candidate execute_one elapsed canceled p' cs reason in
          if_intro (IsRun p (c ∷ cs)) (canceled env) (p', a ∷ [], stop_canceled)
            (rest.0, a ∷ rest.1, rest.2)
            (λ _. record {
              moved = record { grew = λ s d. m.grows s d p.env c; level = refl; cache = refl };
              shown_by = (λ s. m.hits s p.env c a e, AreShown-nil p.env env cs);
            })
            (λ _. record {
              moved = record {
                grew = λ s d. omega (arith, m.grows s d p.env c, ih.moved.grew s d);
                level = ih.moved.level;
                cache = ih.moved.cache;
              };
              shown_by = (
                λ s. omega (arith, m.hits s p.env c a e, ih.moved.grew s c),
                AreShown-wider p.env env (rest.0).env (rest.0).env cs rest.1
                    (λ s d. m.grows s d p.env c) (λ s d. omega arith) ih.shown_by,
              );
            })

  pub execute-IsRun :
      (p : Prober E) (cs : List Candidate)
      → IsRun p cs (execute orig same_candidate execute_one elapsed canceled p cs)
  unfolding execute
  execute-IsRun p cs =
      let (led, granted, reason) = acquire p.led (length cs) (elapsed p.env) in
      let charged = record p { led = led; attempts = p.attempts + length (take granted cs) } in
      let all =
        run_all orig same_candidate execute_one elapsed canceled charged (take granted cs) reason in
      let ran = run_all-IsRun (take granted cs) charged reason in
      if_intro (IsRun p cs) (length cs == 0) (p, [], stop_complete) _
        (λ _. not-IsRun p p cs stop_complete refl refl refl)
        (λ _.
          if_intro (IsRun p cs) (canceled p.env) (p, [], stop_canceled) _
            (λ _. not-IsRun p p cs stop_canceled refl refl refl)
            (λ _.
              if_intro (IsRun p cs) (granted == 0) (record p { led = led }, [], reason) all
                (λ _. not-IsRun p (record p { led = led }) cs reason refl refl refl)
                (λ _. record {
                  moved = record {
                    grew = ran.moved.grew;
                    level = ran.moved.level;
                    cache = ran.moved.cache;
                  };
                  shown_by = AreShown-take granted p.env (all.0).env cs all.1 ran.shown_by;
                })))

  -- Nothing but the divergences changes.
  pub record IsSame (p q : Prober E) : Type 0 where
    pub env : q.env ≡ p.env
    pub level : q.pol.strictness ≡ p.pol.strictness
    pub cache : q.cache ≡ p.cache

  pub IsSame-IsMoved : (p q : Prober E) → IsSame p q → IsMoved p q
  IsSame-IsMoved p q h = record {
    grew = λ s c. subst (λ e. shown s c p.env ≤ shown s c e) (sym h.env) (omega arith);
    level = h.level;
    cache = h.cache;
  }

  pub note_attempt-IsSame :
      (p : Prober E) (c : Candidate) (a : Attempt)
      → IsSame p (note_attempt orig same_candidate execute_one elapsed canceled p c a)
  unfolding note_attempt
  note_attempt-IsSame p c a =
      if_intro (IsSame p) (is_different (classify p.pol.strictness orig a).0) _ p
        (λ _. record { env = refl; level = refl; cache = refl })
        (λ _. record { env = refl; level = refl; cache = refl })

  probe_once-IsMoved :
      (p : Prober E) (c : Candidate)
      → IsMoved p (probe_once orig same_candidate execute_one elapsed canceled p c).0
  unfolding probe_once
  probe_once-IsMoved p c =
      let x = execute orig same_candidate execute_one elapsed canceled p (c ∷ []) in
      noted x.0 x.1 x.2 (execute-IsRun p (c ∷ [])).moved
    where
      noted :
          (q : Prober E) (as_ : List Attempt) (stop : StopReason)
          → IsMoved p q
          → IsMoved p
              (elim as_ as (λ _. Prober E × List Identity × StopReason) [
                | [] ↦ (q, [], stop)
                | a ∷ as_ ↦ (
                  note_attempt orig same_candidate execute_one elapsed canceled q c a,
                  (classify q.pol.strictness orig a).1,
                  stop,
                )
              ]).0
      noted q [] stop h = h
      noted q (a ∷ as_) stop h =
          let s = note_attempt-IsSame q c a in
          let u = note_attempt orig same_candidate execute_one elapsed canceled q c a in
          let g = IsSame-IsMoved q u s in
          record {
            grew = λ t d. omega (arith, h.grew t d, g.grew t d);
            level = s.level ∙ h.level;
            cache = s.cache ∙ h.cache;
          }

  pub answer_drift_question-IsMoved :
      (p : Prober E)
      → IsMoved p (answer_drift_question orig same_candidate execute_one elapsed canceled p).0
  unfolding answer_drift_question
  answer_drift_question-IsMoved p =
      answered p.unreduced (drift_from orig p.divergent false) (drift_from orig p.divergent true)
    where
      still : IsMoved p p
      still = record { grew = λ s c. omega arith; level = refl; cache = refl }

      answered :
          (x : Option Candidate) (y z : Option Identity)
          → IsMoved p
              (elim x as (λ _. Prober E × StopReason) [
                | none ↦ (p, stop_complete)
                | some u ↦ elim y as (λ _. Prober E × StopReason) [
                  | none ↦ (p, stop_complete)
                  | some asked ↦ elim z as (λ _. Prober E × StopReason) [
                    | some answer ↦ (p, stop_complete)
                    | none ↦
                        let (p', ids, stop) =
                          probe_once orig same_candidate execute_one elapsed canceled
                            (record p { reprobes = p.reprobes + 1 })
                            u in
                        if calibration_open orig p
                          && ltb_ℤ (pos p.reprobes) p.pol.calibration_probes
                        then (p', stop)
                        else (p, stop_complete)
                  ]
                ]
              ]).0
      answered none y z = still
      answered (some u) none z = still
      answered (some u) (some asked) (some answer) = still
      answered (some u) (some asked) none =
          let q = record p { reprobes = p.reprobes + 1 } in
          let x = probe_once orig same_candidate execute_one elapsed canceled q u in
          let h = probe_once-IsMoved q u in
          if_intro (λ (z : Prober E × StopReason). IsMoved p z.0)
            (calibration_open orig p && ltb_ℤ (pos p.reprobes) p.pol.calibration_probes) (x.0, x.2)
            (p, stop_complete) (λ _. record { grew = h.grew; level = h.level; cache = h.cache })
            (λ _. still)

  -- A level that falls counts at least what it counted, and nothing stays in the cache.
  pub record IsRelaxed (p q : Prober E) : Type 0 where
    pub env : q.env ≡ p.env
    pub lower : rank q.pol.strictness ≤ rank p.pol.strictness
    pub follows : Follows p q

  below : (b : ℕ) (a : ℕ) → leb a b ≡ false → b ≤ a
  below b a e = ground arith

  relax_to-IsRelaxed :
      (p : Prober E)
      → IsRelaxed p (record (relax_to orig p match_oracle_class) { calibrated = true })
  unfolding relax_to
  relax_to-IsRelaxed p =
      if_intro (λ (z : Prober E). IsRelaxed p (record z { calibrated = true }))
        (leb (rank p.pol.strictness) (rank match_oracle_class)) p _
        (λ _. record {
          env = refl;
          lower = omega arith;
          follows = record { grew = λ c. omega arith; rest = λ h. h };
        })
        (λ e. record {
          env = refl;
          lower = below (rank match_oracle_class) (rank p.pol.strictness) e;
          follows = record {
            grew = λ c.
                m.laxer match_oracle_class p.pol.strictness c p.env
                  (below (rank match_oracle_class) (rank p.pol.strictness) e);
            rest = λ h. tt;
          };
        })

  pub maybe_calibrate-IsRelaxed : (p : Prober E) → IsRelaxed p (maybe_calibrate orig p)
  unfolding maybe_calibrate
  maybe_calibrate-IsRelaxed p = found (drift_from orig p.divergent true)
    where
      still : IsRelaxed p p
      still = record { env = refl; lower = omega arith; follows = Follows-refl p }

      found :
          (x : Option Identity)
          → IsRelaxed p (elim x as (λ _. Prober E) [
            | none ↦ p
            | some drift ↦
                if calibration_open orig p
                then record (relax_to orig p match_oracle_class) { calibrated = true }
                else p
          ])
      found none = still
      found (some id) =
          if_intro (IsRelaxed p) (calibration_open orig p) _ p (λ _. relax_to-IsRelaxed p)
            (λ _. still)
