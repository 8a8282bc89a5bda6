-- ===== src/Shrink/Confirm/Counts.antt =====
-- What the numbers of a confirmation say (internal/shrink/confirm.go).
use pro_thesis.Prelude.{
  ℕ, zero, suc, ◌+◌, ◌≤◌, ◌≡◌, ◌≢◌, ◌↔◌, refl, sym, ap, ◌∙◌, subst, List, [], ◌∷◌, Bool, true,
  false, not, ◌&&◌, Option, String, arith,
}
use pro_thesis.Prelude.{if◌then◌else◌, if_intro, ◌==◌, length, All}
use pro_thesis.Prelude.Int.{ℤ, pos, negsuc}
use pro_thesis.Shrink.Budget.{
  StopReason, stop_complete, stop_canceled, stop_world_budget, truncated,
}
use pro_thesis.Shrink.Identity.{Identity, Strictness}
use pro_thesis.Shrink.Attempt.{
  Candidate, Attempt, Signal, signal_unknown, signal_reproduced, signal_different, signal_clean,
  classify,
}
use pro_thesis.Shrink.Attempt.Shown.{is_judgeable, shows, diverges, number, number-eq_length}
use pro_thesis.Shrink.Prober.{Prober, execute, note_attempt}
use pro_thesis.Shrink.Confirm.{
  Confirmation, new_confirmation, reaches, has_passed, replayed, confirm_from, confirm,
}
use pro_thesis.Shrink.Confirm.Replays.{executions, IsReplayed, confirm_from-IsReplayed}

-- Counts of at most `k` replays, fewer only with a reason.
pub record IsCounted (k : ℕ) (c : Confirmation) : Type 0 where
  pub gate : c.k ≡ pos k
  pub at_most : c.trials ≤ k
  pub counts : c.reproduced + c.different + c.unknown ≤ c.trials
  pub explained : c.stop ≡ stop_complete → c.trials ≡ k

-- A count that is not done yet.
record IsCounting (k : ℕ) (left : ℕ) (c : Confirmation) : Type 0 where
  gate : c.k ≡ pos k
  so_far : c.trials + left ≡ k
  counts : c.reproduced + c.different + c.unknown ≤ c.trials
  going : c.stop ≡ stop_complete

true-false : true ≢ false
true-false e = ground arith

gated :
    (z : ℤ) {k : ℕ} (t r : ℕ)
    → z ≡ pos k
    → t ≤ k
    → ((reaches z t && r == t) ≡ true) ↔ ((1 ≤ k) × (t ≡ k) × (r ≡ k))
gated (pos k) t r e h = ground arith
gated (negsuc k) t r e h = absurd (ground arith)

truncated_complete : (s : StopReason) → truncated s ≡ true → s ≢ stop_complete
truncated_complete s e q = absurd (true-false (sym e ∙ ap truncated q))

module _ {E : Type 0} (orig : Identity) (same_candidate : Candidate → Candidate → Bool)
    (execute_one : E → Candidate → E × Option Attempt) (elapsed : E → ℤ) (canceled : E → Bool) where
  replayed-IsCounting :
      (k left : ℕ) (c : Confirmation) (sig : Signal) (world : String)
      → IsCounting k (suc left) c
      → IsCounting k left (replayed c sig world)
  replayed-IsCounting k left c signal_reproduced world h = record {
    gate = h.gate;
    so_far = omega (arith, h.so_far);
    counts = omega (arith, h.counts);
    going = h.going;
  }
  replayed-IsCounting k left c signal_different world h = record {
    gate = h.gate;
    so_far = omega (arith, h.so_far);
    counts = omega (arith, h.counts);
    going = h.going;
  }
  replayed-IsCounting k left c signal_unknown world h = record {
    gate = h.gate;
    so_far = omega (arith, h.so_far);
    counts = omega (arith, h.counts);
    going = h.going;
  }
  replayed-IsCounting k left c signal_clean world h = record {
    gate = h.gate;
    so_far = omega (arith, h.so_far);
    counts = omega (arith, h.counts);
    going = h.going;
  }

  stopped_early :
      (k left : ℕ) (c : Confirmation) (s : StopReason)
      → IsCounting k left c
      → s ≢ stop_complete
      → IsCounted k (record c { stop = s })
  stopped_early k left c s h ne = record {
    gate = h.gate;
    at_most = omega (arith, h.so_far);
    counts = h.counts;
    explained = λ e. absurd (ne e);
  }

  confirm_from-IsCounted :
      (k left : ℕ) (p : Prober E) (c : Candidate) (out : Confirmation)
      → IsCounting k left out
      → IsCounted k (confirm_from orig same_candidate execute_one elapsed canceled left p c out).1
  unfolding confirm_from
  confirm_from-IsCounted k zero p c out h = record {
    gate = h.gate;
    at_most = omega (arith, h.so_far);
    counts = h.counts;
    explained = λ _. omega (arith, h.so_far);
  }
  confirm_from-IsCounted k (suc left) p c out h =
      let x = execute orig same_candidate execute_one elapsed canceled p (c ∷ []) in
      ran x.0 x.1 x.2 (λ q o g. confirm_from-IsCounted k left q c o g)
    where
      ran :
          (p' : Prober E) (attempts : List Attempt) (reason : StopReason)
          → ((q : Prober E) (o : Confirmation)
              → IsCounting k left o
              → IsCounted k
                  (confirm_from orig same_candidate execute_one elapsed canceled left q c o).1)
          → IsCounted k
              (elim attempts as (λ _. Prober E × Confirmation) [
                | [] ↦ (
                  p',
                  record out { stop = if truncated reason then reason else stop_world_budget },
                )
                | a ∷ as_ ↦
                    let out' = replayed out (classify p'.pol.strictness orig a).0 a.world_path in
                    let q = note_attempt orig same_candidate execute_one elapsed canceled p' c a in
                    let rest =
                      confirm_from orig same_candidate execute_one elapsed canceled left q c out' in
                    if truncated reason
                    then (q, record out' { stop = reason })
                    else if canceled q.env
                    then (q, record out' { stop = stop_canceled })
                    else rest
              ]).1
      ran p' [] reason ih = stopped_early k (suc left) out _ h (
          if_intro (λ s. s ≢ stop_complete) (truncated reason) reason stop_world_budget
            (λ e. truncated_complete reason e) (λ _ e. absurd (ground arith)))
      ran p' (a ∷ as_) reason ih =
          let out' = replayed out (classify p'.pol.strictness orig a).0 a.world_path in
          let q = note_attempt orig same_candidate execute_one elapsed canceled p' c a in
          let rest = confirm_from orig same_candidate execute_one elapsed canceled left q c out' in
          let g =
            replayed-IsCounting k left out (classify p'.pol.strictness orig a).0 a.world_path h in
          if_intro (λ (z : Prober E × Confirmation). IsCounted k z.1) (truncated reason)
            (q, record out' { stop = reason }) _
            (λ e. stopped_early k left out' reason g (truncated_complete reason e))
            (λ _.
              if_intro (λ (z : Prober E × Confirmation). IsCounted k z.1) (canceled q.env)
                (q, record out' { stop = stop_canceled }) rest
                (λ _. stopped_early k left out' stop_canceled g (λ e. absurd (ground arith)))
                (λ _. ih q out' g))

  -- What a confirmation says of its replays, by the executions alone.
  pub record IsTallied (s : Strictness) (c : Candidate) (e : E) (out : Confirmation) : Type 0 where
    pub ran :
        length (executions orig same_candidate execute_one elapsed canceled out.trials e c)
        ≡ out.trials
    pub reproduced :
        out.reproduced
        ≡ number
            (shows s orig)
            (executions orig same_candidate execute_one elapsed canceled out.trials e c)
    pub different :
        out.different
        ≡ number
            (diverges s orig)
            (executions orig same_candidate execute_one elapsed canceled out.trials e c)
    pub unknown :
        out.unknown
        ≡ number
            (λ a. not (is_judgeable a))
            (executions orig same_candidate execute_one elapsed canceled out.trials e c)

  IsReplayed-IsTallied :
      (s : Strictness) (c : Candidate) (e : E) (k : ℤ) (out : Confirmation)
      → IsReplayed orig same_candidate execute_one elapsed canceled s c e (new_confirmation k) out
      → IsTallied s c e out
  IsReplayed-IsTallied s c e k out h =
      let runs = executions orig same_candidate execute_one elapsed canceled in
      let n : h.more ≡ out.trials = omega (arith, h.trials) in
      record {
        ran = subst (λ m. length (runs m e c) ≡ m) n h.ran;
        reproduced =
            subst (λ m. out.reproduced ≡ number (shows s orig) (runs m e c)) n
              (omega (arith, h.reproduced));
        different =
            subst (λ m. out.different ≡ number (diverges s orig) (runs m e c)) n
              (omega (arith, h.different));
        unknown =
            subst (λ m. out.unknown ≡ number (λ a. not (is_judgeable a)) (runs m e c)) n
              (omega (arith, h.unknown));
      }

  -- The first `k` executions all show the violation.
  abbrev pub AllShow : Strictness → ℕ → E → Candidate → Type 0
  AllShow s k e c =
      All (λ a. shows s orig a ≡ true)
        (executions orig same_candidate execute_one elapsed canceled k e c)

  passed_iff :
      (s : Strictness) (c : Candidate) (e : E) (k : ℕ) (out : Confirmation)
      → IsCounted k out
      → IsTallied s c e out
      → (has_passed out ≡ true) ↔ ((1 ≤ k) × (out.trials ≡ k) × AllShow s k e c)
  unfolding has_passed
  passed_iff s c e k out h t =
      let runs = executions orig same_candidate execute_one elapsed canceled in
      let g = gated out.k out.trials out.reproduced h.gate h.at_most in
      let each = number-eq_length (shows s orig) (runs out.trials e c) in
      (
        λ p.
            let (some_k, all_ran, all_reproduced) = g.0 p in
            (
              some_k,
              all_ran,
              subst (λ m. AllShow s m e c) all_ran (each.0 (omega (arith, t.reproduced, t.ran))),
            ),
        λ x.
            let (some_k, all_ran, show) = x in
            let full = each.1 (subst (λ m. AllShow s m e c) (sym all_ran) show) in
            g.1 (some_k, all_ran, omega (arith, t.reproduced, t.ran)),
      )

  confirm-IsTallied :
      (p : Prober E) (c : Candidate) (k : ℕ)
      → IsTallied p.pol.strictness c p.env
          (confirm orig same_candidate execute_one elapsed canceled p c (pos k)).1
  unfolding confirm
  confirm-IsTallied p c k = IsReplayed-IsTallied p.pol.strictness c p.env (pos k) _ (
      confirm_from-IsReplayed orig same_candidate execute_one elapsed canceled k p.pol.strictness
        p.env p c (new_confirmation (pos k)) refl refl)

  gate_counts :
      (p : Prober E) (c : Candidate) (k : ℕ)
      → IsCounted k (confirm orig same_candidate execute_one elapsed canceled p c (pos k)).1
  unfolding confirm
  gate_counts p c k =
      confirm_from-IsCounted k k p c (new_confirmation (pos k))
        (record { gate = refl; so_far = omega arith; counts = omega arith; going = refl })

  -- A gate of k replays, k positive or zero: at most k run, and where fewer ran there is a reason to have
  -- stopped. The trials are the first executions of the candidate from the state of the prober on; the
  -- reproductions are those of them in which a judgeable execution observed a violation that matches the
  -- original one at the level of the prober, the others are those that observed violations and none that
  -- matches, and the unknown ones are those that may not be judged. The gate is passed exactly where k is
  -- positive, all k ran, and each of the k executions observed a match.
  pub confirm-IsCounted :
      (p : Prober E) (c : Candidate) (k : ℕ)
      → let out = (confirm orig same_candidate execute_one elapsed canceled p c (pos k)).1 in
        IsCounted k out
        × IsTallied p.pol.strictness c p.env out
        × ((has_passed out ≡ true)
            ↔ ((1 ≤ k) × (out.trials ≡ k) × AllShow p.pol.strictness k p.env c))
  confirm-IsCounted p c k =
      let h = gate_counts p c k in
      let t = confirm-IsTallied p c k in (h, t, passed_iff p.pol.strictness c p.env k _ h t)
