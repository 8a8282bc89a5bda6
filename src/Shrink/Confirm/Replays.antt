-- ===== src/Shrink/Confirm/Replays.antt =====
-- The replays of a confirmation (internal/shrink/confirm.go), told by the executions alone.
use pro_thesis.Prelude.{
  ℕ, zero, suc, ◌+◌, ◌≡◌, refl, sym, ap, ◌∙◌, subst, List, [], ◌∷◌, Bool, false, not, Option, none,
  some, String, arith,
}
use pro_thesis.Prelude.{if◌then◌else◌, if_intro, ◌==◌, length, take}
use pro_thesis.Prelude.Int.{ℤ}
use pro_thesis.Shrink.Budget.{
  StopReason, stop_canceled, stop_world_budget, stop_executor_error, truncated, acquire,
}
use pro_thesis.Shrink.Identity.{Identity, Strictness}
use pro_thesis.Shrink.Attempt.{
  Candidate, Attempt, Signal, signal_unknown, signal_reproduced, signal_different, signal_clean,
  classify,
}
use pro_thesis.Shrink.Attempt.Shown.{
  is_judgeable, shows, diverges, one_if, number, is_unknown, classify-IsJudgement,
}
use pro_thesis.Shrink.Prober.{Prober, is_reproduced, is_different, run_all, execute, note_attempt}
use pro_thesis.Shrink.Confirm.{Confirmation, replayed, confirm_from}

module _ {E : Type 0} (orig : Identity) (same_candidate : Candidate → Candidate → Bool)
    (execute_one : E → Candidate → E × Option Attempt) (elapsed : E → ℤ) (canceled : E → Bool) where
  -- The first `n` executions of a candidate, one after the other, up to an executor's error.
  abbrev pub executions : ℕ → E → Candidate → List Attempt
  executions zero e c = []
  executions (suc n) e c =
      let (e', x) = execute_one e c in
      let rest = executions n e' c in elim x [ none ↦ [] | some a ↦ a ∷ rest ]

  -- What one request for one execution gives.
  record IsExecuted (p : Prober E) (c : Candidate) (x : Prober E × List Attempt × StopReason)
      : Type 0 where
    same_level : (x.0).pol.strictness ≡ p.pol.strictness
    ran :
        (a : Attempt) (as_ : List Attempt)
        → x.1 ≡ a ∷ as_
        → execute_one p.env c ≡ ((x.0).env, some a)

  not-IsExecuted :
      (p q : Prober E) (c : Candidate) (reason : StopReason)
      → q.pol.strictness ≡ p.pol.strictness
      → IsExecuted p c (q, [], reason)
  not-IsExecuted p q c reason e = record { same_level = e; ran = λ a as_ x. absurd (ground arith) }

  same_head : (a b : Attempt) (as_ bs : List Attempt) → a ∷ as_ ≡ b ∷ bs → a ≡ b
  same_head a b as_ bs e = ap (λ l. elim l [ [] ↦ a | x ∷ _ ↦ x ]) e

  run_one-IsExecuted :
      (p q : Prober E) (c : Candidate) (reason : StopReason)
      → q.env ≡ p.env
      → q.pol.strictness ≡ p.pol.strictness
      → IsExecuted p c (run_all orig same_candidate execute_one elapsed canceled q (c ∷ []) reason)
  unfolding run_all
  run_one-IsExecuted p q c reason same level =
      attempted (execute_one q.env c).0 (execute_one q.env c).1
        (ap (λ e. execute_one e c) (sym same))
    where
      attempted :
          (env : E) (x : Option Attempt)
          → execute_one p.env c ≡ (env, x)
          → IsExecuted p c (elim x as (λ _. Prober E × List Attempt × StopReason) [
            | none ↦ (
              record q { env = env },
              [],
              if canceled env then stop_canceled else stop_executor_error,
            )
            | some a ↦
                if canceled env
                then (record q { env = env }, a ∷ [], stop_canceled)
                else (record q { env = env }, a ∷ [], reason)
          ])
      attempted env none e = not-IsExecuted p _ c _ level
      attempted env (some a) e =
          let by : (StopReason → IsExecuted p c (record q { env = env }, a ∷ [], reason)) = λ _.
            record {
              same_level = level;
              ran = λ b bs z. e ∙ ap (λ y. (env, some y)) (same_head a b [] bs z);
            } in
          if_intro (IsExecuted p c) (canceled env) _ _
            (λ _. record {
              same_level = level;
              ran = λ b bs z. e ∙ ap (λ y. (env, some y)) (same_head a b [] bs z);
            })
            (λ _. by reason)

  -- The part of `execute` that follows the ledger's answer.
  granted-IsExecuted :
      (p q : Prober E) (c : Candidate) (granted : ℕ) (reason : StopReason)
      → q.env ≡ p.env
      → q.pol.strictness ≡ p.pol.strictness
      → (granted == 0) ≡ false
      → IsExecuted p c (
          run_all orig same_candidate execute_one elapsed canceled q (take granted (c ∷ [])) reason)
  granted-IsExecuted p q c zero reason a b e = absurd (ground arith)
  granted-IsExecuted p q c (suc zero) reason a b e = run_one-IsExecuted p q c reason a b
  granted-IsExecuted p q c (suc (suc n)) reason a b e = run_one-IsExecuted p q c reason a b

  execute-IsExecuted :
      (p : Prober E) (c : Candidate)
      → IsExecuted p c (execute orig same_candidate execute_one elapsed canceled p (c ∷ []))
  unfolding execute
  execute-IsExecuted p c =
      let (led, granted, reason) = acquire p.led 1 (elapsed p.env) in
      let charged = record p {
        led = led;
        attempts = p.attempts + length (take granted (c ∷ []));
      } in
      if_intro (IsExecuted p c) (canceled p.env) (p, [], stop_canceled) _
        (λ _. not-IsExecuted p p c stop_canceled refl)
        (λ _.
          if_intro (IsExecuted p c) (granted == 0) (record p { led = led }, [], reason) _
            (λ _. not-IsExecuted p (record p { led = led }) c reason refl)
            (λ e. granted-IsExecuted p charged c granted reason refl refl e))

  note_attempt-same :
      (p : Prober E) (c : Candidate) (a : Attempt)
      → let q = note_attempt orig same_candidate execute_one elapsed canceled p c a in
        (q.env ≡ p.env) × (q.pol.strictness ≡ p.pol.strictness)
  unfolding note_attempt
  note_attempt-same p c a =
      let x = classify p.pol.strictness orig a in
      if_intro (λ (q : Prober E). (q.env ≡ p.env) × (q.pol.strictness ≡ p.pol.strictness))
        (is_different x.0) _ p (λ _. (refl, refl)) (λ _. (refl, refl))

  -- The counts of a confirmation grew by those of `m` executions from `e` on.
  pub record IsReplayed (s : Strictness) (c : Candidate) (e : E) (base out : Confirmation)
      : Type 0 where
    pub more : ℕ
    pub ran : length (executions more e c) ≡ more
    pub trials : out.trials ≡ base.trials + more
    pub reproduced : out.reproduced ≡ base.reproduced + number (shows s orig) (executions more e c)
    pub different : out.different ≡ base.different + number (diverges s orig) (executions more e c)
    pub unknown :
        out.unknown ≡ base.unknown + number (λ a. not (is_judgeable a)) (executions more e c)

  no_more :
      (s : Strictness) (c : Candidate) (e : E) (base : Confirmation) (stop : StopReason)
      → IsReplayed s c e base (record base { stop = stop })
  no_more s c e base stop = record {
    more = 0;
    ran = refl;
    trials = omega arith;
    reproduced = omega arith;
    different = omega arith;
    unknown = omega arith;
  }

  counted :
      (base : Confirmation) (sig : Signal) (world : String)
      → ((replayed base sig world).trials ≡ base.trials + 1)
        × ((replayed base sig world).reproduced ≡ base.reproduced + one_if (is_reproduced sig))
        × ((replayed base sig world).different ≡ base.different + one_if (is_different sig))
        × ((replayed base sig world).unknown ≡ base.unknown + one_if (is_unknown sig))
  counted base signal_reproduced world = (refl, refl, omega arith, omega arith)
  counted base signal_different world = (refl, omega arith, refl, omega arith)
  counted base signal_unknown world = (refl, omega arith, omega arith, refl)
  counted base signal_clean world = (refl, omega arith, omega arith, omega arith)

  one_more :
      (s : Strictness) (c : Candidate) (e e' : E) (a : Attempt) (world : String)
      (base out : Confirmation)
      → execute_one e c ≡ (e', some a)
      → IsReplayed s c e' (replayed base (classify s orig a).0 world) out
      → IsReplayed s c e base out
  one_more s c e e' a world base out ran h =
      let after : executions (suc h.more) e c ≡ a ∷ executions h.more e' c =
        ap
          (λ (x : E × Option Attempt). elim x.1 as (λ _. List Attempt) [
            | none ↦ []
            | some b ↦ b ∷ executions h.more x.0 c
          ])
          ran in
      let (t, r, d, u) = counted base (classify s orig a).0 world in
      let j = classify-IsJudgement s orig a in
      record {
        more = suc h.more;
        ran = ap length after ∙ ap suc h.ran;
        trials = omega (arith, h.trials, t);
        reproduced =
            omega
              (arith, h.reproduced, r, ap one_if j.reproduced, ap (number (shows s orig)) after);
        different =
            omega
              (arith, h.different, d, ap one_if j.different, ap (number (diverges s orig)) after);
        unknown = omega (
          arith,
          h.unknown,
          u,
          ap one_if j.unknown,
          ap (number (λ b. not (is_judgeable b))) after,
        );
      }

  pub confirm_from-IsReplayed :
      (left : ℕ) (s : Strictness) (e : E) (p : Prober E) (c : Candidate) (base : Confirmation)
      → p.pol.strictness ≡ s
      → p.env ≡ e
      → IsReplayed s c e base
          (confirm_from orig same_candidate execute_one elapsed canceled left p c base).1
  unfolding confirm_from
  confirm_from-IsReplayed zero s e p c base level env = no_more s c e base base.stop
  confirm_from-IsReplayed (suc left) s e p c base level env =
      let x = execute orig same_candidate execute_one elapsed canceled p (c ∷ []) in
      let h = execute-IsExecuted p c in
      replay x.0 x.1 x.2 (h.same_level ∙ level)
        (λ a as_ z. ap (λ v. execute_one v c) (sym env) ∙ h.ran a as_ z)
        (λ e' q b l v. confirm_from-IsReplayed left s e' q c b l v)
    where
      replay :
          (p' : Prober E) (attempts : List Attempt) (reason : StopReason)
          → p'.pol.strictness ≡ s
          → ((a : Attempt) (as_ : List Attempt)
              → attempts ≡ a ∷ as_
              → execute_one e c ≡ (p'.env, some a))
          → ((e' : E) (q : Prober E) (b : Confirmation)
              → q.pol.strictness ≡ s
              → q.env ≡ e'
              → IsReplayed s c e' b
                  (confirm_from orig same_candidate execute_one elapsed canceled left q c b).1)
          → IsReplayed s c e base
              (elim attempts as (λ _. Prober E × Confirmation) [
                | [] ↦ (
                  p',
                  record base { stop = if truncated reason then reason else stop_world_budget },
                )
                | a ∷ as_ ↦
                    let out' = replayed base (classify p'.pol.strictness orig a).0 a.world_path in
                    let q = note_attempt orig same_candidate execute_one elapsed canceled p' c a in
                    let rest =
                      confirm_from orig same_candidate execute_one elapsed canceled left q c out' in
                    if truncated reason
                    then (q, record out' { stop = reason })
                    else if canceled q.env
                    then (q, record out' { stop = stop_canceled })
                    else rest
              ]).1
      replay p' [] reason l ran ih = no_more s c e base _
      replay p' (a ∷ as_) reason l ran ih =
          let out' = replayed base (classify p'.pol.strictness orig a).0 a.world_path in
          let q = note_attempt orig same_candidate execute_one elapsed canceled p' c a in
          let (same_env, same_level) = note_attempt-same p' c a in
          let onward : (z : Confirmation) → IsReplayed s c p'.env out' z → IsReplayed s c e base z =
            λ z h. one_more s c e p'.env a a.world_path base z (ran a as_ refl) (
              subst
                (λ t. IsReplayed s c p'.env (replayed base (classify t orig a).0 a.world_path) z) l
                h) in
          if_intro (λ (z : Prober E × Confirmation). IsReplayed s c e base z.1) (truncated reason)
            (q, record out' { stop = reason }) _ (λ _. onward _ (no_more s c p'.env out' reason))
            (λ _.
              if_intro (λ (z : Prober E × Confirmation). IsReplayed s c e base z.1) (canceled q.env)
                (q, record out' { stop = stop_canceled }) _
                (λ _. onward _ (no_more s c p'.env out' stop_canceled))
                (λ _. onward _ (ih p'.env q out' (same_level ∙ l) same_env)))
