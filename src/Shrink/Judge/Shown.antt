-- ===== src/Shrink/Judge/Shown.antt =====
-- What the counts of the rounds of `firstReproducing` (internal/shrink/probe.go) rest on: executions that
-- showed the violation.
use pro_thesis.Prelude.{
  ℕ, zero, suc, ◌+◌, ◌≤◌, ◌<◌, ◌≡◌, ◌≢◌, refl, sym, ap, ◌∙◌, subst, List, [], ◌∷◌, map, Bool, not,
  Option, String, arith,
}
use pro_thesis.Prelude.{if◌then◌else◌, if_intro, get_or, set, All, get_or-set_ne}
use pro_thesis.Prelude.Int.{ℤ, pos, ltb_ℤ}
use pro_thesis.Shrink.Budget.{StopReason, truncated}
use pro_thesis.Shrink.Identity.{Identity, Strictness}
use pro_thesis.Shrink.Policy.{Policy}
use pro_thesis.Shrink.Attempt.{
  Candidate, Attempt, Signal, signal_unknown, signal_reproduced, signal_different, signal_clean,
  classify,
}
use pro_thesis.Shrink.Attempt.Shown.{shows, one_if, classify-IsJudgement}
use pro_thesis.Shrink.Prober.{Prober, Decision, is_reproduced, note_attempt}
use pro_thesis.Shrink.Prober.Shown.{
  IsMeasure, worth, EntriesRest, Follows, Follows-refl, Follows-trans, IsMoved, IsMoved-Follows,
  IsSame, AreShown, note_attempt-IsSame,
}
use pro_thesis.Shrink.Judge.{
  Tally, new_tally, observe, decision_of, no_decision, Settled, no_candidate, memo, note_all,
  observe_all, settle, leave_pending,
}
use pro_thesis.Shrink.Judge.Passes.{Rising}

no_more : (n : ℕ) → n ≡ n + 0
no_more n = omega arith

-- Each execution that reproduces counts once, and no other counts.
observe-reproduced :
    (t : Tally) (sig : Signal) (world : String) (pol : Policy)
    → (observe t sig world pol).reproduced ≡ t.reproduced + one_if (is_reproduced sig)
unfolding observe
observe-reproduced t signal_reproduced world pol =
    if_intro (λ (u : Tally). u.reproduced ≡ t.reproduced + 1) _ _ _ (λ _. refl) (λ _. refl)
observe-reproduced t signal_unknown world pol =
    if_intro (λ (u : Tally). u.reproduced ≡ t.reproduced + 0)
      (ltb_ℤ pol.unknown_retries (pos (t.unknowns + 1))) _ _ (λ _. no_more t.reproduced)
      (λ _. no_more t.reproduced)
observe-reproduced t signal_different world pol = omega arith
observe-reproduced t signal_clean world pol = omega arith

-- A statement on every entry, by its index, after a write.
get_or-set :
    {A : Type 0} (P : ℕ → A → Type 0) (xs : List A) (i : ℕ) (v d : A)
    → P i v
    → ((j : ℕ) → P j (get_or xs j d))
    → (j : ℕ) → P j (get_or (set xs i v) j d)
get_or-set P [] i v d p h j = h j
get_or-set P (x ∷ xs) zero v d p h zero = p
get_or-set P (x ∷ xs) zero v d p h (suc j) = h (suc j)
get_or-set P (x ∷ xs) (suc i) v d p h zero = h zero
get_or-set P (x ∷ xs) (suc i) v d p h (suc j) =
    get_or-set (λ k. P (suc k)) xs i v d p (λ k. h (suc k)) j

module _ {E : Type 0} (orig : Identity) (same_candidate : Candidate → Candidate → Bool)
    (execute_one : E → Candidate → E × Option Attempt) (elapsed : E → ℤ) (canceled : E → Bool)
    (shown : Strictness → Candidate → E → ℕ)
    (m : IsMeasure orig same_candidate execute_one shown) where
  abbrev pub value : Prober E → Candidate → ℕ
  value p c = worth orig same_candidate execute_one elapsed canceled shown m p c

  abbrev pub Entries : Prober E → Type 0
  Entries p = EntriesRest orig same_candidate execute_one elapsed canceled shown m p

  abbrev pub Then : Prober E → Prober E → Type 0
  Then p q = Follows orig same_candidate execute_one elapsed canceled shown m p q

  abbrev pub Same : Prober E → Prober E → Type 0
  Same p q = IsSame orig same_candidate execute_one elapsed canceled shown m p q

  -- The reproductions of the decisions, and of the tallies, are executions that showed the violation.
  abbrev pub DecisionsRest : Prober E → List Candidate → List Decision → Type 0
  DecisionsRest p cs ds =
      (i : ℕ) → (get_or ds i no_decision).reproduced ≤ value p (get_or cs i no_candidate)

  abbrev pub TalliesRest : Prober E → List Candidate → List Tally → Type 0
  TalliesRest p cs ts =
      (i : ℕ) → (get_or ts i new_tally).reproduced ≤ value p (get_or cs i no_candidate)

  pub Then-decisions :
      (p q : Prober E) (cs : List Candidate) (ds : List Decision)
      → Then p q
      → DecisionsRest p cs ds
      → DecisionsRest q cs ds
  Then-decisions p q cs ds f h i = omega (arith, f.grew (get_or cs i no_candidate), h i)

  pub Then-tallies :
      (p q : Prober E) (cs : List Candidate) (ts : List Tally)
      → Then p q
      → TalliesRest p cs ts
      → TalliesRest q cs ts
  Then-tallies p q cs ts f h i = omega (arith, f.grew (get_or cs i no_candidate), h i)

  pub set-DecisionsRest :
      (p : Prober E) (cs : List Candidate) (ds : List Decision) (i : ℕ) (d : Decision)
      → d.reproduced ≤ value p (get_or cs i no_candidate)
      → DecisionsRest p cs ds
      → DecisionsRest p cs (set ds i d)
  set-DecisionsRest p cs ds i d q h =
      get_or-set (λ j x. x.reproduced ≤ value p (get_or cs j no_candidate)) ds i d no_decision q h

  memo-Then :
      (p : Prober E) (c : Candidate) (d : Decision)
      → d.reproduced ≤ value p c
      → Then p (memo orig same_candidate execute_one elapsed canceled p c d)
  unfolding memo
  memo-Then p c d h =
      if_intro (Then p) _ p (record p { cache = (c, d) ∷ p.cache })
        (λ _. Follows-refl orig same_candidate execute_one elapsed canceled shown m p)
        (λ _. record { grew = λ e. omega arith; rest = λ x. (h, x) })

  pub trans : (p q u : Prober E) → Then p q → Then q u → Then p u
  trans p q u f g = Follows-trans orig same_candidate execute_one elapsed canceled shown m p q u f g

  pub leave_pending-rest :
      (p : Prober E) (cs : List Candidate) (ts : List Tally) (is : List ℕ) (ds : List Decision)
      (stop : StopReason)
      → TalliesRest p cs ts
      → DecisionsRest p cs ds
      → let x = leave_pending orig same_candidate execute_one elapsed canceled p cs ts is ds stop in
        Then p x.0 × DecisionsRest x.0 cs x.1
  unfolding leave_pending
  leave_pending-rest p cs ts [] ds stop t h =
      (Follows-refl orig same_candidate execute_one elapsed canceled shown m p, h)
  leave_pending-rest p cs ts (i ∷ is) ds stop t h =
      let d0 = decision_of (get_or ts i new_tally) (truncated stop) in
      let d = if is_reproduced d0.signal then record d0 { signal = signal_unknown } else d0 in
      let c = get_or cs i no_candidate in
      let q = memo orig same_candidate execute_one elapsed canceled p c d in
      let le : d.reproduced ≤ value p c =
        if_intro (λ (z : Decision). z.reproduced ≤ value p c) (is_reproduced d0.signal) _ d0
          (λ _. t i) (λ _. t i) in
      let f = memo-Then p c d le in
      let (g, k) =
        leave_pending-rest q cs ts is (set ds i d) stop (Then-tallies p q cs ts f t)
          (Then-decisions p q cs (set ds i d) f (set-DecisionsRest p cs ds i d le h)) in
      (trans p q _ f g, k)

  pub moved :
      (p q : Prober E)
      → IsMoved orig same_candidate execute_one elapsed canceled shown m p q
      → Then p q
  moved p q h = IsMoved-Follows orig same_candidate execute_one elapsed canceled shown m p q h

  pub record IsSettling (p : Prober E) (cs : List Candidate) (is : List ℕ) (s : Settled E)
      : Type 0 where
    pub then_on : Then p s.prober
    pub decisions : DecisionsRest s.prober cs s.decisions
    pub bounded : (k : ℕ) → All (λ j. k < j) is → All (λ j. k < j) s.next
    pub rising : Rising is → Rising s.next

  pub settle-IsSettling :
      (p : Prober E) (cs : List Candidate) (ts : List Tally) (is : List ℕ) (ds : List Decision)
      → TalliesRest p cs ts
      → DecisionsRest p cs ds
      → IsSettling p cs is (settle orig same_candidate execute_one elapsed canceled p cs ts is ds)
  unfolding settle
  settle-IsSettling p cs ts [] ds t h = record {
    then_on = Follows-refl orig same_candidate execute_one elapsed canceled shown m p;
    decisions = h;
    bounded = λ k x. x;
    rising = λ x. x;
  }
  settle-IsSettling p cs ts (i ∷ is) ds t h =
      let u = get_or ts i new_tally in
      let d = decision_of u (not u.done) in
      let c = get_or cs i no_candidate in
      let q = memo orig same_candidate execute_one elapsed canceled p c d in
      let f = memo-Then p c d (t i) in
      let h' = set-DecisionsRest p cs ds i d (t i) h in
      let a =
        settle-IsSettling q cs ts is (set ds i d) (Then-tallies p q cs ts f t)
          (Then-decisions p q cs (set ds i d) f h') in
      let b = settle-IsSettling p cs ts is (set ds i d) t h' in
      if_intro (IsSettling p cs (i ∷ is)) u.done _ _
        (λ _. record {
          then_on = trans p q _ f a.then_on;
          decisions = a.decisions;
          bounded = λ k x. a.bounded k x.1;
          rising = λ x. a.rising x.1;
        })
        (λ _. record {
          then_on = b.then_on;
          decisions = b.decisions;
          bounded = λ k x. (x.0, b.bounded k x.1);
          rising = λ x. (b.bounded i x.0, b.rising x.1);
        })

  Same-trans : (p q u : Prober E) → Same p q → Same q u → Same p u
  Same-trans p q u f g = record {
    env = g.env ∙ f.env;
    level = g.level ∙ f.level;
    cache = g.cache ∙ f.cache;
  }

  Same-refl : (p : Prober E) → Same p p
  Same-refl p = record { env = refl; level = refl; cache = refl }

  pub note_all-Same :
      (p : Prober E) (cs : List Candidate) (as_ : List Attempt)
      → Same p (note_all orig same_candidate execute_one elapsed canceled p cs as_)
  unfolding note_all
  note_all-Same p [] as_ = Same-refl p
  note_all-Same p (c ∷ cs) [] = Same-refl p
  note_all-Same p (c ∷ cs) (a ∷ as_) =
      let q = note_attempt orig same_candidate execute_one elapsed canceled p c a in
      Same-trans p q _
        (note_attempt-IsSame orig same_candidate execute_one elapsed canceled shown m p c a)
        (note_all-Same q cs as_)

  -- The tallies at a level and in a state of the environment.
  abbrev pub TalliesAt : Strictness → E → List Candidate → List Tally → Type 0
  TalliesAt s e cs ts =
      (i : ℕ) → (get_or ts i new_tally).reproduced ≤ shown s (get_or cs i no_candidate) e

  -- What is still to be observed is counted up to an earlier state.
  abbrev pub Earlier : Strictness → E → List Candidate → List Tally → List ℕ → Type 0
  Earlier s e cs ts is =
      All (λ i. (get_or ts i new_tally).reproduced ≤ shown s (get_or cs i no_candidate) e) is

  Earlier-set :
      (s : Strictness) (e : E) (cs : List Candidate) (ts : List Tally) (i : ℕ) (t : Tally)
      (is : List ℕ)
      → All (λ j. i < j) is
      → Earlier s e cs ts is
      → Earlier s e cs (set ts i t) is
  Earlier-set s e cs ts i t [] above h = tt
  Earlier-set s e cs ts i t (j ∷ is) above h = (
    subst (λ u. u.reproduced ≤ shown s (get_or cs j no_candidate) e)
        (sym (get_or-set_ne ts t new_tally (apart i j above.0))) h.0,
    Earlier-set s e cs ts i t is above.1 h.1,
  )
    where
      apart : (a b : ℕ) → a < b → a ≢ b
      apart a b lt q = absurd (omega arith)

  pub observe_all-rest :
      (s : Strictness) (e0 e : E) (p : Prober E) (cs : List Candidate) (is : List ℕ)
      (as_ : List Attempt) (ts : List Tally)
      → p.pol.strictness ≡ s
      → Rising is
      → TalliesAt s e cs ts
      → Earlier s e0 cs ts is
      → AreShown orig same_candidate execute_one elapsed canceled shown m e0 e
          (map (λ i. get_or cs i no_candidate) is)
          as_
      → let x =
          observe_all orig same_candidate execute_one elapsed canceled p
            (map (λ i. get_or cs i no_candidate) is)
            is
            as_
            ts in
        Same p x.0 × TalliesAt s e cs x.1
  unfolding observe_all
  observe_all-rest s e0 e p cs [] as_ ts level rise t early h = (Same-refl p, t)
  observe_all-rest s e0 e p cs (i ∷ is) [] ts level rise t early h = (Same-refl p, t)
  observe_all-rest s e0 e p cs (i ∷ is) (a ∷ as_) ts level rise t early h =
      let c = get_or cs i no_candidate in
      let sig = (classify p.pol.strictness orig a).0 in
      let q = note_attempt orig same_candidate execute_one elapsed canceled p c a in
      let old = get_or ts i new_tally in
      let u = observe old sig a.world_path q.pol in
      let same =
        note_attempt-IsSame orig same_candidate execute_one elapsed canceled shown m p c a in
      let j = classify-IsJudgement p.pol.strictness orig a in
      let one : one_if (is_reproduced sig) ≡ one_if (shows s orig a) =
        ap one_if (j.reproduced ∙ ap (λ z. shows z orig a) level) in
      let le : u.reproduced ≤ shown s c e =
        omega (arith, observe-reproduced old sig a.world_path q.pol, one, early.0, h.0 s) in
      let (f, g) =
        observe_all-rest s e0 e q cs is as_ (set ts i u) (same.level ∙ level) rise.1
          (get_or-set (λ k x. x.reproduced ≤ shown s (get_or cs k no_candidate) e) ts i u new_tally
            le t)
          (Earlier-set s e0 cs ts i u is rise.0 early.1) h.1 in
      (Same-trans p q _ same f, g)
