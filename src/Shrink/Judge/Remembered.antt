-- ===== src/Shrink/Judge/Remembered.antt =====
-- What the answers of the cache of `firstReproducing` (internal/shrink/probe.go) rest on.
use pro_thesis.Prelude.{
  ℕ, suc, ◌+◌, ◌≤◌, ◌<◌, ◌≡◌, inl, inr, refl, sym, ap, ◌∙◌, subst, List, [], ◌∷◌, ◌++◌, Bool,
  Option, none, some, arith,
}
use pro_thesis.Prelude.{if◌then◌else◌, if_intro, get_or, set, All, Bool-cases}
use pro_thesis.Prelude.Int.{ℤ}
use pro_thesis.Shrink.Identity.{Identity, Strictness}
use pro_thesis.Shrink.Attempt.{Candidate, Attempt}
use pro_thesis.Shrink.Prober.{Prober, Decision, is_reproduced}
use pro_thesis.Shrink.Prober.Shown.{IsMeasure, worth, EntriesRest}
use pro_thesis.Shrink.Judge.{no_decision, no_candidate, find_cached, cached, look_up}
use pro_thesis.Shrink.Judge.Passes.{Rising, All-widen, All-snoc, Rising-snoc, none-some, some_inj}
use pro_thesis.Shrink.Judge.Shown.{set-DecisionsRest}

module _ {E : Type 0} (orig : Identity) (same_candidate : Candidate → Candidate → Bool)
    (execute_one : E → Candidate → E × Option Attempt) (elapsed : E → ℤ) (canceled : E → Bool)
    (shown : Strictness → Candidate → E → ℕ)
    (m : IsMeasure orig same_candidate execute_one shown) where
  abbrev value : Prober E → Candidate → ℕ
  value p c = worth orig same_candidate execute_one elapsed canceled shown m p c

  abbrev Entries : Prober E → Type 0
  Entries p = EntriesRest orig same_candidate execute_one elapsed canceled shown m p

  -- The reproductions of the decisions, and of the tallies, are executions that showed the violation.
  abbrev DecisionsRest : Prober E → List Candidate → List Decision → Type 0
  DecisionsRest p cs ds =
      (i : ℕ) → (get_or ds i no_decision).reproduced ≤ value p (get_or cs i no_candidate)

  find_cached-rest :
      (p : Prober E) (cache : List (Candidate × Decision)) (c : Candidate) (d : Decision)
      → All (λ x. (x.1).reproduced ≤ value p x.0) cache
      → find_cached orig same_candidate execute_one elapsed canceled cache c ≡ some d
      → d.reproduced ≤ value p c
  unfolding find_cached
  find_cached-rest p [] c d h e = absurd (ground arith)
  find_cached-rest p ((k, x) ∷ cache) c d h e = elim (Bool-cases (same_candidate k c)) [
    | inl q ↦
        let same = some_inj x d (
          ap
            (λ b.
              if b
              then some x
              else find_cached orig same_candidate execute_one elapsed canceled cache c)
            (sym q)
          ∙ e) in
        subst (λ z. z.reproduced ≤ value p c) same
          (omega (arith, h.0, m.shared p.pol.strictness k c p.env q))
    | inr q ↦ find_cached-rest p cache c d h.1 (
        ap
          (λ b.
            if b
            then some x
            else find_cached orig same_candidate execute_one elapsed canceled cache c)
          (sym q)
        ∙ e)
  ]

  cached-rest :
      (p : Prober E) (c : Candidate) (d : Decision)
      → Entries p
      → cached orig same_candidate execute_one elapsed canceled p c ≡ some d
      → d.reproduced ≤ value p c
  unfolding cached
  cached-rest p c d h e = elim (Bool-cases p.pol.disable_cache) [
    | inl q ↦ absurd (
        none-some d (
          ap
            (λ b.
              if b
              then none
              else find_cached orig same_candidate execute_one elapsed canceled p.cache c)
            (sym q)
          ∙ e))
    | inr q ↦ find_cached-rest p p.cache c d h (
        ap
          (λ b.
            if b
            then none
            else find_cached orig same_candidate execute_one elapsed canceled p.cache c)
          (sym q)
        ∙ e)
  ]

  -- The answer of the cache for the candidates from `i` on, all of which are `all`.
  pub record IsLookedUp (p : Prober E) (all : List Candidate)
      (x : Option ℕ × List Decision × List ℕ) : Type 0 where
    pub decisions : DecisionsRest p all x.1
    pub rising : Rising x.2

  pub look_up-IsLookedUp :
      (p : Prober E) (all cs : List Candidate) (i : ℕ) (ds : List Decision) (pending : List ℕ)
      → Entries p
      → ((k : ℕ) → get_or cs k no_candidate ≡ get_or all (i + k) no_candidate)
      → DecisionsRest p all ds
      → Rising pending
      → All (λ j. j < i) pending
      → IsLookedUp p all
          (look_up orig same_candidate execute_one elapsed canceled p cs i ds pending)
  unfolding look_up
  look_up-IsLookedUp p all [] i ds pending h at q rise small = record {
    decisions = q;
    rising = rise;
  }
  look_up-IsLookedUp p all (c ∷ cs) i ds pending h at q rise small =
      found (cached orig same_candidate execute_one elapsed canceled p c)
        (λ d x. cached-rest p c d h x)
        (λ ds' pending' q' rise' small'.
          look_up-IsLookedUp p all cs (i + 1) ds' pending' h
            (λ k. at (suc k) ∙ ap (λ n. get_or all n no_candidate) (shift i k)) q' rise' small')
    where
      shift : (a b : ℕ) → a + suc b ≡ a + 1 + b
      shift a b = omega arith

      here : c ≡ get_or all i no_candidate
      here = at 0 ∙ ap (λ n. get_or all n no_candidate) (omega arith)

      found :
          (x : Option Decision)
          → ((d : Decision) → x ≡ some d → d.reproduced ≤ value p c)
          → ((ds' : List Decision) (pending' : List ℕ)
              → DecisionsRest p all ds'
              → Rising pending'
              → All (λ j. j < i + 1) pending'
              → IsLookedUp p all (
                  look_up orig same_candidate execute_one elapsed canceled p cs
                    (i + 1)
                    ds'
                    pending'))
          → IsLookedUp p all (elim x as (λ _. Option ℕ × List Decision × List ℕ) [
            | none ↦
                look_up orig same_candidate execute_one elapsed canceled p cs
                  (i + 1)
                  ds
                  (pending ++ (i ∷ []))
            | some d ↦
                let rest =
                  look_up orig same_candidate execute_one elapsed canceled p cs
                    (i + 1)
                    (set ds i d)
                    pending in
                if is_reproduced d.signal then (some i, set ds i d, pending) else rest
          ])
      found none s ih = ih ds (pending ++ (i ∷ [])) q (Rising-snoc pending i rise small) (
          All-snoc (λ j. j < i + 1) pending i (All-widen i (i + 1) pending (omega arith) small)
            (omega arith))
      found (some d) s ih =
          let q' =
            set-DecisionsRest orig same_candidate execute_one elapsed canceled shown m p all ds i d
              (subst (λ z. d.reproduced ≤ value p z) here (s d refl)) q in
          if_intro (IsLookedUp p all) (is_reproduced d.signal) (some i, set ds i d, pending) _
            (λ hit. record { decisions = q'; rising = rise })
            (λ _. ih (set ds i d) pending q' rise (All-widen i (i + 1) pending (omega arith) small))
