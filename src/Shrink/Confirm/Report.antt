-- ===== src/Shrink/Confirm/Report.antt =====
-- What is reported of a confirmation (internal/shrink/confirm.go, `minimalRepro`).
use pro_thesis.Prelude.{
  ℕ, ◌≤◌, ◌≡◌, ◌≢◌, ◌↔◌, ◌⊎◌, inl, inr, refl, sym, ap, ◌∙◌, subst, List, Bool, true, false, not,
  ◌||◌, Option, none, some, String, str_eq, str_eq_iff, arith,
}
use pro_thesis.Prelude.{◌==◌, ltb, length, All, Bool-cases}
use pro_thesis.Prelude.Int.{ℤ, pos}
use pro_thesis.Shrink.Identity.{Identity}
use pro_thesis.Shrink.Attempt.{Candidate, Attempt}
use pro_thesis.Shrink.Attempt.Shown.{shows, number, number-eq_zero}
use pro_thesis.Shrink.Prober.{Prober}
use pro_thesis.Shrink.Confirm.{Confirmation, confirm, minimal_repro, has_run}
use pro_thesis.Shrink.Confirm.Replays.{executions}
use pro_thesis.Shrink.Confirm.Counts.{IsCounted, confirm-IsCounted}

true-false : true ≢ false
true-false e = ground arith

no_repro : (t r : ℕ) → r ≤ t → (not (ltb 0 t) || r == 0) ≡ true → r ≡ 0
no_repro t r h e = ground arith

a_repro : (t r : ℕ) → r ≡ 0 → (not (ltb 0 t) || r == 0) ≡ true
a_repro t r e = ground arith

some_repro : (t r : ℕ) → (not (ltb 0 t) || r == 0) ≡ false → 1 ≤ r
some_repro t r e = ground arith

-- The two outcomes of `minimalRepro`.
minimal_repro_cases :
    (world : String) (c : Confirmation)
    → c.reproduced ≤ c.trials
    → ((minimal_repro world c ≡ none) × ((world ≡ "") ⊎ (c.reproduced ≡ 0)))
      ⊎ ((minimal_repro world c ≡ some (world, c.reproduced, c.trials))
          × (world ≢ "")
          × (1 ≤ c.reproduced))
unfolding minimal_repro
minimal_repro_cases world c h = elim (Bool-cases (str_eq world "")) [
  | inl e ↦ inl (rw e refl, inl ((str_eq_iff world "").0 e))
  | inr e ↦ elim (Bool-cases (not (has_run c) || c.reproduced == 0)) [
    | inl q ↦ inl (rw (e, q) refl, inr (no_repro c.trials c.reproduced h q))
    | inr q ↦ inr (
      rw (e, q) refl,
      λ z. true-false (sym ((str_eq_iff world "").1 z) ∙ e),
      some_repro c.trials c.reproduced q,
    )
  ]
]

none-some : (o : Option (String × ℕ × ℕ)) (x : String × ℕ × ℕ) → o ≡ some x → o ≢ none
none-some o x e n = absurd (ground arith)

some_inj3 : (x y : String × ℕ × ℕ) → some x ≡ some y → y ≡ x
some_inj3 x y e = ap (λ z. elim z [ none ↦ x | some v ↦ v ]) (sym e)

reported :
    (test : Attempt → Bool) (world : String) (k : ℕ) (out : Confirmation) (runs : List Attempt)
    → IsCounted k out
    → length runs ≡ out.trials
    → out.reproduced ≡ number test runs
    → ((minimal_repro world out ≡ none) ↔ ((world ≡ "") ⊎ All (λ a. test a ≡ false) runs))
      × ((x : String × ℕ × ℕ)
          → minimal_repro world out ≡ some x
          → (x ≡ (world, number test runs, length runs)) × (1 ≤ x.1) × (x.2 ≤ k))
reported test world k out runs h ran shown =
    let zero_iff = number-eq_zero test runs in
    elim (minimal_repro_cases world out (omega (arith, h.counts))) [
      | inl (none_is, why) ↦ (
        (λ _. elim why [ inl e ↦ inl e | inr z ↦ inr (zero_iff.0 (sym shown ∙ z)) ], λ _. none_is),
        λ x e. absurd (none-some _ x e none_is),
      )
      | inr (some_is, named, least) ↦ (
        (
          λ e. absurd (none-some _ _ some_is e),
          λ why. elim why [
            | inl e ↦ absurd (named e)
            | inr z ↦ absurd (omega (arith, least, shown, zero_iff.1 z))
          ],
        ),
        λ x e.
            let same = some_inj3 _ x (sym some_is ∙ e) in
            (
              same
                  ∙ ap (λ r. (world, r, out.trials)) shown
                  ∙ ap (λ t. (world, number test runs, t)) (sym ran),
              subst (λ y. 1 ≤ y.1) (sym same) least,
              subst (λ y. y.2 ≤ k) (sym same) h.at_most,
            ),
      )
    ]

module _ {E : Type 0} (orig : Identity) (same_candidate : Candidate → Candidate → Bool)
    (execute_one : E → Candidate → E × Option Attempt) (elapsed : E → ℤ) (canceled : E → Bool) where
  -- What is reported of a confirmation by a gate of k replays: no minimal repro exactly where no world is
  -- named or none of the executions that ran observed a match; and otherwise the named world, with the
  -- number of those executions that did, at least one, and the number of all of them, at most k.
  pub minimal_repro-confirm :
      (p : Prober E) (c : Candidate) (k : ℕ) (world : String)
      → let out = (confirm orig same_candidate execute_one elapsed canceled p c (pos k)).1 in
        let runs = executions orig same_candidate execute_one elapsed canceled out.trials p.env c in
        let s = p.pol.strictness in
        ((minimal_repro world out ≡ none) ↔ ((world ≡ "") ⊎ All (λ a. shows s orig a ≡ false) runs))
        × ((x : String × ℕ × ℕ)
            → minimal_repro world out ≡ some x
            → (x ≡ (world, number (shows s orig) runs, length runs)) × (1 ≤ x.1) × (x.2 ≤ k))
  minimal_repro-confirm p c k world =
      let (h, t, _) = confirm-IsCounted orig same_candidate execute_one elapsed canceled p c k in
      reported (shows p.pol.strictness orig) world k _ _ h t.ran t.reproduced
