-- ===== src/Shrink/Ddmin/Shrunk.antt =====
-- What delta debugging returns (internal/shrink/ddmin.go, `DDMin`).
use pro_thesis.Prelude.{
  ℕ, zero, suc, ◌+◌, ◌-◌, ◌*◌, ◌≤◌, ◌<◌, ◌≡◌, ◌≢◌, refl, sym, ap, subst, List, [], ◌∷◌, Bool,
  Option, some, inl, inr, arith, All, Bool-cases,
}
use pro_thesis.Prelude.{if◌then◌else◌, ◌==◌, ltb, length, get_or, if_intro}
use pro_thesis.Shrink.Budget.{StopReason, stop_complete}
use pro_thesis.Shrink.Ddmin.{
  Answer, halt, accept, reject, up_to, without, Round, return, leave, next, round, last_element,
  ddmin_loop, ddmin_fuel, ddmin,
}
use pro_thesis.Shrink.Ddmin.Parts.{IsSelection, up_to-IsSelection, length-up_to}
use pro_thesis.Shrink.Ddmin.Minimal.{IsHonest, IsOneMinimal, measure, Fine, round-Fine}

-- A selection of the indices below `n` of which `P` holds, and if nothing stopped the search, of which
-- it no longer holds when any one element is taken out.
pub record IsShrunk (P : List ℕ → Type 0) (n : ℕ) (c : List ℕ) (s : StopReason) : Type 0 where
  pub selection : IsSelection n c
  pub reproduces : P c
  pub minimal : s ≡ stop_complete → IsOneMinimal P c

module _ {W : Type 0} (test : W → List (List ℕ) → W × Answer) (canceled : W → Bool)
    (P : List ℕ → Type 0) (honest : IsHonest test P) (n : ℕ) where
  abbrev IsDone : W × List ℕ × StopReason → Type 0
  IsDone (w, c, s) = IsShrunk P n c s

  empty_IsOneMinimal : (c : List ℕ) → length c ≡ 0 → IsOneMinimal P c
  empty_IsOneMinimal [] h e m = elim m [ ]
  empty_IsOneMinimal (x ∷ c) h e m = absurd (omega arith)

  one_IsOneMinimal : (c : List ℕ) → length c ≡ 1 → ¬ (P []) → IsOneMinimal P c
  one_IsOneMinimal [] h fails e m = absurd (omega arith)
  one_IsOneMinimal (x ∷ y ∷ c) h fails e m = absurd (omega arith)
  one_IsOneMinimal (x ∷ []) h fails e (inr m) = elim m [ ]
  one_IsOneMinimal (x ∷ []) h fails e (inl q) =
      let s : without (x ∷ []) (e ∷ []) ≡ [] = ground arith in λ p. fails (subst P s p)

  last_by_answer :
      (c : List ℕ) (w : W) (a : Answer)
      → IsSelection n c
      → P c
      → length c ≡ 1
      → a ≢ halt stop_complete
      → ((i : ℕ) → a ≡ accept i → (i < 1) × P (get_or ([] ∷ []) i []))
      → (a ≡ reject → All (λ s. ¬ (P s)) ([] ∷ []))
      → IsDone (elim a as (λ _. W × List ℕ × StopReason) [
        | halt s ↦ (w, c, s)
        | accept i ↦ (w, (if i == 0 then [] else c), stop_complete)
        | reject ↦ (w, c, stop_complete)
      ])
  last_by_answer c w (halt s) sel p one h a r = record {
    selection = sel;
    reproduces = p;
    minimal = λ e. absurd (h (ap halt e));
  }
  last_by_answer c w (accept zero) sel p one h a r = record {
    selection = (tt, tt);
    reproduces = (a 0 refl).1;
    minimal = λ _ e m. elim m [ ];
  }
  last_by_answer c w (accept (suc i)) sel p one h a r = absurd (omega (arith, (a (suc i) refl).0))
  last_by_answer c w reject sel p one h a r = record {
    selection = sel;
    reproduces = p;
    minimal = λ _. one_IsOneMinimal c one (r refl).0;
  }

  last_element-IsShrunk :
      (w : W) (c : List ℕ)
      → IsSelection n c
      → P c
      → (2 ≤ length c → IsOneMinimal P c)
      → IsDone (last_element test canceled w c)
  unfolding last_element
  last_element-IsShrunk w c sel p min =
      if_intro IsDone (length c == 1) _ (w, c, stop_complete)
        (λ e.
          last_by_answer c (test w ([] ∷ [])).0 (test w ([] ∷ [])).1 sel p (ground arith)
            (honest.halts w ([] ∷ [])) (honest.accepts w ([] ∷ [])) (honest.rejects w ([] ∷ [])))
        (λ e. record {
          selection = sel;
          reproduces = p;
          minimal = λ _. elim (Bool-cases (ltb (length c) 2)) [
            | inl few ↦ empty_IsOneMinimal c (ground arith)
            | inr many ↦ min (ground arith)
          ];
        })

  -- The loop with this much fuel ends, with a right result.
  abbrev Ends : ℕ → Type 0
  Ends fuel =
      (w : W) (c : List ℕ) (gran : ℕ)
      → IsSelection n c
      → P c
      → 2 ≤ gran
      → length c ≤ n
      → measure n c gran < fuel
      → (r : W × List ℕ × StopReason) × (ddmin_loop test canceled fuel w c gran ≡ some r) × IsDone r

  after_round :
      (fuel m : ℕ) (c : List ℕ) (x : Round W)
      → IsSelection n c
      → P c
      → m < suc fuel
      → Ends fuel
      → Fine test canceled P honest n m c x
      → (r : W × List ℕ × StopReason) × (◌≡◌ {A = Option (W × List ℕ × StopReason)}
          (elim x as (λ _. Option (W × List ℕ × StopReason)) [
            | return w' c' s ↦ some (w', c', s)
            | leave w' ↦ some (last_element test canceled w' c)
            | next w' c' gran' ↦ ddmin_loop test canceled fuel w' c' gran'
          ])
          (some r))
        × IsDone r
  after_round fuel m c (return w' c' s) sel p lt ends (e, h) = (
    (w', c', s),
    refl,
    record {
      selection = subst (IsSelection n) (sym e) sel;
      reproduces = subst P (sym e) p;
      minimal = λ q. absurd (h q);
    },
  )
  after_round fuel m c (leave w') sel p lt ends h =
      (_, refl, last_element-IsShrunk w' c sel p (λ _. h))
  after_round fuel m c (next w' c' gran') sel p lt ends (sel', p', h2', hn', less) =
      ends w' c' gran' sel' p' h2' hn' (omega arith)

  ddmin_loop-IsShrunk : (fuel : ℕ) → Ends fuel
  unfolding ddmin_loop
  ddmin_loop-IsShrunk zero w c gran sel p h2 hn lt = absurd (omega arith)
  ddmin_loop-IsShrunk (suc fuel) w c gran sel p h2 hn lt = elim (Bool-cases (ltb (length c) 2)) [
    | inl few ↦ (
      last_element test canceled w c,
      rw few refl,
      last_element-IsShrunk w c sel p (λ h. absurd (ground arith)),
    )
    | inr many ↦ rw many (
        after_round fuel (measure n c gran) c (round test canceled w c gran) sel p lt
          (ddmin_loop-IsShrunk fuel)
          (round-Fine test canceled P honest n w c gran sel p h2 (ground arith) hn))
  ]

  -- If the test judges subsets honestly by a predicate that holds of all the indices, then delta
  -- debugging returns within its fuel: rising indices of which the predicate holds, also when it was
  -- stopped early, and where it was not, no single one of them can be taken out.
  pub ddmin-IsShrunk :
      (w : W)
      → P (up_to n 0)
      → (r : W × List ℕ × StopReason) × (ddmin test canceled w n ≡ some r) × IsShrunk P n r.1 r.2
  unfolding ddmin ddmin_fuel
  ddmin-IsShrunk w p = elim (Bool-cases (n == 0)) [
    | inl e ↦
        let z : n ≡ 0 = ground arith in
        (
          (w, [], stop_complete),
          rw e refl,
          record {
            selection = (tt, tt);
            reproduces = subst (λ k. P (up_to k 0)) z p;
            minimal = λ _ k m. elim m [ ];
          },
        )
    | inr e ↦ rw e (
        ddmin_loop-IsShrunk (ddmin_fuel n) w (up_to n 0) 2 (up_to-IsSelection n) p (omega arith)
          (omega (arith, length-up_to n 0))
          (subst (λ k. k * (n + 1) + (k - 2) < ddmin_fuel n) (sym (length-up_to n 0))
            (omega arith)))
  ]
