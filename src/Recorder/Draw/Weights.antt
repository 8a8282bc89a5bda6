-- ===== src/Recorder/Draw/Weights.antt =====
-- Which index a weighted draw of internal/recorder/prng.go picks.
use pro_thesis.Prelude.{
  ℕ, suc, ◌+◌, ◌-◌, ◌%◌, ◌^◌, ◌≤◌, ◌<◌, ◌≡◌, refl, sym, ◌∙◌, subst, List, [], ◌∷◌, true, false,
  Option, none, some, arith,
}
use pro_thesis.Prelude.{if◌then◌else◌, if_intro, ltb, length, take, get_or}
use pro_thesis.Recorder.Draw.{total_weight, pick_weight}

abbrev pub sum : List ℕ → ℕ
sum [] = 0
sum (x ∷ w) = x + sum w

-- The draw `r` lies within the weight of the index `i`, in the order of the weights.
pub record IsPicked (w : List ℕ) (r i : ℕ) : Type 0 where
  pub within : i < length w
  pub from_here : sum (take i w) ≤ r
  pub to_here : r < sum (take i w) + get_or w i 0

total_weight-sum : (w : List ℕ) (t : ℕ) → t + sum w < 2 ^ 64 → total_weight w t ≡ t + sum w
unfolding total_weight
total_weight-sum [] t h = omega arith
total_weight-sum (x ∷ w) t h =
    let e : (t + x) % 2 ^ 64 ≡ t + x = omega arith in
    rw e (total_weight-sum w (t + x) (omega arith) ∙ omega arith)

below : (r n : ℕ) → ltb r n ≡ true → r < n
below r n e = ground arith

not_below : (r n : ℕ) → ltb r n ≡ false → n ≤ r
not_below r n e = ground arith

-- The index of a draw below `acc` and what is left.
abbrev IsPick : List ℕ → ℕ → ℕ → ℕ → Option ℕ → Type 0
IsPick w r acc i none = ⊥
IsPick w r acc i (some k) = (i ≤ k) × (acc ≤ r) × IsPicked w (r - acc) (k - i)

IsPick-here :
    (x : ℕ) (w : List ℕ) (r acc i : ℕ) → acc ≤ r → r < acc + x → IsPick (x ∷ w) r acc i (some i)
IsPick-here x w r acc i low high =
    let e : i - i ≡ 0 = omega arith in
    (
      omega arith,
      low,
      subst (IsPicked (x ∷ w) (r - acc)) (sym e)
          (record { within = omega arith; from_here = omega arith; to_here = omega arith }),
    )

IsPick-later :
    (x : ℕ) (w : List ℕ) (r acc i : ℕ) (o : Option ℕ)
    → IsPick w r (acc + x) (i + 1) o
    → IsPick (x ∷ w) r acc i o
IsPick-later x w r acc i none h = h
IsPick-later x w r acc i (some k) (le, low, h) =
    let e : k - i ≡ suc (k - (i + 1)) = omega arith in
    (
      omega arith,
      omega arith,
      subst (IsPicked (x ∷ w) (r - acc)) (sym e) (record {
        within = omega (arith, h.within);
        from_here = omega (arith, h.from_here);
        to_here = omega (arith, h.to_here);
      }),
    )

pick_weight-IsPick :
    (w : List ℕ) (r acc i : ℕ)
    → acc + sum w < 2 ^ 64
    → acc ≤ r
    → r < acc + sum w
    → IsPick w r acc i (pick_weight w r acc i)
unfolding pick_weight
pick_weight-IsPick [] r acc i h low high = absurd (omega arith)
pick_weight-IsPick (x ∷ w) r acc i h low high =
    let e : (acc + x) % 2 ^ 64 ≡ acc + x = omega arith in
    subst
      (λ next. IsPick (x ∷ w) r acc i (if ltb r next then some i else pick_weight w r next (i + 1)))
      (sym e)
      (if_intro (IsPick (x ∷ w) r acc i) (ltb r (acc + x)) (some i)
        (pick_weight w r (acc + x) (i + 1)) (λ q. IsPick-here x w r acc i low (below r (acc + x) q))
        (λ q. IsPick-later x w r acc i _ (
          pick_weight-IsPick w r (acc + x) (i + 1) (omega arith) (not_below r (acc + x) q)
            (omega arith))))

found_pick :
    (w : List ℕ) (r : ℕ) (o : Option ℕ) → IsPick w r 0 0 o → (i : ℕ) × (o ≡ some i) × IsPicked w r i
found_pick w r none h = elim h [ ]
found_pick w r (some i) (a, b, h) =
    let e : i - 0 ≡ i = omega arith in
    let q : r - 0 ≡ r = omega arith in
    (i, refl, subst (IsPicked w r) e (subst (λ z. IsPicked w z (i - 0)) q h))

-- For weights whose sum is below 2 ^ 64 the total is their sum, and every draw below it picks an index: the one in
-- whose weight the draw lies when the weights are laid end to end. So each index is picked by as many draws as
-- it weighs.
pub pick_weight-IsPicked :
    (w : List ℕ) (r : ℕ)
    → sum w < 2 ^ 64
    → r < total_weight w 0
    → (total_weight w 0 ≡ sum w) × ((i : ℕ) × (pick_weight w r 0 0 ≡ some i) × IsPicked w r i)
pick_weight-IsPicked w r h lt =
    let e = total_weight-sum w 0 (omega arith) in
    (
      e ∙ omega arith,
      found_pick w r _ (pick_weight-IsPick w r 0 0 (omega arith) (omega arith) (omega (arith, e))),
    )
