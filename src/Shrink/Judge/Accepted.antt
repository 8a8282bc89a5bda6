-- ===== src/Shrink/Judge/Accepted.antt =====
-- What an accepted candidate rests on, and what judging keeps (internal/shrink/probe.go, `tally` and
-- `firstReproducing`).
use pro_thesis.Prelude.{
  ℕ, ◌+◌, ◌≤◌, ◌<◌, ◌≡◌, ◌⊎◌, inl, inr, refl, subst, List, [], ◌∷◌, Bool, true, false, not, ◌||◌,
  String, arith,
}
use pro_thesis.Prelude.{if_intro, length, Bool-cases}
use pro_thesis.Prelude.Int.{ℤ, pos, negsuc, pos_part, ◌≤ℤ◌, ltb_ℤ, leb_ℤ}
use pro_thesis.Shrink.Policy.{Policy}
use pro_thesis.Shrink.Attempt.{
  Signal, signal_unknown, signal_reproduced, signal_different, signal_clean,
}
use pro_thesis.Shrink.Prober.{is_reproduced, is_different}
use pro_thesis.Shrink.Judge.{Tally, new_tally, miss, observe_signal, observe, max_rounds}

-- A tally that says that the candidate reproduces has counted as many reproductions.
abbrev pub IsBacked : ℤ → Tally → Type 0
IsBacked needed t = is_reproduced t.sig ≡ true → needed ≤ℤ pos t.reproduced

one_more : (z : ℤ) (n : ℕ) → z ≤ℤ pos n → z ≤ℤ pos (n + 1)
one_more z n h = omega arith

enough : (z : ℤ) (n : ℕ) → leb_ℤ z (pos n) ≡ true → z ≤ℤ pos n
enough (pos a) n e = ground arith
enough (negsuc a) n e = omega arith

miss-IsBacked :
    (needed : ℤ) (t : Tally) (sig : Signal) (pol : Policy)
    → is_reproduced sig ≡ false
    → IsBacked needed t
    → IsBacked needed (miss t sig pol)
miss-IsBacked needed t sig pol e h =
    if_intro (λ s. is_reproduced s ≡ true → needed ≤ℤ pos t.reproduced)
      (is_different sig || not (is_different t.sig)) sig t.sig (λ _ q. absurd (ground arith))
      (λ _ q. h q)

observe_signal-IsBacked :
    (needed : ℤ) (t : Tally) (sig : Signal) (pol : Policy)
    → pol.accept_trials ≡ needed
    → IsBacked needed t
    → IsBacked needed (observe_signal t sig pol)
observe_signal-IsBacked needed t signal_reproduced pol e h =
    if_intro (IsBacked needed) (leb_ℤ pol.accept_trials (pos (t.reproduced + 1))) _ _
      (λ q _. subst (λ z. z ≤ℤ pos (t.reproduced + 1)) e (enough pol.accept_trials _ q))
      (λ _ q. one_more needed t.reproduced (h q))
observe_signal-IsBacked needed t signal_unknown pol e h =
    if_intro (IsBacked needed) (ltb_ℤ pol.unknown_retries (pos (t.unknowns + 1))) _ _
      (λ _ q. absurd (ground arith)) (λ _ q. h q)
observe_signal-IsBacked needed t signal_different pol e h =
    miss-IsBacked needed t signal_different pol refl h
observe_signal-IsBacked needed t signal_clean pol e h =
    miss-IsBacked needed t signal_clean pol refl h

pub observe-IsBacked :
    (needed : ℤ) (t : Tally) (sig : Signal) (world : String) (pol : Policy)
    → pol.accept_trials ≡ needed
    → IsBacked needed t
    → IsBacked needed (observe t sig world pol)
unfolding observe
observe-IsBacked needed t sig world pol e h = observe_signal-IsBacked needed _ sig pol e h

-- A tally that is not settled is short of every bound of the policy, and each trial counts once.
pub record IsOpen (pol : Policy) (t : Tally) : Type 0 where
  pub short_accept :
      t.done ≡ false → (t.reproduced ≡ 0) ⊎ (pos (t.reproduced + 1) ≤ℤ pol.accept_trials)
  pub short_reject : t.done ≡ false → (t.misses ≡ 0) ⊎ (pos (t.misses + 1) ≤ℤ pol.reject_trials)
  pub short_unknown : t.done ≡ false → (t.unknowns ≡ 0) ⊎ (pos t.unknowns ≤ℤ pol.unknown_retries)
  pub counted : t.trials ≡ t.reproduced + t.misses + t.unknowns

short_of : (z : ℤ) (n : ℕ) → leb_ℤ z (pos n) ≡ false → pos (n + 1) ≤ℤ z
short_of (pos a) n e = ground arith
short_of (negsuc a) n e = absurd (ground arith)

within_retries : (z : ℤ) (n : ℕ) → ltb_ℤ z (pos n) ≡ false → pos n ≤ℤ z
within_retries (pos a) n e = ground arith
within_retries (negsuc a) n e = ground arith

or_left : (a b : Bool) → (a || b) ≡ false → (a ≡ false) × (b ≡ false)
or_left a b e = ground arith

miss-IsOpen :
    (t : Tally) (sig : Signal) (pol : Policy) (world : String)
    → IsOpen pol t
    → IsOpen pol (miss (record t { trials = t.trials + 1; world = world }) sig pol)
miss-IsOpen t sig pol world h = record {
  short_accept = λ e. h.short_accept (or_left _ _ e).0;
  short_reject = λ e. inr (short_of pol.reject_trials _ (or_left _ _ e).1);
  short_unknown = λ e. h.short_unknown (or_left _ _ e).0;
  counted = omega (arith, h.counted);
}

pub observe-IsOpen :
    (t : Tally) (sig : Signal) (world : String) (pol : Policy)
    → IsOpen pol t
    → IsOpen pol (observe t sig world pol)
unfolding observe
observe-IsOpen t signal_reproduced world pol h =
    if_intro (IsOpen pol) (leb_ℤ pol.accept_trials (pos (t.reproduced + 1))) _ _
      (λ q. record {
        short_accept = λ e. absurd (ground arith);
        short_reject = λ e. absurd (ground arith);
        short_unknown = λ e. absurd (ground arith);
        counted = omega (arith, h.counted);
      })
      (λ q. record {
        short_accept = λ e. inr (short_of pol.accept_trials _ q);
        short_reject = h.short_reject;
        short_unknown = h.short_unknown;
        counted = omega (arith, h.counted);
      })
observe-IsOpen t signal_unknown world pol h =
    if_intro (IsOpen pol) (ltb_ℤ pol.unknown_retries (pos (t.unknowns + 1))) _ _
      (λ q. record {
        short_accept = λ e. absurd (ground arith);
        short_reject = λ e. absurd (ground arith);
        short_unknown = λ e. absurd (ground arith);
        counted = omega (arith, h.counted);
      })
      (λ q. record {
        short_accept = h.short_accept;
        short_reject = h.short_reject;
        short_unknown = λ e. inr (within_retries pol.unknown_retries _ q);
        counted = omega (arith, h.counted);
      })
observe-IsOpen t signal_different world pol h = miss-IsOpen t signal_different pol _ h
observe-IsOpen t signal_clean world pol h = miss-IsOpen t signal_clean pol _ h

-- The tally after a run of signals.
abbrev pub observed : Tally → List Signal → Policy → Tally
observed t [] pol = t
observed t (s ∷ ss) pol = observed (observe t s "" pol) ss pol

observed-IsOpen :
    (t : Tally) (ss : List Signal) (pol : Policy) → IsOpen pol t → IsOpen pol (observed t ss pol)
observed-IsOpen t [] pol h = h
observed-IsOpen t (s ∷ ss) pol h =
    observed-IsOpen (observe t s "" pol) ss pol (observe-IsOpen t s "" pol h)

trials-observe :
    (t : Tally) (s : Signal) (pol : Policy) → (observe t s "" pol).trials ≡ t.trials + 1
unfolding observe
trials-observe t signal_reproduced pol =
    if_intro (λ (u : Tally). u.trials ≡ t.trials + 1) _ _ _ (λ _. refl) (λ _. refl)
trials-observe t signal_unknown pol =
    if_intro (λ (u : Tally). u.trials ≡ t.trials + 1) _ _ _ (λ _. refl) (λ _. refl)
trials-observe t signal_different pol = refl
trials-observe t signal_clean pol = refl

trials-observed :
    (t : Tally) (ss : List Signal) (pol : Policy)
    → (observed t ss pol).trials ≡ t.trials + length ss
trials-observed t [] pol = omega arith
trials-observed t (s ∷ ss) pol =
    omega (arith, trials-observed (observe t s "" pol) ss pol, trials-observe t s pol)

new_tally-IsOpen : (pol : Policy) → IsOpen pol new_tally
new_tally-IsOpen pol = record {
  short_accept = λ _. inl refl;
  short_reject = λ _. inl refl;
  short_unknown = λ _. inl refl;
  counted = refl;
}

bounded_trials :
    (a r u : ℤ) (x y z : ℕ)
    → pos 1 ≤ℤ a
    → pos 1 ≤ℤ r
    → pos 0 ≤ℤ u
    → (x ≡ 0) ⊎ (pos (x + 1) ≤ℤ a)
    → (y ≡ 0) ⊎ (pos (y + 1) ≤ℤ r)
    → (z ≡ 0) ⊎ (pos z ≤ℤ u)
    → x + y + z < pos_part a + pos_part r + pos_part u
bounded_trials (pos a) (pos r) (pos u) x y z h i j p q s = ground arith
bounded_trials (negsuc a) r u x y z h i j p q s = absurd (omega arith)
bounded_trials (pos a) (negsuc r) u x y z h i j p q s = absurd (omega arith)
bounded_trials (pos a) (pos r) (negsuc u) x y z h i j p q s = absurd (omega arith)

-- Under a policy with accept and reject counts of at least one and no negative count of retries, a candidate
-- that has been executed in as many rounds as `firstReproducing` allows, whatever the signals, is settled.
pub rounds_suffice :
    (pol : Policy) (ss : List Signal)
    → pos 1 ≤ℤ pol.accept_trials
    → pos 1 ≤ℤ pol.reject_trials
    → pos 0 ≤ℤ pol.unknown_retries
    → max_rounds pol ≤ length ss
    → (observed new_tally ss pol).done ≡ true
rounds_suffice pol ss a r u le = elim (Bool-cases (observed new_tally ss pol).done) [
  | inl e ↦ e
  | inr e ↦
      let o = observed-IsOpen new_tally ss pol (new_tally-IsOpen pol) in
      let few =
        bounded_trials pol.accept_trials pol.reject_trials pol.unknown_retries _ _ _ a r u
          (o.short_accept e) (o.short_reject e) (o.short_unknown e) in
      absurd (omega (arith, few, o.counted, trials-observed new_tally ss pol))
]
