-- ===== src/Shrink/Attempt/Shown.antt =====
-- What an execution shows (internal/shrink/candidate.go): the judgement of `Classify`, told by the
-- observations alone.
use pro_thesis.Prelude.{
  ℕ, suc, ◌+◌, ◌≤◌, ◌≡◌, ◌↔◌, refl, ap, List, [], ◌∷◌, Bool, true, false, not, ◌&&◌, ◌||◌, Option,
  none, some, arith,
}
use pro_thesis.Prelude.{if◌then◌else◌, length, All}
use pro_thesis.Shrink.Identity.{Identity, Strictness, Mismatch, match_at}
use pro_thesis.Shrink.Attempt.{
  Attempt, Signal, signal_unknown, signal_reproduced, signal_different, signal_clean,
  classify_observed, classify,
}
use pro_thesis.Shrink.Prober.{is_match, is_reproduced, is_different}

-- An execution that may be judged: no error, and its oracles had something to look at.
abbrev pub is_judgeable : Attempt → Bool
is_judgeable a = not a.failed && a.reached

-- One of the violations is the original one, at that level.
abbrev pub has_match : Strictness → Identity → List Identity → Bool
has_match s orig [] = false
has_match s orig (got ∷ rest) = is_match (match_at s orig got) || has_match s orig rest

abbrev pub has_any : List Identity → Bool
has_any [] = false
has_any (got ∷ rest) = true

-- The execution showed the original violation.
abbrev pub shows : Strictness → Identity → Attempt → Bool
shows s orig a = is_judgeable a && has_match s orig a.observed

-- It showed violations, and none of them is the original one.
abbrev pub diverges : Strictness → Identity → Attempt → Bool
diverges s orig a = is_judgeable a && (has_any a.observed && not (has_match s orig a.observed))

abbrev pub one_if : Bool → ℕ
one_if b = if b then 1 else 0

-- The number of the executions of which a test holds.
abbrev pub number : (Attempt → Bool) → List Attempt → ℕ
number p [] = 0
number p (a ∷ as_) = one_if (p a) + number p as_

abbrev is_clean : Signal → Bool
is_clean signal_clean = true
is_clean _ = false

abbrev pub is_unknown : Signal → Bool
is_unknown signal_unknown = true
is_unknown _ = false

-- What the loop of `Classify` has found of the violations.
record IsObserved (s : Strictness) (orig : Identity) (ids : List Identity) (sig : Signal)
    : Type 0 where
  matched : is_reproduced sig ≡ has_match s orig ids
  clean : is_clean sig ≡ not (has_any ids)
  known : is_unknown sig ≡ false

abbrev Outcome : Bool → Bool → Signal → Type 0
Outcome matched clean sig =
    (is_reproduced sig ≡ matched) × (is_clean sig ≡ clean) × (is_unknown sig ≡ false)

found :
    (s : Strictness) (orig got : Identity) (ids : List Identity) (later : Signal × List Identity)
    (x : Option Mismatch)
    → IsObserved s orig ids later.0
    → Outcome
        (is_match x || has_match s orig ids)
        false
        (elim x as (λ _. Signal × List Identity) [
          | none ↦ (signal_reproduced, got ∷ [])
          | some why ↦ elim later.0 [
            | signal_reproduced ↦ later
            | signal_unknown ↦ (signal_different, got ∷ later.1)
            | signal_different ↦ (signal_different, got ∷ later.1)
            | signal_clean ↦ (signal_different, got ∷ later.1)
          ]
        ]).0
found s orig got ids later none h = (refl, refl, refl)
found s orig got ids (signal_reproduced, l) (some why) h = (h.matched, refl, refl)
found s orig got ids (signal_unknown, l) (some why) h = (h.matched, refl, refl)
found s orig got ids (signal_different, l) (some why) h = (h.matched, refl, refl)
found s orig got ids (signal_clean, l) (some why) h = (h.matched, refl, refl)

classify_observed-IsObserved :
    (s : Strictness) (orig : Identity) (ids : List Identity)
    → IsObserved s orig ids (classify_observed s orig ids).0
unfolding classify_observed
classify_observed-IsObserved s orig [] = record { matched = refl; clean = refl; known = refl }
classify_observed-IsObserved s orig (got ∷ rest) =
    let h = classify_observed-IsObserved s orig rest in
    let x = found s orig got rest (classify_observed s orig rest) (match_at s orig got) h in
    record { matched = x.0; clean = x.1; known = x.2 }

different_is :
    (sig : Signal) (m e : Bool)
    → is_reproduced sig ≡ m
    → is_clean sig ≡ not e
    → is_unknown sig ≡ false
    → is_different sig ≡ (e && not m)
different_is signal_unknown m e a b c = absurd (ground arith)
different_is signal_reproduced m e a b c = ground arith
different_is signal_different m e a b c = ground arith
different_is signal_clean m e a b c = ground arith

-- The judgement of an execution, by what it showed.
pub record IsJudgement (s : Strictness) (orig : Identity) (a : Attempt) (sig : Signal)
    : Type 0 where
  pub reproduced : is_reproduced sig ≡ shows s orig a
  pub different : is_different sig ≡ diverges s orig a
  pub unknown : is_unknown sig ≡ not (is_judgeable a)

judged :
    (s : Strictness) (orig : Identity) (ids : List Identity) (failed reached : Bool)
    → let sig =
        (if failed
          then (signal_unknown, [])
          else if reached
          then classify_observed s orig ids
          else (signal_unknown, [])).0 in
      (is_reproduced sig ≡ (not failed && reached && has_match s orig ids))
      × (is_different sig ≡ (not failed && reached && (has_any ids && not (has_match s orig ids))))
      × (is_unknown sig ≡ not (not failed && reached))
judged s orig ids true reached = (refl, refl, refl)
judged s orig ids false false = (refl, refl, refl)
judged s orig ids false true =
    let h = classify_observed-IsObserved s orig ids in
    (h.matched, different_is _ _ _ h.matched h.clean h.known, h.known)

pub classify-IsJudgement :
    (s : Strictness) (orig : Identity) (a : Attempt) → IsJudgement s orig a (classify s orig a).0
unfolding classify
classify-IsJudgement s orig a =
    let x = judged s orig a.observed a.failed a.reached in
    record { reproduced = x.0; different = x.1; unknown = x.2 }

pub number-le : (p : Attempt → Bool) (as_ : List Attempt) → number p as_ ≤ length as_
number-le p [] = omega arith
number-le p (a ∷ as_) = ground (arith, number-le p as_)

all_of : (b : Bool) (n m : ℕ) → n ≤ m → one_if b + n ≡ suc m → (b ≡ true) × (n ≡ m)
all_of true n m h e = (refl, omega arith)
all_of false n m h e = absurd (omega arith)

pub number-eq_length :
    (p : Attempt → Bool) (as_ : List Attempt)
    → (number p as_ ≡ length as_) ↔ All (λ a. p a ≡ true) as_
number-eq_length p [] = (λ e. tt, λ h. refl)
number-eq_length p (a ∷ as_) = (
  λ e. let (x, y) = all_of (p a) _ _ (number-le p as_) e in (x, (number-eq_length p as_).0 y),
  λ h. omega (arith, ap one_if h.0, (number-eq_length p as_).1 h.1),
)

none_of : (b : Bool) (n : ℕ) → one_if b + n ≡ 0 → (b ≡ false) × (n ≡ 0)
none_of true n e = absurd (omega arith)
none_of false n e = (refl, omega arith)

pub number-eq_zero :
    (p : Attempt → Bool) (as_ : List Attempt) → (number p as_ ≡ 0) ↔ All (λ a. p a ≡ false) as_
number-eq_zero p [] = (λ e. tt, λ h. refl)
number-eq_zero p (a ∷ as_) = (
  λ e. let (x, y) = none_of (p a) _ e in (x, (number-eq_zero p as_).0 y),
  λ h. omega (arith, ap one_if h.0, (number-eq_zero p as_).1 h.1),
)
