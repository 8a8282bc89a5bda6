-- ===== src/Shrink/Prober/Evidence.antt =====
-- What the divergences of the prober (internal/shrink/probe.go) are evidence of.
use pro_thesis.Prelude.{
  ◌≡◌, inl, inr, refl, List, [], ◌∷◌, Bool, true, false, not, ◌&&◌, Option, none, some, str_eq,
  arith,
}
use pro_thesis.Prelude.{if_intro, bool_eq, All, Bool-cases}
use pro_thesis.Prelude.Int.{ℤ, pos, ◌≤ℤ◌}
use pro_thesis.Shrink.Identity.{Identity, Strictness, Mismatch, match_at, match_oracle_class}
use pro_thesis.Shrink.Attempt.{
  Attempt, Signal, signal_unknown, signal_reproduced, signal_different, signal_clean, classify,
  classify_observed,
}
use pro_thesis.Shrink.Prober.{
  Decision, Divergence, same_key, is_reproduced, is_match, note_one, note_divergence,
  still_divergent, drift_from,
}

-- A decision of reproduction rests on that many reproductions.
abbrev pub IsProven : ℤ → Decision → Type 0
IsProven needed d = is_reproduced d.signal ≡ true → needed ≤ℤ pos d.reproduced

-- An identity that fires the original's oracle and class on another key.
pub record IsDrift (orig id : Identity) : Type 0 where
  pub other_key : str_eq id.key orig.key ≡ false
  pub same_class : match_at match_oracle_class orig id ≡ none

-- A divergence that is recorded as the unreduced world's was observed there.
abbrev pub IsEvidence : (Identity → Type 0) → Divergence → Type 0
IsEvidence Seen d = d.unreduced ≡ true → Seen d.id

module _ (Seen : Identity → Type 0) where
  note_one-All :
      (ds : List Divergence) (id : Identity) (b : Bool)
      → All (IsEvidence Seen) ds
      → (b ≡ true → Seen id)
      → (same : (d : Identity) → same_key d id ≡ true → b ≡ true → Seen d)
      → All (IsEvidence Seen) (note_one ds id b)
  unfolding note_one
  note_one-All [] id b h s same = (s, tt)
  note_one-All (d ∷ ds) id b h s same =
      if_intro (All (IsEvidence Seen)) (same_key d.id id) _ _
        (λ e. (
          λ q. elim (Bool-cases d.unreduced) [ inl u ↦ h.0 u | inr u ↦ same d.id e (ground arith) ],
          h.1,
        ))
        (λ _. (h.0, note_one-All ds id b h.1 s same))

  -- What is seen depends on the texts of an identity that its key names.
  pub note_divergence-All :
      (ds : List Divergence) (ids : List Identity) (b : Bool)
      → ((d id : Identity) → same_key d id ≡ true → Seen id → Seen d)
      → All (IsEvidence Seen) ds
      → (b ≡ true → All Seen ids)
      → All (IsEvidence Seen) (note_divergence ds ids b)
  unfolding note_divergence
  note_divergence-All ds [] b keyed h s = h
  note_divergence-All ds (id ∷ ids) b keyed h s =
      note_divergence-All (note_one ds id b) ids b keyed
        (note_one-All ds id b h (λ q. (s q).0) (λ d e q. keyed d id e (s q).0)) (λ q. (s q).1)

  pub still_divergent-All :
      (s : Strictness) (orig : Identity) (ds : List Divergence)
      → All (IsEvidence Seen) ds
      → All (IsEvidence Seen) (still_divergent s orig ds)
  unfolding still_divergent
  still_divergent-All s orig [] h = tt
  still_divergent-All s orig (d ∷ ds) h =
      if_intro (All (IsEvidence Seen)) (is_match (match_at s orig d.id)) _ _
        (λ _. still_divergent-All s orig ds h.1) (λ _. (h.0, still_divergent-All s orig ds h.1))

  classify_observed-All :
      (s : Strictness) (orig : Identity) (ids : List Identity)
      → All Seen ids
      → All Seen (classify_observed s orig ids).1
  unfolding classify_observed
  classify_observed-All s orig [] h = tt
  classify_observed-All s orig (id ∷ ids) h =
      pick (match_at s orig id) (classify_observed s orig ids)
        (classify_observed-All s orig ids h.1)
    where
      pick :
          (m : Option Mismatch) (later : Signal × List Identity)
          → All Seen later.1
          → All Seen
              (elim m as (λ _. Signal × List Identity) [
                | none ↦ (signal_reproduced, id ∷ [])
                | some why ↦ elim later.0 as (λ _. Signal × List Identity) [
                  | signal_reproduced ↦ later
                  | signal_unknown ↦ (signal_different, id ∷ later.1)
                  | signal_different ↦ (signal_different, id ∷ later.1)
                  | signal_clean ↦ (signal_different, id ∷ later.1)
                ]
              ]).1
      pick none later g = (h.0, tt)
      pick (some why) (signal_reproduced, l) g = g
      pick (some why) (signal_unknown, l) g = (h.0, g)
      pick (some why) (signal_different, l) g = (h.0, g)
      pick (some why) (signal_clean, l) g = (h.0, g)

  pub classify-All :
      (s : Strictness) (orig : Identity) (a : Attempt)
      → All Seen a.observed
      → All Seen (classify s orig a).1
  unfolding classify
  classify-All s orig a h =
      if_intro (λ (x : Signal × List Identity). All Seen x.1) a.failed (signal_unknown, []) _
        (λ _. tt)
        (λ _.
          if_intro (λ (x : Signal × List Identity). All Seen x.1) a.reached _ (signal_unknown, [])
            (λ _. classify_observed-All s orig a.observed h) (λ _. tt))

-- What a drift that was found is.
abbrev pub IsFound : (Identity → Type 0) → Identity → Option Identity → Type 0
IsFound Seen orig none = Unit
IsFound Seen orig (some id) = Seen id × IsDrift orig id

matches_none : (m : Option Mismatch) → is_match m ≡ true → m ≡ none
matches_none none e = refl
matches_none (some why) e = absurd (ground arith)

drift_guard :
    (u a b c m : Bool)
    → ((bool_eq u true && (a && (b && not c))) && m) ≡ true
    → (u ≡ true) × (c ≡ false) × (m ≡ true)
drift_guard u a b c m e = ground arith

pub drift_from-IsFound :
    (Seen : Identity → Type 0) (orig : Identity) (ds : List Divergence)
    → All (IsEvidence Seen) ds
    → IsFound Seen orig (drift_from orig ds true)
unfolding drift_from
drift_from-IsFound Seen orig [] h = tt
drift_from-IsFound Seen orig (d ∷ ds) h =
    if_intro (IsFound Seen orig) _ (some d.id) _
      (λ e.
        let (u, k, m) = drift_guard d.unreduced _ _ _ _ e in
        (h.0 u, record { other_key = k; same_class = matches_none _ m }))
      (λ _. drift_from-IsFound Seen orig ds h.1)
