-- ===== src/Shrink/Policy/Defaults.antt =====
-- The policy that a shrink runs under (internal/shrink/policy.go).
use pro_thesis.Prelude.{◌≤◌, ◌≡◌, Bool, true, false, ◌&&◌, ◌||◌, not, arith}
use pro_thesis.Prelude.{if_intro, ◌==◌}
use pro_thesis.Prelude.Int.{ℤ, pos, negsuc, leb_ℤ, ltb_ℤ, ◌≤ℤ◌, ◌<ℤ◌}
use pro_thesis.Shrink.Identity.{
  Strictness, rank, match_unset, match_oracle, match_oracle_class, match_witness_key,
  match_witness_ops,
}
use pro_thesis.Shrink.Policy.{
  positive_or, retries_or, is_match_oracle, default_strictness, Policy, policy_with_defaults,
  is_sound,
}

-- What a shrink relies on.
pub record IsRunnable (p : Policy) : Type 0 where
  pub floor : 2 ≤ rank p.strictness
  pub accepts : pos 1 ≤ℤ p.accept_trials
  pub rejects : pos 1 ≤ℤ p.reject_trials
  pub retries : pos 0 ≤ℤ p.unknown_retries
  pub gate : pos 1 ≤ℤ p.confirm_k
  pub width : pos 1 ≤ℤ p.parallelism
  pub granularity : pos 1 ≤ℤ p.narrow_granularity_ms
  pub probes : pos 1 ≤ℤ p.narrow_max_probes

positive_or-positive : (z d : ℤ) → pos 1 ≤ℤ d → pos 1 ≤ℤ positive_or z d
positive_or-positive (pos n) d h =
    if_intro (λ k. pos 1 ≤ℤ k) (leb_ℤ (pos n) (pos 0)) d (pos n) (λ _. h) (λ e. ground arith)
positive_or-positive (negsuc n) d h =
    if_intro (λ k. pos 1 ≤ℤ k) (leb_ℤ (negsuc n) (pos 0)) d (negsuc n) (λ _. h)
      (λ e. absurd (ground arith))

retries_or-natural : (z d : ℤ) → pos 0 ≤ℤ d → pos 0 ≤ℤ retries_or z d
retries_or-natural (negsuc n) d h = omega arith
retries_or-natural (pos n) d h =
    if_intro (λ k. pos 0 ≤ℤ k) (n == 0) d (pos n) (λ _. h) (λ _. omega arith)

floor_lem :
    (s : Strictness) (b : Bool)
    → (not (is_match_oracle s) && b) ≡ true
    → 2 ≤ rank (default_strictness s)
floor_lem match_unset b e = omega arith
floor_lem match_oracle b e = absurd (ground arith)
floor_lem match_oracle_class b e = omega arith
floor_lem match_witness_key b e = omega arith
floor_lem match_witness_ops b e = omega arith

-- A policy that `Validate` accepts runs, with its defaults, at least at the level of oracle and class, with
-- trial counts, a gate, a width and narrowing bounds of at least one, and no negative count of retries.
pub policy_with_defaults-IsRunnable :
    (p : Policy) → is_sound p ≡ true → IsRunnable (policy_with_defaults p)
unfolding is_sound policy_with_defaults
policy_with_defaults-IsRunnable p e = record {
  floor = floor_lem p.strictness _ e;
  accepts = positive_or-positive p.accept_trials (pos 1) (omega arith);
  rejects = positive_or-positive p.reject_trials (pos 2) (omega arith);
  retries = retries_or-natural p.unknown_retries (pos 1) (omega arith);
  gate = positive_or-positive p.confirm_k (pos 3) (omega arith);
  width = positive_or-positive p.parallelism (pos 1) (omega arith);
  granularity = positive_or-positive p.narrow_granularity_ms (pos 100) (omega arith);
  probes = positive_or-positive p.narrow_max_probes (pos 8) (omega arith);
}

asymmetry_kept :
    (a r : ℤ)
    → not (ltb_ℤ (pos 0) r && (ltb_ℤ (pos 0) a && ltb_ℤ r a)) ≡ true
    → pos 1 ≤ℤ r
    → positive_or a (pos 1) ≤ℤ positive_or r (pos 2)
asymmetry_kept (pos a) (pos r) e h = ground arith
asymmetry_kept (negsuc a) (pos r) e h = ground arith
asymmetry_kept a (negsuc r) e h = absurd (omega arith)

asymmetry_lost : (a r : ℤ) → r ≡ pos 0 → pos 3 ≤ℤ a → positive_or r (pos 2) <ℤ positive_or a (pos 1)
asymmetry_lost (pos a) (pos r) e h = ground arith
asymmetry_lost (negsuc a) r e h = absurd (omega arith)
asymmetry_lost a (negsuc r) e h = absurd (ground arith)

sound_at :
    (a r k : ℤ) (b : Bool)
    → r ≡ pos 0
    → pos 3 ≤ℤ a
    → pos 0 ≤ℤ k
    → b ≡ false
    → (not b
        && (not (ltb_ℤ a (pos 0) || (ltb_ℤ r (pos 0) || ltb_ℤ k (pos 0)))
            && not (ltb_ℤ (pos 0) r && (ltb_ℤ (pos 0) a && ltb_ℤ r a))))
      ≡ true
sound_at (pos a) (pos r) (pos k) b e h q m = ground arith
sound_at (negsuc a) r k b e h q m = absurd (omega arith)
sound_at (pos a) (negsuc r) k b e h q m = absurd (ground arith)
sound_at (pos a) (pos r) (negsuc k) b e h q m = absurd (omega arith)

last_guard : (a b c : Bool) → (a && (b && c)) ≡ true → c ≡ true
last_guard a b c e = ground arith

-- A policy that `Validate` accepts and that states a positive reject count runs with an accept count of at
-- most the reject count. One that leaves the reject count at zero and states an accept count of three or more is
-- accepted too where its level and its gate are, and runs with the accept count above the reject count.
pub validated_asymmetry :
    (p : Policy)
    → (is_sound p ≡ true
        → pos 1 ≤ℤ p.reject_trials
        → (policy_with_defaults p).accept_trials ≤ℤ (policy_with_defaults p).reject_trials)
      × (p.reject_trials ≡ pos 0
          → pos 3 ≤ℤ p.accept_trials
          → pos 0 ≤ℤ p.confirm_k
          → is_match_oracle p.strictness ≡ false
          → (is_sound p ≡ true)
            × ((policy_with_defaults p).reject_trials <ℤ (policy_with_defaults p).accept_trials))
unfolding is_sound policy_with_defaults
validated_asymmetry p = (
  λ e h. asymmetry_kept p.accept_trials p.reject_trials (last_guard _ _ _ e) h,
  λ e h k m. (
    sound_at p.accept_trials p.reject_trials p.confirm_k (is_match_oracle p.strictness) e h k m,
    asymmetry_lost p.accept_trials p.reject_trials e h,
  ),
)
