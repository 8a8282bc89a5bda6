-- ===== src/Shrink/Policy.antt =====
-- How a shrink runs (internal/shrink/policy.go).
pub mod Defaults
use pro_thesis.Prelude.{ℕ, ◌+◌, Bool, true, false, not, ◌&&◌, ◌||◌, if◌then◌else◌, ◌==◌}
use pro_thesis.Prelude.Int.{ℤ, pos, negsuc, leb_ℤ, ltb_ℤ}
use pro_thesis.Shrink.Identity.{Strictness, match_unset, match_oracle, match_witness_key, rank}

pub record Policy : Type 0 where
  pub strictness : Strictness
  pub accept_trials : ℤ
  pub reject_trials : ℤ
  pub unknown_retries : ℤ
  pub confirm_k : ℤ
  pub parallelism : ℤ
  pub narrow_granularity_ms : ℤ
  pub narrow_max_probes : ℤ
  pub skip_narrowing : Bool
  pub skip_baseline : Bool
  pub skip_ops : Bool
  pub disable_cache : Bool
  pub calibration_probes : ℤ

abbrev pub default_strictness : Strictness → Strictness
default_strictness match_unset = match_witness_key
default_strictness s = s

-- A field that has to be positive.
abbrev pub positive_or : ℤ → ℤ → ℤ
positive_or z d = if leb_ℤ z (pos 0) then d else z

-- A field of which zero asks for the default, and a negative value for none.
abbrev pub retries_or : ℤ → ℤ → ℤ
retries_or (negsuc n) d = pos 0
retries_or (pos n) d = if n == 0 then d else pos n

-- `Policy.withDefaults`.
unfoldable pub policy_with_defaults : Policy → Policy
policy_with_defaults p = record p {
  strictness = default_strictness p.strictness;
  accept_trials = positive_or p.accept_trials (pos 1);
  reject_trials = positive_or p.reject_trials (pos 2);
  unknown_retries = retries_or p.unknown_retries (pos 1);
  confirm_k = positive_or p.confirm_k (pos 3);
  parallelism = positive_or p.parallelism (pos 1);
  narrow_granularity_ms = positive_or p.narrow_granularity_ms (pos 100);
  narrow_max_probes = positive_or p.narrow_max_probes (pos 8);
  calibration_probes = retries_or p.calibration_probes (pos 4);
}

abbrev pub is_match_oracle : Strictness → Bool
is_match_oracle match_oracle = true
is_match_oracle _ = false

-- `Validate`: no error. Every value of `Strictness` is one of the constants.
unfoldable pub is_sound : Policy → Bool
is_sound p =
    not (is_match_oracle p.strictness)
    && (not (
          ltb_ℤ p.accept_trials (pos 0)
          || (ltb_ℤ p.reject_trials (pos 0) || ltb_ℤ p.confirm_k (pos 0)))
        && not (
            ltb_ℤ (pos 0) p.reject_trials
            && (ltb_ℤ (pos 0) p.accept_trials && ltb_ℤ p.reject_trials p.accept_trials)))
