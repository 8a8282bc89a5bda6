-- ===== src/Linear/Budget.antt =====
-- The explored-state allowance that the keys share (`budget`, `slice` and `spend` of
-- cmd/thesis-oracle-linearizable/check.go).
use pro_thesis.Prelude.{
  ℕ, ◌+◌, ◌-◌, ◌/◌, ◌≤◌, ◌≡◌, Option, some, none, if◌then◌else◌, leb, ltb, arith,
}
use pro_thesis.Prelude.Int.{ℤ, pos, leb_ℤ}

pub record Allowance : Type 0 where
  pub max_states : ℕ
  pub spent : ℕ

-- The share of the next key, where there is one; `wall_left` is the time to the deadline.
unfoldable pub slice : Allowance → ℕ → ℤ → Option ℕ
slice b keys wall_left =
    let remaining = if ltb keys 1 then 1 else keys in
    let left = b.max_states - b.spent in
    let share = left / remaining in
    if leb left 0
    then none
    else if leb_ℤ wall_left (pos 0)
    then none
    else some (if ltb share 1 then 1 else share)

unfoldable pub spend : Allowance → ℕ → Allowance
spend b n = record b { spent = b.spent + n }

div-le : (a k : ℕ) → 1 ≤ k → a / k ≤ a
div-le a k h = grind arith

-- A share fits in what is left, so a key that keeps to it never makes the keys together exceed the
-- ceiling.
pub slice-spend :
    (b : Allowance) (keys n : ℕ) (wall_left : ℤ) {share : ℕ}
    → slice b keys wall_left ≡ some share
    → n ≤ share
    → ((spend b n).spent ≤ (spend b n).max_states) × (1 ≤ share)
unfolding slice spend
slice-spend b keys n wall_left h le =
    ground (arith, div-le (b.max_states - b.spent) (if ltb keys 1 then 1 else keys))
