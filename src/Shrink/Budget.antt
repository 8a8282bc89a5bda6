-- ===== src/Shrink/Budget.antt =====
-- The shrink budget and its ledger (internal/shrink/budget.go). Durations and ceilings are signed; the
-- wall time since the start is given at each call.
pub mod Grants
use pro_thesis.Prelude.{ℕ, ◌+◌, ◌-◌, ◌*◌, ◌^◌, Bool, true, false, not, ◌&&◌, if◌then◌else◌, ◌==◌}
use pro_thesis.Prelude.Int.{ℤ, pos, negsuc, sub_ℕ, pos_part, neg_part, ltb_ℤ, leb_ℤ}

pub data StopReason : Type 0 where
  stop_complete stop_wall_budget stop_world_budget stop_canceled stop_executor_error : StopReason
  stop_baseline_not_reproduced stop_baseline_unjudgeable : StopReason

-- `Truncated`.
abbrev pub truncated : StopReason → Bool
truncated stop_complete = false
truncated _ = true

-- 20 minutes, in nanoseconds.
abbrev pub default_wall_budget : ℕ
default_wall_budget = 20 * 60 * 10 ^ 9

abbrev pub default_world_budget : ℕ
default_world_budget = 60

-- `Shrink.Budget.Budget`.
pub record Budget : Type 0 where
  pub wall : ℤ
  pub worlds : ℤ
  pub confirm_reserve : ℤ
  pub confirm_wall_grace : ℤ

abbrev pub or_default : ℤ → ℤ → ℤ
or_default (pos n) d = if n == 0 then d else pos n
or_default (negsuc n) d = negsuc n

unfoldable pub with_defaults : Budget → ℕ → Budget
with_defaults b confirm_k =
    let reserve = or_default b.confirm_reserve (pos confirm_k) in
    record b {
      wall = or_default b.wall (pos default_wall_budget);
      worlds = or_default b.worlds (pos default_world_budget);
      confirm_reserve = pos (pos_part reserve);
    }

pub record Ledger : Type 0 where
  pub budget : Budget
  pub spent : ℕ
  pub reserve : ℤ

abbrev pub new_ledger : Budget → Ledger
new_ledger b = record { budget = b; spent = 0; reserve = b.confirm_reserve }

-- Whether the wall ceiling is reached, `elapsed` after the start.
abbrev pub wall_spent : ℤ → ℤ → Bool
wall_spent wall elapsed = leb_ℤ (pos 0) wall && leb_ℤ wall elapsed

-- What `acquire` grants of `n` worlds, under a ceiling of `worlds`.
unfoldable pub grant : ℤ → ℤ → ℕ → ℕ → ℕ × StopReason
grant (negsuc k) reserve spent n = (n, stop_complete)
grant (pos w) reserve spent n =
    let avail = sub_ℕ (w + neg_part reserve) (pos_part reserve + spent) in
    if leb_ℤ avail (pos 0)
    then (0, stop_world_budget)
    else if ltb_ℤ avail (pos n)
    then (pos_part avail, stop_world_budget)
    else (n, stop_complete)

unfoldable pub acquire : Ledger → ℕ → ℤ → Ledger × ℕ × StopReason
unfolding grant
acquire l n elapsed =
    let (g, why) = grant l.budget.worlds l.reserve l.spent n in
    if n == 0
    then (l, 0, stop_complete)
    else if wall_spent l.budget.wall elapsed
    then (l, 0, stop_wall_budget)
    else (record l { spent = l.spent + g }, g, why)

-- The wall ceiling with the grace of the confirmation gate.
abbrev pub extended : ℤ → ℤ → ℤ
extended (pos w) (pos g) = pos (w + g)
extended wall grace = wall

unfoldable pub open_reserve : Ledger → Ledger
open_reserve l = record l {
  budget = record (l.budget) { wall = extended l.budget.wall l.budget.confirm_wall_grace };
  reserve = pos 0;
}
