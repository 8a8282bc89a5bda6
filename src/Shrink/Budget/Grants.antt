-- ===== src/Shrink/Budget/Grants.antt =====
-- What the ledger of internal/shrink/budget.go grants over a run.
use pro_thesis.Prelude.{
  ℕ, ◌+◌, ◌-◌, ◌≤◌, ◌<◌, ◌≡◌, refl, sym, ap, ◌∙◌, subst, false, List, [], ◌∷◌, ◌≢◌, arith,
}
use pro_thesis.Prelude.{if_intro, ◌==◌}
use pro_thesis.Prelude.Int.{ℤ, pos}
use pro_thesis.Shrink.Budget.{
  Budget, Ledger, StopReason, stop_complete, stop_wall_budget, stop_world_budget, wall_spent, grant,
  acquire, open_reserve, new_ledger, extended,
}

-- A ledger with a ceiling of `w` worlds, of which `r` are held back.
pub record IsMetered (w r : ℕ) (l : Ledger) : Type 0 where
  pub ceiling : l.budget.worlds ≡ pos w
  pub held : l.reserve ≡ pos r
  pub within : l.spent ≤ w - r

-- What a request for `n` worlds that were not refused by the clock gets.
record IsFair (w r spent n : ℕ) (g : ℕ × StopReason) : Type 0 where
  pub at_most : g.0 ≤ n
  room : spent ≤ w - r → spent + g.0 ≤ w - r
  full : spent + n ≤ w - r → 1 ≤ n → g ≡ (n, stop_complete)
  short : g.1 ≡ stop_complete → g.0 ≡ n

complete_world : stop_world_budget ≢ stop_complete
complete_world e = ground arith

grant-IsFair : (w r spent n : ℕ) → IsFair w r spent n (grant (pos w) (pos r) spent n)
unfolding grant
grant-IsFair w r spent n = record {
  at_most = ground arith;
  room = λ h. ground arith;
  full = λ h q. ground arith;
  short = λ e. ground arith;
}

-- The grant of a metered ledger.
fair :
    (w r n : ℕ) (l : Ledger)
    → IsMetered w r l
    → IsFair w r l.spent n (grant l.budget.worlds l.reserve l.spent n)
fair w r n l m =
    subst (λ z. IsFair w r l.spent n (grant z l.reserve l.spent n)) (sym m.ceiling)
      (subst (λ z. IsFair w r l.spent n (grant (pos w) z l.spent n)) (sym m.held)
        (grant-IsFair w r l.spent n))

-- What a request does to a ledger: it is metered as before, and charged for what was granted.
pub record IsCharged (w r n : ℕ) (l : Ledger) (x : Ledger × ℕ × StopReason) : Type 0 where
  pub metered : IsMetered w r x.0
  pub charge : (x.0).spent ≡ l.spent + x.1
  pub at_most : x.1 ≤ n
  pub whole : x.2 ≡ stop_complete → x.1 ≡ n
  pub same_budget : (x.0).budget ≡ l.budget

complete_wall : stop_wall_budget ≢ stop_complete
complete_wall e = ground arith

pub acquire-IsCharged :
    (w r n : ℕ) (l : Ledger) (elapsed : ℤ)
    → IsMetered w r l
    → IsCharged w r n l (acquire l n elapsed)
unfolding acquire
acquire-IsCharged w r n l elapsed m =
    let g = grant l.budget.worlds l.reserve l.spent n in
    let f = fair w r n l m in
    if_intro (IsCharged w r n l) (n == 0) (l, 0, stop_complete) _
      (λ e. record {
        metered = m;
        charge = omega arith;
        at_most = omega arith;
        whole = λ _. ground arith;
        same_budget = refl;
      })
      (λ _.
        if_intro (IsCharged w r n l) (wall_spent l.budget.wall elapsed) (l, 0, stop_wall_budget)
          (record l { spent = l.spent + g.0 }, g.0, g.1)
          (λ _. record {
            metered = m;
            charge = omega arith;
            at_most = omega arith;
            whole = λ q. absurd (complete_wall q);
            same_budget = refl;
          })
          (λ _. record {
            metered = record { ceiling = m.ceiling; held = m.held; within = f.room m.within };
            charge = refl;
            at_most = f.at_most;
            whole = f.short;
            same_budget = refl;
          }))

-- The ledger after a run of requests, each with the time since the start.
abbrev pub grants : Ledger → List (ℕ × ℤ) → Ledger
grants l [] = l
grants l ((n, elapsed) ∷ rs) = grants (acquire l n elapsed).0 rs

-- The worlds that they were granted.
abbrev pub granted : Ledger → List (ℕ × ℤ) → ℕ
granted l [] = 0
granted l ((n, elapsed) ∷ rs) = (acquire l n elapsed).1 + granted (acquire l n elapsed).0 rs

abbrev pub requested : List (ℕ × ℤ) → ℕ
requested [] = 0
requested ((n, elapsed) ∷ rs) = n + requested rs

record AfterRun (w r : ℕ) (l : Ledger) (rs : List (ℕ × ℤ)) : Type 0 where
  pub metered : IsMetered w r (grants l rs)
  pub charge : (grants l rs).spent ≡ l.spent + granted l rs
  pub at_most : granted l rs ≤ requested rs
  pub same_budget : (grants l rs).budget ≡ l.budget

grants-IsMetered : (w r : ℕ) (l : Ledger) (rs : List (ℕ × ℤ)) → IsMetered w r l → AfterRun w r l rs
grants-IsMetered w r l [] m = record {
  metered = m;
  charge = omega arith;
  at_most = omega arith;
  same_budget = refl;
}
grants-IsMetered w r l ((n, elapsed) ∷ rs) m =
    let c = acquire-IsCharged w r n l elapsed m in
    let rest = grants-IsMetered w r (acquire l n elapsed).0 rs c.metered in
    record {
      metered = rest.metered;
      charge = omega (arith, rest.charge, c.charge);
      at_most = omega (arith, rest.at_most, c.at_most);
      same_budget = rest.same_budget ∙ c.same_budget;
    }

open_reserve-IsMetered : (w r : ℕ) (l : Ledger) → IsMetered w r l → IsMetered w 0 (open_reserve l)
unfolding open_reserve
open_reserve-IsMetered w r l m = record {
  ceiling = m.ceiling;
  held = refl;
  within = omega (arith, m.within);
}

new_ledger-IsMetered :
    (w r : ℕ) (b : Budget)
    → b.worlds ≡ pos w
    → b.confirm_reserve ≡ pos r
    → IsMetered w r (new_ledger b)
new_ledger-IsMetered w r b e q = record { ceiling = e; held = q; within = omega arith }

-- Under a ceiling of w worlds, r of them in reserve, any requests of the stages are granted at most w - r
-- worlds in all, and together with any requests of the gate, once the reserve is opened, at most w.
pub worlds_bound :
    (w r : ℕ) (b : Budget) (stages gate : List (ℕ × ℤ))
    → b.worlds ≡ pos w
    → b.confirm_reserve ≡ pos r
    → (granted (new_ledger b) stages ≤ w - r)
      × (granted (new_ledger b) stages + granted (open_reserve (grants (new_ledger b) stages)) gate
          ≤ w)
unfolding open_reserve
worlds_bound w r b stages gate e q =
    let s = grants-IsMetered w r (new_ledger b) stages (new_ledger-IsMetered w r b e q) in
    let l = open_reserve (grants (new_ledger b) stages) in
    let t = grants-IsMetered w 0 l gate (open_reserve-IsMetered w r _ s.metered) in
    (omega (arith, s.charge, s.metered.within), omega (arith, s.charge, t.charge, t.metered.within))

-- All `n` worlds, and no reason to stop.
abbrev IsGranted : ℕ → Ledger × ℕ × StopReason → Type 0
IsGranted n (l, g, why) = (g ≡ n) × (why ≡ stop_complete)

acquire-IsGranted :
    (w r n : ℕ) (l : Ledger) (elapsed : ℤ)
    → IsMetered w r l
    → 1 ≤ n
    → l.spent + n ≤ w - r
    → wall_spent l.budget.wall elapsed ≡ false
    → IsGranted n (acquire l n elapsed)
unfolding acquire
acquire-IsGranted w r n l elapsed m h room in_time =
    let g = grant l.budget.worlds l.reserve l.spent n in
    let e : g ≡ (n, stop_complete) = (fair w r n l m).full room h in
    if_intro (IsGranted n) (n == 0) (l, 0, stop_complete) _ (λ q. absurd (ground arith))
      (λ _.
        if_intro (IsGranted n) (wall_spent l.budget.wall elapsed) (l, 0, stop_wall_budget)
          (record l { spent = l.spent + g.0 }, g.0, g.1) (λ q. absurd (ground arith))
          (λ _. (ap (λ p. p.0) e, ap (λ p. p.1) e)))

-- Under a ceiling of w worlds of which r are in reserve, r at most w, whatever the stages asked for: once the
-- reserve is opened, and while the gate has asked for fewer than r worlds, its next request for one world
-- is granted, unless the wall ceiling, with the grace added, has been reached.
pub reserve_is_kept :
    (w r : ℕ) (b : Budget) (stages gate : List (ℕ × ℤ)) (elapsed : ℤ)
    → b.worlds ≡ pos w
    → b.confirm_reserve ≡ pos r
    → r ≤ w
    → requested gate < r
    → wall_spent (extended b.wall b.confirm_wall_grace) elapsed ≡ false
    → let l = grants (open_reserve (grants (new_ledger b) stages)) gate in
      ((acquire l 1 elapsed).1 ≡ 1) × ((acquire l 1 elapsed).2 ≡ stop_complete)
unfolding open_reserve
reserve_is_kept w r b stages gate elapsed e q le asked in_time =
    let s = grants-IsMetered w r (new_ledger b) stages (new_ledger-IsMetered w r b e q) in
    let l = open_reserve (grants (new_ledger b) stages) in
    let t = grants-IsMetered w 0 l gate (open_reserve-IsMetered w r _ s.metered) in
    acquire-IsGranted w 0 1 (grants l gate) elapsed t.metered (omega arith)
      (omega (arith, t.charge, t.at_most, s.metered.within))
      (ap (λ z. wall_spent z.wall elapsed) t.same_budget
        ∙ ap (λ z. wall_spent (extended z.wall z.confirm_wall_grace) elapsed) s.same_budget
        ∙ in_time)
