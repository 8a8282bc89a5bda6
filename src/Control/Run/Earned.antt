-- ===== src/Control/Run/Earned.antt =====
-- What a PASS of `Runner.Run` (internal/control/runner.go) rests on, and when its loop ends.
use pro_thesis.Prelude.{ℕ, suc, ◌+◌, ◌≤◌, ◌≡◌, List, [], ◌∷◌, true, false, Option, none, some}
use pro_thesis.Prelude.{
  arith, ◌⊎◌, inl, inr, In, All, All_of_In, take, length, refl, ap, Bool-cases, ◌∙◌, sym, subst,
  ◌≢◌, if◌then◌else◌, ltb,
}
use pro_thesis.Prelude.Int.{ℤ, pos, ◌≤ℤ◌, ◌<ℤ◌}
use pro_thesis.Control.Outcome.{Outcome, pass, canceled, rank}
use pro_thesis.Control.Budget.{
  Budget, Tracker, new_tracker, may_start_world, wall_expired, worlds_exhausted, expiry_outcome,
  note_world_started, note_world_finished,
}
use pro_thesis.Control.Run.{Round, run_loop, run_outcome, is_violation}

-- How a loop that ends with `pass` went: `n` more worlds, each of which passed, and a limit reached.
pub record Clean (t : Tracker) (rounds : List Round) (t' : Tracker) (n : ℕ) : Type 0 where
  pub within : n ≤ length rounds
  pub passed : All (λ r. r.result ≡ pass) (take n rounds)
  pub completed_more : t'.completed ≡ t.completed + n
  pub started_more : t'.started ≡ t.started + n
  pub same_budget : t'.budget ≡ t.budget
  pub limit_reached :
      (worlds_exhausted t' ≡ true)
      ⊎ ((r : Round) × In r rounds × (wall_expired t' r.elapsed ≡ true))

stopped :
    (t : Tracker) (r : Round) (rounds : List Round)
    → may_start_world t r.elapsed ≡ false
    → Clean t (r ∷ rounds) t 0
unfolding may_start_world
stopped t r rounds h = record {
  within = omega arith;
  passed = tt;
  completed_more = omega arith;
  started_more = omega arith;
  same_budget = refl;
  limit_reached = elim (Bool-cases (worlds_exhausted t)) [
    | inl e ↦ inl e
    | inr e ↦ inr (r, inl refl, ground (arith, h, e))
  ];
}

one_more :
    (t : Tracker) (r : Round) (rounds : List Round) (t' : Tracker) (n : ℕ)
    → r.result ≡ pass
    → Clean (note_world_finished (note_world_started t)) rounds t' n
    → Clean t (r ∷ rounds) t' (suc n)
one_more t r rounds t' n p c = record {
  within = omega (arith, c.within);
  passed = (p, c.passed);
  completed_more = omega (arith, c.completed_more);
  started_more = omega (arith, c.started_more);
  same_budget = c.same_budget;
  limit_reached = elim (c.limit_reached) [ inl e ↦ inl e | inr w ↦ inr (w.0, inr w.1, w.2) ];
}

folded_pass :
    (o p : Outcome) → (if ltb (rank o) (rank p) then p else o) ≡ pass → (o ≡ pass) × (p ≡ pass)
unfolding rank
folded_pass o p h = ground arith

module _ (t : Tracker) (o : Outcome) (r : Round) (rounds : List Round) where
  loop_stop : may_start_world t r.elapsed ≡ false → run_loop t o (r ∷ rounds) ≡ some (t, o)
  unfolding run_loop
  loop_stop h = rw h

  loop_cancel :
      may_start_world t r.elapsed ≡ true
      → r.interrupted ≡ true
      → run_loop t o (r ∷ rounds) ≡ some (t, canceled)
  unfolding run_loop
  loop_cancel h c = rw h (rw c)

  loop_violation :
      may_start_world t r.elapsed ≡ true
      → r.interrupted ≡ false
      → is_violation r.result ≡ true
      → run_loop t o (r ∷ rounds)
        ≡ some (
          note_world_finished (note_world_started t),
          (if ltb (rank o) (rank r.result) then r.result else o),
        )
  unfolding run_loop
  loop_violation h c v = rw h (rw c (rw v))

  loop_next :
      may_start_world t r.elapsed ≡ true
      → r.interrupted ≡ false
      → is_violation r.result ≡ false
      → run_loop t o (r ∷ rounds)
        ≡ run_loop
            (note_world_finished (note_world_started t))
            (if ltb (rank o) (rank r.result) then r.result else o)
            rounds
  unfolding run_loop
  loop_next h c v = rw h (rw c (rw v))

unwrap : Tracker × Outcome → Option (Tracker × Outcome) → Tracker × Outcome
unwrap d none = d
unwrap d (some z) = z

results :
    {t t' : Tracker} {o o' : Outcome}
    → ◌≡◌ {A = Option (Tracker × Outcome)} (some (t, o)) (some (t', o'))
    → (t ≡ t') × (o ≡ o')
unfolding unwrap
results {t} {o = o} h = (ap (λ z. (unwrap (t, o) z).0) h, ap (λ z. (unwrap (t, o) z).1) h)

not_violation : (o : Outcome) → is_violation o ≡ true → o ≢ pass
not_violation o h p = ground arith

run_loop-Clean :
    (t : Tracker) (o : Outcome) (rounds : List Round) (t' : Tracker) (o' : Outcome)
    → run_loop t o rounds ≡ some (t', o')
    → o' ≡ pass
    → (n : ℕ) × (o ≡ pass) × Clean t rounds t' n
unfolding run_loop
run_loop-Clean t o [] t' o' h p = cc
run_loop-Clean t o (r ∷ rounds) t' o' h p = elim (Bool-cases (may_start_world t r.elapsed)) [
  | inr off ↦
      let (et, eo) = results (sym (loop_stop t o r rounds off) ∙ h) in
      (0, eo ∙ p, subst (λ z. Clean t (r ∷ rounds) z 0) et (stopped t r rounds off))
  | inl on ↦ elim (Bool-cases r.interrupted) [
    | inl cut ↦ let (et, eo) = results (sym (loop_cancel t o r rounds on cut) ∙ h) in cc (eo, p)
    | inr uncut ↦ elim (Bool-cases (is_violation r.result)) [
      | inl bad ↦
          let (et, eo) = results (sym (loop_violation t o r rounds on uncut bad) ∙ h) in
          absurd (not_violation r.result bad (folded_pass o r.result (eo ∙ p)).1)
      | inr fine ↦
          let (n, q, c) =
            run_loop-Clean (note_world_finished (note_world_started t))
              (if ltb (rank o) (rank r.result) then r.result else o) rounds t' o'
              (sym (loop_next t o r rounds on uncut fine) ∙ h) p in
          (
            suc n,
            (folded_pass o r.result q).0,
            one_more t r rounds t' n (folded_pass o r.result q).1 c,
          )
    ]
  ]
]

-- Enough worlds for the budget: all of a finite count, or an open-ended profile's minimum.
abbrev pub IsEnough : Budget → ℕ → Type 0
IsEnough b n =
    ((b.worlds ≤ℤ pos 0) × (1 ≤ n) × (b.min_worlds ≤ℤ pos n))
    ⊎ ((pos 0 <ℤ b.worlds) × (b.worlds ≤ℤ pos n))

expiry-IsEnough : (t : Tracker) → expiry_outcome t ≡ pass → IsEnough t.budget t.completed
unfolding expiry_outcome
expiry-IsEnough t h = ground arith

exhausted-IsEnough :
    (t : Tracker)
    → t.started ≡ t.completed
    → worlds_exhausted t ≡ true
    → IsEnough t.budget t.completed
unfolding worlds_exhausted
exhausted-IsEnough t e h = ground arith

expired_later : (t : Tracker) (a b : ℤ) → a ≤ℤ b → wall_expired t a ≡ true → wall_expired t b ≡ true
unfolding wall_expired
expired_later t a b le h = ground arith

run_outcome-pass :
    (elapsed : ℤ) (t : Tracker) (o : Outcome)
    → run_outcome elapsed t o ≡ pass
    → (o ≡ pass) × ((wall_expired t elapsed ≡ false) ⊎ (expiry_outcome t ≡ pass))
unfolding run_outcome
run_outcome-pass elapsed t o h = (ground arith, ground arith)

-- If a run that starts with no world done ends in PASS, and its clock never goes back, then every
-- world that it entered passed, and they were enough for the budget: all of a finite count, or at
-- least one and at least the profile's minimum where the count is open-ended.
pub run-earned :
    (b : Budget) (rounds : List Round) (elapsed : ℤ) (t : Tracker) (o : Outcome)
    → All (λ r. r.elapsed ≤ℤ elapsed) rounds
    → run_loop (new_tracker b) pass rounds ≡ some (t, o)
    → run_outcome elapsed t o ≡ pass
    → (t.completed ≤ length rounds)
      × All (λ r. r.result ≡ pass) (take t.completed rounds)
      × IsEnough b t.completed
run-earned b rounds elapsed t o clock h p =
    let (q, late) = run_outcome-pass elapsed t o p in
    let (n, z, c) = run_loop-Clean (new_tracker b) pass rounds t o h q in
    let count : t.completed ≡ n = omega (arith, c.completed_more) in
    let same : t.started ≡ t.completed = omega (arith, c.completed_more, c.started_more) in
    (
      omega (arith, c.within, count),
      subst (λ k. All (λ r. r.result ≡ pass) (take k rounds)) (sym count) c.passed,
      subst (λ d. IsEnough d t.completed) c.same_budget
          (elim (c.limit_reached) [
            | inl full ↦ exhausted-IsEnough t same full
            | inr w ↦ elim late [
              | inl not_yet ↦ cc (
                  sym not_yet
                  ∙ expired_later t (w.0).elapsed elapsed (All_of_In _ _ rounds clock w.1) w.2)
              | inr expiry ↦ expiry-IsEnough t expiry
            ]
          ]),
    )

room_left :
    (t : Tracker) (elapsed : ℤ)
    → pos 0 <ℤ t.budget.worlds
    → may_start_world t elapsed ≡ true
    → pos (t.started + 1) ≤ℤ t.budget.worlds
unfolding may_start_world
room_left t elapsed fin h = ground arith

-- If the world count is finite and not yet passed, and more rounds are given than it leaves, the
-- loop ends.
pub run_loop-ends :
    (t : Tracker) (o : Outcome) (rounds : List Round)
    → pos 0 <ℤ t.budget.worlds
    → pos t.started ≤ℤ t.budget.worlds
    → t.budget.worlds <ℤ pos (t.started + length rounds)
    → (r : Tracker × Outcome) × (run_loop t o rounds ≡ some r)
run_loop-ends t o [] fin low more = absurd (omega arith)
run_loop-ends t o (r ∷ rounds) fin low more = elim (Bool-cases (may_start_world t r.elapsed)) [
  | inr off ↦ ((t, o), loop_stop t o r rounds off)
  | inl on ↦ elim (Bool-cases r.interrupted) [
    | inl cut ↦ ((t, canceled), loop_cancel t o r rounds on cut)
    | inr uncut ↦ elim (Bool-cases (is_violation r.result)) [
      | inl bad ↦ (_, loop_violation t o r rounds on uncut bad)
      | inr fine ↦
          let (res, q) =
            run_loop-ends (note_world_finished (note_world_started t))
              (if ltb (rank o) (rank r.result) then r.result else o) rounds fin
              (room_left t r.elapsed fin on) (omega (arith, more)) in
          (res, loop_next t o r rounds on uncut fine ∙ q)
    ]
  ]
]
