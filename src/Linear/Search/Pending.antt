-- ===== src/Linear/Search/Pending.antt =====
-- How the pending events change when an operation is placed.
use pro_thesis.Prelude.{
  ℕ, zero, suc, ◌+◌, ◌-◌, ◌≤◌, ◌<◌, ◌≡◌, ◌≢◌, refl, ap, List, [], ◌∷◌, Bool, true,
}
use pro_thesis.Prelude.{false, not, ◌&&◌, inl, inr, In, filter, length, ◌==◌, arith}
use pro_thesis.Prelude.{get_or-set_self, get_or-set_ne, Bool-cases, ==_iff, subst, sym, ℕ_discrete}
use pro_thesis.Linear.Memo.{Bits, set_bit, test_bit}
use pro_thesis.Linear.Links.Chain.{remove}
use pro_thesis.Linear.Search.{Nodes}
use pro_thesis.Linear.Search.Spec.{up_from, events, pending, Enabled, IsThreaded}

up_from_bounds : (n k x : ℕ) → In x (up_from n k) → (k ≤ x) × (x < k + n)
up_from_bounds zero k x m = elim m [ ]
up_from_bounds (suc n) k x (inl e) = omega arith
up_from_bounds (suc n) k x (inr m) = omega (arith, up_from_bounds n (k + 1) x m)

In-up_from : (n k x : ℕ) → k ≤ x → x < k + n → In x (up_from n k)
In-up_from zero k x h g = absurd (omega arith)
In-up_from (suc n) k x h g = elim (Bool-cases (x == k)) [
  | inl e ↦ inl ((==_iff x k).0 e)
  | inr e ↦ inr (In-up_from n (k + 1) x (ground arith) (omega arith))
]

filter_keep :
    (p : ℕ → Bool) (x : ℕ) (xs : List ℕ) → p x ≡ true → filter p (x ∷ xs) ≡ x ∷ filter p xs
filter_keep p x xs h = rw h

filter_drop : (p : ℕ → Bool) (x : ℕ) (xs : List ℕ) → p x ≡ false → filter p (x ∷ xs) ≡ filter p xs
filter_drop p x xs h = rw h

In-filter : (p : ℕ → Bool) (x : ℕ) (xs : List ℕ) → In x (filter p xs) → In x xs × (p x ≡ true)
In-filter p x [] m = elim m [ ]
In-filter p x (y ∷ ys) m = elim (Bool-cases (p y)) [
  | inl e ↦ elim (subst (In x) (filter_keep p y ys e) m) [
    | inl h ↦ (inl h, subst (λ k. p k ≡ true) (sym h) e)
    | inr h ↦ let r = In-filter p x ys h in (inr r.0, r.1)
  ]
  | inr e ↦ let r = In-filter p x ys (subst (In x) (filter_drop p y ys e) m) in (inr r.0, r.1)
]

In-filter_intro : (p : ℕ → Bool) (x : ℕ) (xs : List ℕ) → In x xs → p x ≡ true → In x (filter p xs)
In-filter_intro p x [] m h = m
In-filter_intro p x (y ∷ ys) (inl e) h =
    subst (In x) (sym (filter_keep p y ys (subst (λ k. p k ≡ true) e h))) (inl e)
In-filter_intro p x (y ∷ ys) (inr m) h = elim (Bool-cases (p y)) [
  | inl e ↦ subst (In x) (sym (filter_keep p y ys e)) (inr (In-filter_intro p x ys m h))
  | inr e ↦ subst (In x) (sym (filter_drop p y ys e)) (In-filter_intro p x ys m h)
]

-- Filters that agree on the members agree.
filter-filter :
    (p q r t : ℕ → Bool) (xs : List ℕ)
    → ((x : ℕ) → In x xs → p x ≡ (q x && (r x && t x)))
    → filter p xs ≡ filter t (filter r (filter q xs))
filter-filter p q r t [] h = refl
filter-filter p q r t (x ∷ xs) h =
    ground (arith, h x (inl refl), filter-filter p q r t xs (λ y m. h y (inr m)))

pub Enabled-In : (nodes : Nodes) (n : ℕ) (xs : List ℕ) → Enabled nodes n xs → In n xs
Enabled-In nodes n [] e = e
Enabled-In nodes n (x ∷ xs) e = elim (e.1) [ inl h ↦ inl h | inr h ↦ inr (Enabled-In nodes n xs h) ]

pub Enabled-call :
    (nodes : Nodes) (n : ℕ) (xs : List ℕ) → Enabled nodes n xs → nodes.is_return n ≡ false
Enabled-call nodes n [] e = elim e [ ]
Enabled-call nodes n (x ∷ xs) e = elim (e.1) [
  | inl h ↦ subst (λ k. nodes.is_return k ≡ false) (sym h) (e.0)
  | inr h ↦ Enabled-call nodes n xs h
]

module _ (nodes : Nodes) {ops : ℕ} (w : IsThreaded nodes ops) where
  pub events_bounds : (k : ℕ) → In k (events nodes) → (0 < k) × (k < nodes.tail)
  events_bounds k m = omega (arith, up_from_bounds (nodes.tail - 1) 1 k m, w.tail_pos)

  pub In-events : (k : ℕ) → 0 < k → k < nodes.tail → In k (events nodes)
  In-events k h g = In-up_from (nodes.tail - 1) 1 k (omega arith) (omega arith)

  -- An event of an unplaced operation is pending.
  pub In-pending :
      (b : Bits) (k : ℕ)
      → 0 < k
      → k < nodes.tail
      → test_bit b (nodes.idx k) ≡ false
      → In k (pending nodes b)
  In-pending b k h g e =
      In-filter_intro (λ x. not (test_bit b (nodes.idx x))) k (events nodes) (In-events k h g)
        (rw e)

  module _ (b : Bits) (n : ℕ) (sized : length b ≡ ops) (m : In n (pending nodes b)) where
    pub unplaced : (0 < n) × (n < nodes.tail) × (test_bit b (nodes.idx n) ≡ false)
    unplaced =
        let r = In-filter (λ k. not (test_bit b (nodes.idx k))) n (events nodes) m in
        (
          (events_bounds n r.0).0,
          (events_bounds n r.0).1,
          not_true (test_bit b (nodes.idx n)) (r.1),
        )
      where
        not_true : (c : Bool) → not c ≡ true → c ≡ false
        not_true c h = ground arith

    module _ (call : nodes.is_return n ≡ false) where
      -- The return of a pending call is pending.
      pub match-pending : In (nodes.match n) (pending nodes b)
      match-pending =
          let (h, g, e) = unplaced in
          let (later, below, same) = w.return_of n h g call in
          In-filter_intro (λ k. not (test_bit b (nodes.idx k))) (nodes.match n) (events nodes)
            (In-events (nodes.match n) (omega arith) below) (rw same (rw e))

      pub match-ne : nodes.match n ≢ n
      match-ne = let (h, g, e) = unplaced in omega (arith, (w.return_of n h g call).0)

      taken :
          (x : ℕ)
          → In x (events nodes)
          → not (test_bit (set_bit b (nodes.idx n)) (nodes.idx x))
            ≡ (not (test_bit b (nodes.idx x)) && (not (x == n) && not (x == nodes.match n)))
      taken x mx =
          let (h, g, e) = unplaced in
          let (later, below, same) = w.return_of n h g call in
          let (hx, gx) = events_bounds x mx in
          elim (ℕ_discrete (nodes.idx x) (nodes.idx n)) [
            | yes eq ↦ elim (w.pairs x n hx gx h g call eq) [
              | inl is ↦ ground (
                arith,
                ap (test_bit (set_bit b (nodes.idx n))) eq,
                get_or-set_self b (nodes.idx n) true false
                    (subst (λ k. nodes.idx n < k) (sym sized) (w.idx_lt n h g)),
              )
              | inr is ↦ ground (
                arith,
                ap (test_bit (set_bit b (nodes.idx n))) eq,
                get_or-set_self b (nodes.idx n) true false
                    (subst (λ k. nodes.idx n < k) (sym sized) (w.idx_lt n h g)),
              )
            ]
            | no ne ↦ ground (
              arith,
              get_or-set_ne b {i = nodes.idx n} {j = nodes.idx x} true false (λ q. ne (sym q)),
              ap nodes.idx {x = x} {y = n},
              ap nodes.idx {x = x} {y = nodes.match n},
            )
          ]

      -- Placing a call takes its two events away, and no other.
      pub pending-set_bit :
          pending nodes (set_bit b (nodes.idx n))
          ≡ remove (nodes.match n) (remove n (pending nodes b))
      pending-set_bit =
          filter-filter _ (λ x. not (test_bit b (nodes.idx x))) (λ x. not (x == n))
            (λ x. not (x == nodes.match n)) (events nodes) taken
