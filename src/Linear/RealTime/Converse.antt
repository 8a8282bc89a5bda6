-- ===== src/Linear/RealTime/Converse.antt =====
-- From orders of the operations in real time to linearizations of the event list (search.go).
use pro_thesis.Prelude.{ℕ, ◌<◌, ◌≡◌, refl, sym, ap, subst, List, [], ◌∷◌, ◌∙◌, true, false}
use pro_thesis.Prelude.{
  inl, inr, In, All, arith, length, Bool-cases, All_of_In, get_or-set_ne, length-set,
}
use pro_thesis.Linear.Value.{Operation}
use pro_thesis.Linear.Memo.{Bits, test_bit, set_bit}
use pro_thesis.Linear.Events.{build_nodes, op_at}
use pro_thesis.Linear.Events.Table.{Forward}
use pro_thesis.Linear.Events.Threaded.{build_nodes-IsThreaded}
use pro_thesis.Linear.Search.Spec.{Config, Picks, Linearization, done, pick, pending, Enabled}
use pro_thesis.Linear.Search.Pending.{unplaced, In-pending}
use pro_thesis.Linear.RealTime.{Accepts, IsOrder}
use pro_thesis.Linear.RealTime.Events.{alternatives-Accepts, Enabled-of_first}
use pro_thesis.Linear.RealTime.Bridge.{node_at, preceded, Left-after, op_is, idx_lt, Left}

module _ (ops : List Operation) (fwd : All Forward ops) where
  none_pending : (b : Bits) (xs : List ℕ) → ((x : ℕ) → In x xs → ⊥) → xs ≡ []
  none_pending b [] h = refl
  none_pending b (x ∷ xs) h = absurd (h x (inl refl))

  module _ (c : Config) (sized : length c.placed ≡ length ops) (i : ℕ) (order : List ℕ)
      (o : IsOrder ops (Left ops fwd c.placed) c.value (i ∷ order)) (n : ℕ) (h : 0 < n)
      (g : n < (build_nodes ops).tail) (call : (build_nodes ops).is_return n ≡ false)
      (at : (build_nodes ops).idx n ≡ i) where
    mine : (i < length ops) × (Left ops fwd c.placed i)
    mine = o.exact i (inl refl)

    call_pending : In n (pending (build_nodes ops) c.placed)
    call_pending =
        In-pending (build_nodes ops) (build_nodes-IsThreaded ops fwd) c.placed n h g
          (ap (test_bit c.placed) at ∙ mine.1)

    -- No operation left returns before the first of the order is invoked.
    no_return_before :
        (x : ℕ)
        → In x (pending (build_nodes ops) c.placed)
        → x < n
        → ¬ ((build_nodes ops).is_return x ≡ true)
    no_return_before x m lt r =
        let w = build_nodes-IsThreaded ops fwd in
        let (h2, g2, l) = unplaced (build_nodes ops) w c.placed x sized m in
        elim (o.complete ((build_nodes ops).idx x) (idx_lt ops fwd x h2 g2) l) [
          | inl e ↦ elim (w.pairs x n h2 g2 h g call (e ∙ sym at)) [
            | inl same ↦ omega arith
            | inr match ↦ omega (arith, (w.return_of n h g call).0)
          ]
          | inr later ↦
              preceded ops fwd n x i ((build_nodes ops).idx x) h2 lt g call at r refl
                (All_of_In _ _ order o.timely.0 later).0
        ]

    enabled : Enabled (build_nodes ops) n (pending (build_nodes ops) c.placed)
    enabled = Enabled-of_first (build_nodes ops) n c.placed call_pending call λ x m lt.
        elim (Bool-cases ((build_nodes ops).is_return x)) [
          | inl r ↦ absurd (no_return_before x m lt r)
          | inr no_ret ↦ no_ret
        ]

    next_config : Config
    next_config = record {
      value = o.answered.0;
      placed = set_bit c.placed ((build_nodes ops).idx n);
    }

    next-Picks : Picks (build_nodes ops) c next_config
    unfolding next_config
    next-Picks = record {
      call = n;
      is_enabled = enabled;
      allowed = (alternatives-Accepts ((build_nodes ops).op n) c.value o.answered.0).1 (
          subst (λ op. Accepts op.kind op c.value o.answered.0)
            (sym (op_is ops fwd n ∙ ap (op_at ops) at)) o.answered.1);
      marked = refl;
    }

    next-IsOrder : IsOrder ops (Left ops fwd next_config.placed) next_config.value order
    unfolding next_config
    next-IsOrder = record {
      complete = λ j lt l.
          let (a, ne) =
            Left-after ops fwd c.placed ((build_nodes ops).idx n) j sized (idx_lt ops fwd n h g)
              l in
          elim (o.complete j lt a) [ inl e ↦ absurd (ne (at ∙ sym e)) | inr later ↦ later ];
      exact = λ j m.
          let (lt, l) = o.exact j (inr m) in
          (
            lt,
            get_or-set_ne c.placed {i = (build_nodes ops).idx n} {j = j} true false
                  (λ q. (All_of_In _ _ order o.timely.0 m).1 (sym at ∙ q))
                ∙ l,
          );
      timely = o.timely.1;
      answered = o.answered.2;
    }

    next_sized : length next_config.placed ≡ length ops
    unfolding next_config
    next_sized = length-set c.placed ((build_nodes ops).idx n) true ∙ sized

  pub of_order :
      (order : List ℕ) (c : Config)
      → length c.placed ≡ length ops
      → IsOrder ops (Left ops fwd c.placed) c.value order
      → Linearization (build_nodes ops) c
  of_order [] c sized o = done c (
      none_pending c.placed _ (λ x m.
        let (h, g, l) =
          unplaced (build_nodes ops) (build_nodes-IsThreaded ops fwd) c.placed x sized m in
        elim (o.complete ((build_nodes ops).idx x) (idx_lt ops fwd x h g) l) [ ]))
  of_order (i ∷ order) c sized o =
      let (n, h, g, call, at) = node_at ops fwd false i (o.exact i (inl refl)).0 in
      pick c (next_config c sized i order o n h g call at)
        (next-Picks c sized i order o n h g call at)
        (of_order order (next_config c sized i order o n h g call at)
          (next_sized c sized i order o n h g call at)
          (next-IsOrder c sized i order o n h g call at))
