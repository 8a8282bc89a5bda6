-- ===== src/Linear/RealTime/Bridge.antt =====
-- From the linearizations of the event list (search.go) to orders of the operations in real time.
use pro_thesis.Prelude.{ℕ, ◌+◌, ◌-◌, ◌<◌, ◌≡◌, ◌≢◌, refl, sym, ap, subst, List, [], ◌∷◌, ◌∙◌}
use pro_thesis.Prelude.{Bool, true, false, inl, inr, In, All, arith, length, get_or}
use pro_thesis.Prelude.{All-intro, get_or-set_self, get_or-set_ne, length-set, ℕ_discrete}
use pro_thesis.Linear.Value.{Operation}
use pro_thesis.Linear.Memo.{Bits, test_bit, set_bit}
use pro_thesis.Linear.Events.{before, build_nodes, nodes_of, op_at, event_at, sentinel, events_of}
use pro_thesis.Linear.Events.Sorted.{sort_events-Ordered}
use pro_thesis.Linear.Events.Table.{
  Forward, evs, event_of, sorted-IsGenuine, position, Ordered-get_or,
}
use pro_thesis.Linear.Events.Threaded.{build_nodes-IsThreaded}
use pro_thesis.Linear.Search.{Nodes}
use pro_thesis.Linear.Search.Spec.{Config, Picks, Linearization, done, pick}
use pro_thesis.Linear.Search.Pending.{Enabled-In, Enabled-call, unplaced, In-pending}
use pro_thesis.Linear.RealTime.{Precedes, Accepts, IsOrder}
use pro_thesis.Linear.RealTime.Events.{
  return_first, invoke_not_after, alternatives-Accepts, pending_first,
}

module _ (ops : List Operation) (fwd : All Forward ops) where
  abbrev table : Nodes
  table = build_nodes ops

  -- The node of an operation's event.
  pub node_at :
      (r : Bool) (i : ℕ)
      → i < length ops
      → (k : ℕ) × (0 < k)
        × (k < (build_nodes ops).tail)
        × ((build_nodes ops).is_return k ≡ r)
        × ((build_nodes ops).idx k ≡ i)
  unfolding build_nodes nodes_of
  node_at r i h =
      let (j, q, lt, c, e) = position ops r i h in
      let back : 1 + j - 1 ≡ j = omega arith in
      (
        1 + j,
        omega arith,
        omega arith,
        ap (λ z. (get_or (evs ops) z sentinel).is_return) back ∙ c,
        ap (λ z. (get_or (evs ops) z sentinel).idx) back ∙ e,
      )

  -- What stands at a node.
  event_is :
      (k : ℕ) (r : Bool) (i : ℕ)
      → 0 < k
      → k < (build_nodes ops).tail
      → (build_nodes ops).is_return k ≡ r
      → (build_nodes ops).idx k ≡ i
      → event_at (evs ops) k ≡ event_of r i (op_at ops i)
  unfolding build_nodes nodes_of
  event_is k r i h g c e =
      let back : i - 0 ≡ i = omega arith in
      (sorted-IsGenuine ops (k - 1) (omega arith)).same
      ∙ ap (λ b. event_of b (event_at (evs ops) k).idx (op_at ops ((event_at (evs ops) k).idx - 0)))
          c
      ∙ ap (λ z. event_of r z (op_at ops (z - 0))) e
      ∙ ap (λ z. event_of r i (op_at ops z)) back

  pub idx_lt : (k : ℕ) → 0 < k → k < (build_nodes ops).tail → (build_nodes ops).idx k < length ops
  idx_lt k h g = (build_nodes-IsThreaded ops fwd).idx_lt k h g

  in_order :
      (k x : ℕ)
      → 0 < k
      → k < x
      → x < (build_nodes ops).tail
      → before (event_at (evs ops) x) (event_at (evs ops) k) ≡ false
  unfolding build_nodes nodes_of
  in_order k x h lt g =
      Ordered-get_or (evs ops) (k - 1) (x - 1) (sort_events-Ordered (events_of 0 ops)) (omega arith)
        (omega arith)

  -- A call at `n` and a return at `x`, in the one order or the other.
  not_preceded :
      (n x i j : ℕ)
      → 0 < n
      → n < x
      → x < (build_nodes ops).tail
      → (build_nodes ops).is_return n ≡ false
      → (build_nodes ops).idx n ≡ i
      → (build_nodes ops).is_return x ≡ true
      → (build_nodes ops).idx x ≡ j
      → ¬ (Precedes (op_at ops j) (op_at ops i))
  not_preceded n x i j h lt g c e r f p = cc (
    in_order n x h lt g,
    event_is n false i h (omega arith) c e,
    event_is x true j (omega arith) g r f,
    return_first j i (op_at ops j) (op_at ops i) p,
  )

  pub preceded :
      (n x i j : ℕ)
      → 0 < x
      → x < n
      → n < (build_nodes ops).tail
      → (build_nodes ops).is_return n ≡ false
      → (build_nodes ops).idx n ≡ i
      → (build_nodes ops).is_return x ≡ true
      → (build_nodes ops).idx x ≡ j
      → ¬ ¬ (Precedes (op_at ops j) (op_at ops i))
  preceded n x i j h lt g c e r f p = cc (
    in_order x n h lt g,
    event_is n false i (omega arith) g c e,
    event_is x true j h (omega arith) r f,
    invoke_not_after j i (op_at ops j) (op_at ops i) p,
  )

  abbrev pub Left : Bits → ℕ → Type 0
  Left b i = test_bit b i ≡ false

  -- The operations left once `i` is placed.
  pub Left-after :
      (b : Bits) (i j : ℕ)
      → length b ≡ length ops
      → i < length ops
      → Left (set_bit b i) j
      → Left b j × (i ≢ j)
  Left-after b i j sized h l = elim (ℕ_discrete i j) [
    | yes e ↦ cc (
        sym l
        ∙ ap (test_bit (set_bit b i)) (sym e)
        ∙ get_or-set_self b i true false (subst (λ z. i < z) (sym sized) h))
    | no ne ↦ (sym (get_or-set_ne b {i = i} {j = j} true false ne) ∙ l, ne)
  ]

  pub op_is : (k : ℕ) → (build_nodes ops).op k ≡ op_at ops ((build_nodes ops).idx k)
  unfolding build_nodes nodes_of
  op_is k = refl

  -- From the event list to an order of the operations.
  module _ (c d : Config) (sized : length c.placed ≡ length ops) (k : Picks (build_nodes ops) c d)
      (order : List ℕ) (o : IsOrder ops (Left d.placed) d.value order) where
    first : ℕ
    first = (build_nodes ops).idx k.call

    call_facts :
        (0 < k.call)
        × (k.call < (build_nodes ops).tail)
        × (Left c.placed ((build_nodes ops).idx k.call))
    call_facts =
        unplaced (build_nodes ops) (build_nodes-IsThreaded ops fwd) c.placed k.call sized
          (Enabled-In (build_nodes ops) k.call _ k.is_enabled)

    behind :
        (j : ℕ)
        → In j order
        → (j < length ops) × (Left c.placed j) × ((build_nodes ops).idx k.call ≢ j)
    behind j m =
        let (lt, l) = o.exact j m in
        let (h, g, e) = call_facts in
        let (a, b) =
          Left-after c.placed ((build_nodes ops).idx k.call) j sized (idx_lt k.call h g)
            (subst (λ z. Left z j) k.marked l) in
        (lt, a, b)

    on_time :
        (j : ℕ)
        → In j order
        → ¬ (Precedes (op_at ops j) (op_at ops ((build_nodes ops).idx k.call)))
          × ¬ ((build_nodes ops).idx k.call ≡ j)
    on_time j m =
        let (lt, l, ne) = behind j m in
        let (h, g, e) = call_facts in
        let (x, h2, g2, r, f) = node_at true j lt in
        let later =
          pending_first (build_nodes ops) k.call x c.placed k.is_enabled
            (In-pending (build_nodes ops) (build_nodes-IsThreaded ops fwd) c.placed x h2 g2
              (ap (test_bit c.placed) f ∙ l))
            r in
        (
          not_preceded k.call x _ j h later g2
              (Enabled-call (build_nodes ops) k.call _ k.is_enabled) refl r f,
          ne,
        )

    IsOrder-cons : IsOrder ops (Left c.placed) c.value ((build_nodes ops).idx k.call ∷ order)
    IsOrder-cons = record {
      complete = λ j lt l. elim (ℕ_discrete j ((build_nodes ops).idx k.call)) [
        | yes e ↦ inl e
        | no ne ↦ inr (
            o.complete j lt (
              subst (λ z. Left z j) (sym k.marked)
                (get_or-set_ne c.placed {i = (build_nodes ops).idx k.call} {j = j} true false
                    (λ q. ne (sym q))
                  ∙ l)))
      ];
      exact = λ j m. elim m [
        | inl e ↦
            let (h, g, f) = call_facts in
            (subst (λ z. z < length ops) (sym e) (idx_lt k.call h g), ap (test_bit c.placed) e ∙ f)
        | inr later ↦ let (lt, l, ne) = behind j later in (lt, l)
      ];
      timely = (All-intro _ order on_time, o.timely);
      answered = (
        d.value,
        subst (λ op. Accepts op.kind op c.value d.value) (op_is k.call)
            ((alternatives-Accepts ((build_nodes ops).op k.call) c.value d.value).0 k.allowed),
        o.answered,
      );
    }

  pub to_order :
      (c : Config)
      → length c.placed ≡ length ops
      → Linearization (build_nodes ops) c
      → (order : List ℕ) × IsOrder ops (Left c.placed) c.value order
  to_order c sized (done _ q) = (
    [],
    record {
      complete = λ j lt l.
          let (x, h, g, r, f) = node_at true j lt in
          subst (In x) q (
            In-pending (build_nodes ops) (build_nodes-IsThreaded ops fwd) c.placed x h g
              (ap (test_bit c.placed) f ∙ l));
      exact = λ j m. elim m [ ];
      timely = tt;
      answered = tt;
    },
  )
  to_order c sized (pick _ d k l) =
      let (order, o) =
        to_order d
          (ap length k.marked ∙ length-set c.placed ((build_nodes ops).idx k.call) true ∙ sized)
          l in
      ((build_nodes ops).idx k.call ∷ order, IsOrder-cons c d sized k order o)
