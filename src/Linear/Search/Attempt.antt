-- ===== src/Linear/Search/Attempt.antt =====
-- `tryFrom` of search.go and the invariant of the search.
use pro_thesis.Prelude.{ℕ, suc, ◌+◌, ◌<◌, ◌≡◌, refl, sym, ap, subst, List, [], ◌∷◌, ◌∙◌, Bool, true}
use pro_thesis.Prelude.{false, ◌⊎◌, inl, inr, In, arith, drop, length, Bool-cases, set_same}
use pro_thesis.Prelude.{set-set, drop_tail, In-drop}
use pro_thesis.Linear.Value.{Value}
use pro_thesis.Linear.Model.{alternatives}
use pro_thesis.Linear.Memo.{Bits, set_bit, clear_bit, insert, insert_stale, insert-seen_in}
use pro_thesis.Linear.Search.{Nodes, Searcher, try_alternatives, advance}
use pro_thesis.Linear.Search.Spec.{Config, pending, Enabled, IsThreaded}
use pro_thesis.Linear.Search.Pending.{Enabled-In, unplaced}
use pro_thesis.Linear.Search.Invariant.{
  Handled, Before, Inv, config, picked, Before-more, OpenAt-more, OpenAt-Chain,
}

module _ (hash : Value → Bits → ℕ) (nodes : Nodes) (limit_states : ℕ) (expired : ℕ → Bool) (ops : ℕ)
    (root : Config) (w : IsThreaded nodes ops) where
  -- The two ways in which an attempt on the call `n` ends.
  abbrev pub Tried : List Config → List Config → Searcher → ℕ → Searcher × Bool → Type 0
  Tried V P s n r =
      ((r ≡ (s, false)) × Handled nodes V (config s) n [])
      ⊎ ((s' : Searcher) × (V' : List Config) × (P' : List Config) × (r ≡ (s', true))
          × Inv nodes ops root V' P' s'
          × (s'.st.states ≡ s.st.states + 1)
          × (length s'.stack ≡ suc (length s.stack)))

  stale_step :
      (s : Searcher) (n i : ℕ) (a : Value) (rest : List Value)
      → (insert hash s.memo a (set_bit s.linear (nodes.idx n))).1 ≡ false
      → try_alternatives hash nodes limit_states expired s n i (a ∷ rest)
        ≡ try_alternatives hash nodes limit_states expired
            (record s {
              linear = clear_bit (set_bit s.linear (nodes.idx n)) (nodes.idx n);
              memo = (insert hash s.memo a (set_bit s.linear (nodes.idx n))).0;
            })
            n
            (i + 1)
            rest
  unfolding try_alternatives
  stale_step s n i a rest h = rw h

  fresh_step :
      (s : Searcher) (n i : ℕ) (a : Value) (rest : List Value)
      → (insert hash s.memo a (set_bit s.linear (nodes.idx n))).1 ≡ true
      → try_alternatives hash nodes limit_states expired s n i (a ∷ rest) ≡ (
        advance hash nodes limit_states expired
            (record s {
              linear = set_bit s.linear (nodes.idx n);
              memo = (insert hash s.memo a (set_bit s.linear (nodes.idx n))).0;
            })
            n
            i
            a,
        true,
      )
  unfolding try_alternatives
  fresh_step s n i a rest h = rw h

  -- An entered configuration is counted.
  counted :
      (s : Searcher) (n i : ℕ) (a : Value)
      → (advance hash nodes limit_states expired s n i a).st.states ≡ s.st.states + 1
  unfolding advance
  counted s n i a = ground arith

  module _ (V P : List Config) (s : Searcher) (n : ℕ) (inv : Inv nodes ops root V P s)
      (en : Enabled nodes n (pending nodes s.linear))
      (at : Before nodes V (config s) (pending nodes s.linear) n) where
    -- Clearing a bit that is clear.
    cleared : clear_bit s.linear (nodes.idx n) ≡ s.linear
    cleared =
        let (c, sized) = OpenAt-Chain nodes ops root w V s.stack P s.links (config s) inv.stacked in
        let (h, g, e) =
          unplaced nodes w s.linear n sized (Enabled-In nodes n (pending nodes s.linear) en) in
        set_same s.linear (nodes.idx n) false false e
          (subst (λ k. nodes.idx n < k) (sym sized) (w.idx_lt n h g))

    -- The alternatives behind `a`, once `a` is entered.
    passed :
        (i : ℕ) (a : Value) (rest : List Value)
        → drop i (alternatives s.state (nodes.op n)) ≡ a ∷ rest
        → Handled nodes V (config s) n (a ∷ rest)
        → Handled nodes
            (picked nodes (config s) n a ∷ V)
            (config s)
            n
            (drop (i + 1) (alternatives s.state (nodes.op n)))
    passed i a rest e h b m = elim (h b m) [
      | inl r ↦ elim r [
        | inl same ↦ inr (inl (ap (picked nodes (config s) n) same))
        | inr later ↦ inl (subst (In b) (sym (drop_tail i _ e)) later)
      ]
      | inr r ↦ inr (inr r)
    ]

    -- A configuration with an enabled call is not the end.
    not_finished : ¬ (pending nodes s.linear ≡ [])
    not_finished q = subst (Enabled nodes n) q en

    entered :
        (i : ℕ) (a : Value) (rest : List Value)
        → drop i (alternatives s.state (nodes.op n)) ≡ a ∷ rest
        → Handled nodes V (config s) n (a ∷ rest)
        → Inv nodes ops root (picked nodes (config s) n a ∷ V) (config s ∷ P) (
            advance hash nodes limit_states expired
              (record s {
                linear = set_bit s.linear (nodes.idx n);
                memo = (insert hash s.memo a (set_bit s.linear (nodes.idx n))).0;
              })
              n
              i
              a)
    unfolding advance
    entered i a rest e h = record {
      stacked = (
        s.links,
        record {
          value_kept = refl;
          marked = refl;
          lifted = refl;
          position = Before-more nodes V _ (config s) (pending nodes s.linear) n at;
          is_enabled = en;
          allowed = In-drop a i _ (subst (In a) (sym e) (inl refl));
          tried = passed i a rest e h;
        },
        OpenAt-more nodes V _ ops root s.stack P s.links (config s) inv.stacked,
      );
      recorded = λ k v b m.
          elim (insert-seen_in hash s.memo a (set_bit s.linear (nodes.idx n)) k v b m) [
            | inl old ↦ inr (inv.recorded k v b old)
            | inr r ↦ inl (λ j. record { value = r.0 j; placed = r.1 j })
          ];
      settled = λ c m. elim m [
        | inl new ↦ inl new
        | inr old ↦ elim (inv.settled c old) [
          | inl this ↦ inr (inl (inl this))
          | inr r ↦ elim r [
            | inl parent ↦ inr (inl (inr parent))
            | inr closed ↦ inr (inr (λ d k. inr (closed d k)))
          ]
        ]
      ];
      unfinished = λ c m. elim m [
        | inl new ↦ inl new
        | inr old ↦ elim (inv.unfinished c old) [
          | inl this ↦ inr (λ q. not_finished (subst (λ z. pending nodes z.placed ≡ []) this q))
          | inr r ↦ inr r
        ]
      ];
      rooted = inr inv.rooted;
    }

    seen_before :
        (a : Value) (rest : List Value)
        → In (picked nodes (config s) n a) V
        → Handled nodes V (config s) n (a ∷ rest)
        → Handled nodes V (config s) n rest
    seen_before a rest old h b m = elim (h b m) [
      | inl r ↦ elim r [
        | inl same ↦ inr (subst (λ z. In (picked nodes (config s) n z) V) (sym same) old)
        | inr later ↦ inl later
      ]
      | inr r ↦ inr r
    ]

    pub try_alternatives-Tried :
        (i : ℕ) (alts : List Value)
        → drop i (alternatives s.state (nodes.op n)) ≡ alts
        → Handled nodes V (config s) n alts
        → Tried V P s n (try_alternatives hash nodes limit_states expired s n i alts)
    unfolding try_alternatives advance
    try_alternatives-Tried i [] e h = inl ((λ k. (record s { linear = cleared k }, false)), h)
    try_alternatives-Tried i (a ∷ rest) e h =
        elim (Bool-cases (insert hash s.memo a (set_bit s.linear (nodes.idx n))).1) [
          | inl fresh ↦
              let t = record s {
                linear = set_bit s.linear (nodes.idx n);
                memo = (insert hash s.memo a (set_bit s.linear (nodes.idx n))).0;
              } in
              inr (
                _,
                _,
                _,
                fresh_step s n i a rest fresh,
                entered i a rest e h,
                counted t n i a,
                refl,
              )
          | inr stale ↦
              let old = insert_stale hash s.memo a (set_bit s.linear (nodes.idx n)) stale in
              subst (Tried V P s n) (sym (stale_step s n i a rest stale)) (
                subst
                  (λ z.
                    Tried V P s n
                      (try_alternatives hash nodes limit_states expired z n (i + 1) rest))
                  (λ j. record s {
                    linear = sym (set-set s.linear (nodes.idx n) true false ∙ cleared) j;
                    memo = sym old.1 j;
                  })
                  (try_alternatives-Tried (i + 1) rest (drop_tail i _ e)
                    (seen_before a rest (inv.recorded _ a _ old.0) h)))
        ]
