-- ===== src/Linear/Events/Threaded.antt =====
-- The node table that `newSearcher` (search.go) builds, and its links.
use pro_thesis.Prelude.{ℕ, zero, suc, ◌+◌, ◌-◌, ◌≤◌, ◌<◌, ◌≡◌, refl, sym, ap, List, [], ◌∷◌}
use pro_thesis.Prelude.{
  true, false, not, ◌⊎◌, inl, inr, ◌≢◌, All, arith, Bool-cases, ◌∙◌, length, get_or,
}
use pro_thesis.Linear.Value.{Operation}
use pro_thesis.Linear.Links.{Links, update}
use pro_thesis.Linear.Links.Chain.{Chain}
use pro_thesis.Linear.Events.{
  Event, build_nodes, nodes_of, before, node_of, op_at, sentinel, event_at, thread, invoke_event,
  return_event, events_of,
}
use pro_thesis.Linear.Events.Sorted.{sort_events-Ordered, sort_events-Distinct}
use pro_thesis.Linear.Events.Table.{
  Forward, IsGenuine, evs, sorted-IsGenuine, position, Distinct-get_or, Ordered-get_or,
  invoke_first, events_of-Distinct, event_of,
}
use pro_thesis.Linear.Search.Spec.{IsThreaded, up_from}

Forward-at :
    (ops : List Operation) (i : ℕ) → All Forward ops → i < length ops → Forward (op_at ops i)
Forward-at [] i a h = elim h [ ]
Forward-at (x ∷ xs) zero a h = a.0
Forward-at (x ∷ xs) (suc i) a h = Forward-at xs i a.1 (omega arith)

module _ (ops : List Operation) (fwd : All Forward ops) where
  invoke_before_return :
      (x y : Event)
      → IsGenuine 0 ops x
      → IsGenuine 0 ops y
      → x.is_return ≡ false
      → y.is_return ≡ true
      → y.idx ≡ x.idx
      → before x y ≡ true
  invoke_before_return x y gx gy c r e =
      let o = op_at ops (x.idx - 0) in
      let px : x ≡ invoke_event x.idx o = gx.same ∙ ap (λ b. event_of b x.idx o) c in
      let py : y ≡ return_event x.idx o =
        gy.same
        ∙ ap (λ b. event_of b y.idx (op_at ops (y.idx - 0))) r
        ∙ ap (λ i. return_event i (op_at ops (i - 0))) e in
      ap (λ z. before z y) px
      ∙ ap (before (invoke_event x.idx o)) py
      ∙ invoke_first x.idx o (Forward-at ops (x.idx - 0) fwd (omega (arith, gx.upto)))

  -- An invoke and a return of one operation stand in that order.
  in_order :
      (j k : ℕ)
      → j < length (evs ops)
      → k < length (evs ops)
      → (get_or (evs ops) k sentinel).is_return ≡ false
      → (get_or (evs ops) j sentinel).is_return ≡ true
      → (get_or (evs ops) j sentinel).idx ≡ (get_or (evs ops) k sentinel).idx
      → ¬ (j < k)
  in_order j k h g c r e lt =
      let gk = sorted-IsGenuine ops k g in
      let gj = sorted-IsGenuine ops j h in
      let b = Ordered-get_or (evs ops) j k (sort_events-Ordered (events_of 0 ops)) lt g in
      cc (b, invoke_before_return _ _ gk gj c r e)

  -- The node of the return of the call at `k`.
  match_of : ℕ → ℕ
  match_of k = node_of (evs ops) 1 (not (event_at (evs ops) k).is_return) (event_at (evs ops) k).idx

  match_position :
      (k : ℕ)
      → 0 < k
      → k < length (evs ops) + 1
      → (event_at (evs ops) k).is_return ≡ false
      → (j : ℕ) × (match_of k ≡ 1 + j)
        × (j < length (evs ops))
        × ((get_or (evs ops) j sentinel).is_return ≡ true)
        × ((get_or (evs ops) j sentinel).idx ≡ (event_at (evs ops) k).idx)
  unfolding match_of
  match_position k h g c =
      let (j, q, lt, r, e) =
        position ops true (event_at (evs ops) k).idx
          (omega (arith, (sorted-IsGenuine ops (k - 1) (omega arith)).upto)) in
      (j, ap (λ b. node_of (evs ops) 1 (not b) (event_at (evs ops) k).idx) c ∙ q, lt, r, e)

  return_later :
      (k : ℕ)
      → 0 < k
      → k < length (evs ops) + 1
      → (event_at (evs ops) k).is_return ≡ false
      → (k < match_of k)
        × (match_of k < length (evs ops) + 1)
        × ((event_at (evs ops) (match_of k)).idx ≡ (event_at (evs ops) k).idx)
  return_later k h g c =
      let (j, q, lt, r, e) = match_position k h g c in
      let apart : j ≢ k - 1 =
        λ z. cc (sym r ∙ ap (λ n. (get_or (evs ops) n sentinel).is_return) z ∙ c) in
      let low = in_order j (k - 1) lt (omega arith) c r e in
      let back : 1 + j - 1 ≡ j = omega arith in
      (
        omega (arith, q),
        omega (arith, q),
        ap (λ n. (event_at (evs ops) n).idx) q
            ∙ ap (λ n. (get_or (evs ops) n sentinel).idx) back
            ∙ e,
      )

  same_or_match :
      (j k : ℕ)
      → 0 < j
      → j < length (evs ops) + 1
      → 0 < k
      → k < length (evs ops) + 1
      → (event_at (evs ops) k).is_return ≡ false
      → (event_at (evs ops) j).idx ≡ (event_at (evs ops) k).idx
      → (j ≡ k) ⊎ (j ≡ match_of k)
  same_or_match j k h g h2 g2 c e =
      let d = sort_events-Distinct (events_of 0 ops) (events_of-Distinct 0 ops) in
      elim (Bool-cases (event_at (evs ops) j).is_return) [
        | inl ret ↦
            let (m, q, lt, r, e2) = match_position k h2 g2 c in
            let z =
              Distinct-get_or (evs ops) (j - 1) m d (omega arith) lt (e ∙ sym e2, ret ∙ sym r) in
            inr (omega (arith, q, z))
        | inr call ↦
            let z =
              Distinct-get_or (evs ops) (j - 1) (k - 1) d (omega arith) (omega arith)
                (e, call ∙ sym c) in
            inl (omega (arith, z))
      ]

  pub build_nodes-IsThreaded : IsThreaded (build_nodes ops) (length ops)
  unfolding build_nodes nodes_of match_of
  build_nodes-IsThreaded = record {
    tail_pos = omega arith;
    idx_lt = λ k h g. omega (arith, (sorted-IsGenuine ops (k - 1) (omega arith)).upto);
    return_of = λ k h g c. return_later k h (omega arith) c;
    pairs = λ j k h g h2 g2 c e. same_or_match j k h (omega arith) h2 (omega arith) c e;
  }

-- The threading loop links the nodes in order.
pub thread-Chain :
    (tail : ℕ) (l : Links) (cur left : ℕ)
    → cur + left + 1 ≡ tail
    → l.next cur ≡ tail
    → l.prev tail ≡ cur
    → Chain (thread tail l cur left) cur (up_from left (cur + 1)) tail
      × ((j : ℕ) → j < cur → (thread tail l cur left).next j ≡ l.next j)
      × ((j : ℕ) → j ≤ cur → (thread tail l cur left).prev j ≡ l.prev j)
unfolding thread
thread-Chain tail l cur zero e n p = ((omega arith, n, p), (λ j h. refl), (λ j h. refl))
thread-Chain tail l cur (suc left) e n p =
    let k = record l {
      next = update (update l.next (cur + 1) tail) cur (cur + 1);
      prev = update (update l.prev (cur + 1) cur) tail (cur + 1);
    } in
    let (c, hn, hp) =
      thread-Chain tail k (cur + 1) left (omega arith) (ground arith) (ground arith) in
    (
      (
        omega arith,
        hn cur (omega arith) ∙ ground arith,
        hp (cur + 1) (omega arith) ∙ ground arith,
        c,
      ),
      (λ j h. hn j (omega arith) ∙ ground arith),
      (λ j h. hp j (omega arith) ∙ ground arith),
    )
