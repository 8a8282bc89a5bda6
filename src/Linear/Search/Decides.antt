-- ===== src/Linear/Search/Decides.antt =====
-- The turns of the loop of `run` (search.go), the invariant of the search and its answers.
use pro_thesis.Prelude.{
  ℕ, zero, suc, ◌+◌, ◌*◌, ◌≤◌, ◌<◌, ◌≡◌, refl, sym, ap, subst, List, [], ◌∷◌, ◌∙◌, Bool,
}
use pro_thesis.Prelude.{
  true, false, not, ◌&&◌, ◌⊎◌, inl, inr, In, arith, drop, Bool-cases, ◌==◌, ==_iff,
}
use pro_thesis.Prelude.{Option, some, length, ◌≢◌, set-set, set_same, ◌-◌, ◌||◌, ◌%◌, leb}
use pro_thesis.Linear.Value.{Value}
use pro_thesis.Linear.Model.{alternatives}
use pro_thesis.Linear.Memo.{Bits, clear_bit}
use pro_thesis.Linear.Links.{Links, unlift}
use pro_thesis.Linear.Links.Chain.{Chain, Chain-below, Chain-IsLinked, unlift-lift}
use pro_thesis.Linear.Search.{
  Nodes, Searcher, Frame, Outcome, linearizable, violated, exhausted, Turn, stop, go, try_from,
  attempt, undo, backtrack, turn, loop, head,
}
use pro_thesis.Linear.Search.Spec.{Config, Linearization, done, pick, pending, Enabled, IsThreaded}
use pro_thesis.Linear.Search.Pending.{Enabled-In, Enabled-call, unplaced, match-pending, match-ne}
use pro_thesis.Linear.Search.Invariant.{
  Handled, Before, Closed, IsOpen, OpenAt, Inv, config, OpenAt-Chain,
}
use pro_thesis.Linear.Search.Position.{Before-first, Before-next, Before-Enabled, Before-Closed}
use pro_thesis.Linear.Search.Attempt.{Tried, try_alternatives-Tried}

module _ (hash : Value → Bits → ℕ) (nodes : Nodes) (limit_states : ℕ) (expired : ℕ → Bool) (ops : ℕ)
    (root : Config) (w : IsThreaded nodes ops) where
  -- The invariant at an entry of the event list.
  pub record Ready (s : Searcher) (e : ℕ) : Type 0 where
    pub entered : List Config
    pub parents : List Config
    pub inv : Inv nodes ops root entered parents s
    pub position : Before nodes entered (config s) (pending nodes s.linear) e

  abbrev pub IsRight : Outcome → Type 0
  IsRight linearizable = Linearization nodes root
  IsRight violated = ¬ (Linearization nodes root)
  IsRight exhausted = Unit

  -- What falls from turn to turn: the states left, then the frames, then the nodes ahead.
  abbrev pub work : Searcher → ℕ → ℕ
  work s e =
      (limit_states - s.st.states) * (2 * (nodes.tail + 1))
      + length s.stack * (nodes.tail + 1)
      + (nodes.tail - e)

  -- A turn from a state of work `m` is fine.
  pub Fine : ℕ → Turn → Type 0
  Fine m (stop o s) = IsRight o
  Fine m (go s e) = Ready s e × (work s e < m)

  stop-Fine : (m : ℕ) (o : Outcome) (s : Searcher) → IsRight o → Fine m (stop o s)
  unfolding Fine
  stop-Fine m o s h = h

  go-Fine : (m : ℕ) (s : Searcher) (e : ℕ) → Ready s e → work s e < m → Fine m (go s e)
  unfolding Fine
  go-Fine m s e r h = (r, h)

  Fine-go : (m : ℕ) (s : Searcher) (e : ℕ) → Fine m (go s e) → Ready s e × (work s e < m)
  unfolding Fine
  Fine-go m s e f = f

  -- One state more costs more than a frame and a walk over the list.
  spend_state :
      (a k : ℕ) → a < limit_states → (limit_states - (a + 1)) * k + k ≡ (limit_states - a) * k
  spend_state a k h =
      let q : limit_states - a ≡ suc (limit_states - (a + 1)) = omega arith in rw q (omega arith)

  Chain-of :
      (V P : List Config) (s : Searcher)
      → Inv nodes ops root V P s
      → Chain s.links 0 (pending nodes s.linear) nodes.tail
  Chain-of V P s inv = (OpenAt-Chain nodes ops root w V s.stack P s.links (config s) inv.stacked).0

  module _ (V P : List Config) (s : Searcher) (n from : ℕ) (inv : Inv nodes ops root V P s)
      (en : Enabled nodes n (pending nodes s.linear))
      (at : Before nodes V (config s) (pending nodes s.linear) n) (m : ℕ) (fits : work s n ≤ m)
      (room : s.st.states < limit_states) where
    member : In n (pending nodes s.linear)
    member = Enabled-In nodes n (pending nodes s.linear) en

    below : n ≢ nodes.tail
    below = omega (
      arith,
      (Chain-below s.links 0 (pending nodes s.linear) nodes.tail n (Chain-of V P s inv) member).1,
    )

    attempt_end :
        (r : Searcher × Bool)
        → try_from hash nodes limit_states expired s n from ≡ r
        → Tried hash nodes limit_states expired ops root w V P s n r
        → Fine m (attempt hash nodes limit_states expired s n from)
    unfolding attempt
    attempt_end r e (inl (q, all)) = rw (e ∙ q) (
        go-Fine m s (s.links.next n)
          (record {
            entered = V;
            parents = P;
            inv = inv;
            position =
                Before-next nodes V (config s) s.links 0 (pending nodes s.linear) n
                  (Chain-of V P s inv) at below (Enabled-call nodes n (pending nodes s.linear) en)
                  all;
          })
          (omega (
            arith,
            fits,
            Chain-below s.links 0 (pending nodes s.linear) nodes.tail n (Chain-of V P s inv) member,
            (Chain-IsLinked s.links 0 (pending nodes s.linear) nodes.tail n (Chain-of V P s inv)
                member).lt_next,
          )))
    attempt_end r e (inr (s', V', P', q, inv', more, deep)) = rw (e ∙ q) (
        go-Fine m s' (s'.links.next head)
          (record {
            entered = V';
            parents = P';
            inv = inv';
            position =
                Before-first nodes V' (config s') s'.links 0 (pending nodes s'.linear)
                  (Chain-of V' P' s' inv');
          })
          (omega (
            arith,
            fits,
            spend_state s.st.states (2 * (nodes.tail + 1)) room,
            ap (λ z. (limit_states - z) * (2 * (nodes.tail + 1))) more,
            ap (λ z. z * (nodes.tail + 1)) deep,
          )))

    attempt-Fine :
        Handled nodes V (config s) n (drop from (alternatives s.state (nodes.op n)))
        → Fine m (attempt hash nodes limit_states expired s n from)
    unfolding try_from
    attempt-Fine h = attempt_end _ refl (
        try_alternatives-Tried hash nodes limit_states expired ops root w V P s n inv en at from _
          refl h)

  -- Undoing the choice of an open frame restores the parent.
  module _ (V : List Config) (f : Frame) (stk : List Frame) (p : Config) (P : List Config)
      (lp : Links) (s : Searcher) (o : IsOpen nodes V f p lp s.links (config s))
      (h : OpenAt nodes ops root V stk P lp p) where
    restored : Searcher
    restored = record (undo hash nodes limit_states expired s f stk) {
      links = lp;
      state = p.value;
      linear = p.placed;
    }

    parent-Chain : Chain lp 0 (pending nodes p.placed) nodes.tail × (length p.placed ≡ ops)
    parent-Chain = OpenAt-Chain nodes ops root w V stk P lp p h

    callee : In f.call (pending nodes p.placed)
    callee = Enabled-In nodes f.call (pending nodes p.placed) o.is_enabled

    is_call : nodes.is_return f.call ≡ false
    is_call = Enabled-call nodes f.call (pending nodes p.placed) o.is_enabled

    links_back : unlift s.links f.call (nodes.match f.call) ≡ lp
    links_back =
        let (c, sized) = parent-Chain in
        ap (λ l. unlift l f.call (nodes.match f.call)) o.lifted
        ∙ unlift-lift lp 0 (pending nodes p.placed) nodes.tail f.call (nodes.match f.call) c callee
            (match-pending nodes w p.placed f.call sized callee is_call)
            (match-ne nodes w p.placed f.call sized callee is_call)

    bits_back : clear_bit s.linear (nodes.idx f.call) ≡ p.placed
    bits_back =
        let (c, sized) = parent-Chain in
        let (a, b, e) = unplaced nodes w p.placed f.call sized callee in
        ap (λ z. clear_bit z (nodes.idx f.call)) o.marked
        ∙ set-set p.placed (nodes.idx f.call) true false
        ∙ set_same p.placed (nodes.idx f.call) false false e
            (subst (λ k. nodes.idx f.call < k) (sym sized) (w.idx_lt f.call a b))

    undo_lem : undo hash nodes limit_states expired s f stk ≡ restored
    unfolding undo restored
    undo_lem = λ j. record s {
      stack = stk;
      links = links_back j;
      state = o.value_kept j;
      last_write = f.prev_last_write;
      linear = bits_back j;
      depth = s.depth - 1;
    }

    restored-Inv :
        Inv nodes ops root V (p ∷ P) s
        → Closed nodes V (config s)
        → ¬ (pending nodes s.linear ≡ [])
        → Inv nodes ops root V P restored
    unfolding restored undo
    restored-Inv inv closed more = record {
      stacked = h;
      recorded = inv.recorded;
      settled = λ c m. elim (inv.settled c m) [
        | inl this ↦ inr (inr (subst (Closed nodes V) (sym this) closed))
        | inr r ↦ elim r [
          | inl q ↦ elim q [ inl parent ↦ inl parent | inr later ↦ inr (inl later) ]
          | inr fin ↦ inr (inr fin)
        ]
      ];
      unfinished = λ c m. elim (inv.unfinished c m) [
        | inl this ↦ inr (λ q. more (subst (λ z. pending nodes z.placed ≡ []) this q))
        | inr r ↦ inr r
      ];
      rooted = inv.rooted;
    }

    restored-work :
        (m : ℕ)
        → s.stack ≡ f ∷ stk
        → (limit_states - s.st.states) * (2 * (nodes.tail + 1)) + length s.stack * (nodes.tail + 1)
          ≤ m
        → work restored f.call ≤ m
    unfolding restored undo
    restored-work m top fits =
        let spent : restored.st.states ≡ s.st.states = refl in
        let left : restored.stack ≡ stk = refl in
        omega (
          arith,
          fits,
          ap (λ z. (limit_states - z) * (2 * (nodes.tail + 1))) spent,
          ap (λ z. length z * (nodes.tail + 1)) left,
          ap (λ z. length z * (nodes.tail + 1)) top,
        )

    pop-Fine :
        Inv nodes ops root V (p ∷ P) s
        → Closed nodes V (config s)
        → ¬ (pending nodes s.linear ≡ [])
        → (m : ℕ) → s.stack ≡ f ∷ stk
        → (limit_states - s.st.states) * (2 * (nodes.tail + 1)) + length s.stack * (nodes.tail + 1)
          ≤ m
        → s.st.states < limit_states
        → Fine m (backtrack hash nodes limit_states expired s (f ∷ stk))
    unfolding backtrack restored undo
    pop-Fine inv closed more m top fits room =
        subst (λ z. Fine m (attempt hash nodes limit_states expired z f.call (f.alt + 1)))
          (sym undo_lem)
          (attempt-Fine V P restored f.call (f.alt + 1) (restored-Inv inv closed more) o.is_enabled
            o.position m (restored-work m top fits) room o.tried)

  -- Where every entered configuration is closed and none is the end, there is no linearization.
  no-Linearization :
      (V : List Config)
      → ((c : Config) → In c V → Closed nodes V c)
      → ((c : Config) → In c V → ¬ (pending nodes c.placed ≡ []))
      → (c : Config) → In c V
      → ¬ (Linearization nodes c)
  no-Linearization V closed more c m (done _ q) = more c m q
  no-Linearization V closed more c m (pick _ d k l) =
      no-Linearization V closed more d (closed c m d k) l

  backtrack-Fine :
      (V : List Config) (stk : List Frame) (P : List Config) (s : Searcher)
      → s.stack ≡ stk
      → Inv nodes ops root V P s
      → Closed nodes V (config s)
      → ¬ (pending nodes s.linear ≡ [])
      → (m : ℕ)
      → (limit_states - s.st.states) * (2 * (nodes.tail + 1)) + length s.stack * (nodes.tail + 1)
        ≤ m
      → s.st.states < limit_states
      → Fine m (backtrack hash nodes limit_states expired s stk)
  unfolding backtrack Fine
  backtrack-Fine V stk P s e inv closed more m fits room =
      go_on stk P e inv (subst (λ z. OpenAt nodes ops root V z P s.links (config s)) e inv.stacked)
    where
      go_on :
          (stk : List Frame) (P : List Config)
          → s.stack ≡ stk
          → Inv nodes ops root V P s
          → OpenAt nodes ops root V stk P s.links (config s)
          → Fine m (backtrack hash nodes limit_states expired s stk)
      go_on [] [] top inv h =
          no-Linearization V
            (λ c m. elim (inv.settled c m) [
              | inl this ↦ subst (Closed nodes V) (sym this) closed
              | inr r ↦ elim r [ inl q ↦ elim q [ ] | inr fin ↦ fin ]
            ])
            (λ c m. elim (inv.unfinished c m) [
              | inl this ↦ λ q. more (subst (λ z. pending nodes z.placed ≡ []) this q)
              | inr r ↦ r
            ])
            root inv.rooted
      go_on [] (p ∷ P) top inv h = elim h [ ]
      go_on (f ∷ stk) [] top inv h = elim h [ ]
      go_on (f ∷ stk) (p ∷ P) top inv (lp, o, h) =
          pop-Fine V f stk p P lp s o h inv closed more m top fits room

  -- A finished configuration ends the stack's path from the root.
  path_up :
      (V : List Config) (stk : List Frame) (P : List Config) (l : Links) (c : Config)
      → OpenAt nodes ops root V stk P l c
      → Linearization nodes c
      → Linearization nodes root
  path_up V [] [] l c h lin = subst (Linearization nodes) h.0 lin
  path_up V [] (p ∷ P) l c h lin = elim h [ ]
  path_up V (f ∷ stk) [] l c h lin = elim h [ ]
  path_up V (f ∷ stk) (p ∷ P) l c (lp, o, h) lin = path_up V stk P lp p h (
      pick p c
        (record {
          call = f.call;
          is_enabled = o.is_enabled;
          allowed = o.allowed;
          marked = o.marked;
        })
        lin)

  Chain-end : (l : Links) (xs : List ℕ) → Chain l 0 xs nodes.tail → l.next 0 ≡ nodes.tail → xs ≡ []
  Chain-end l [] c e = refl
  Chain-end l (x ∷ xs) c e =
      absurd (omega (arith, Chain-below l 0 (x ∷ xs) nodes.tail x c (inl refl), c.1))

  Chain-more :
      (l : Links) (xs : List ℕ) → Chain l 0 xs nodes.tail → l.next 0 ≢ nodes.tail → ¬ (xs ≡ [])
  Chain-more l [] c ne q = ne c.1
  Chain-more l (x ∷ xs) c ne q = cc

  on_call :
      (e : ℕ)
      → (not (e == nodes.tail) && not (nodes.is_return e)) ≡ true
      → (e ≢ nodes.tail) × (nodes.is_return e ≡ false)
  on_call e h = ground arith

  off_call :
      (e : ℕ)
      → (not (e == nodes.tail) && not (nodes.is_return e)) ≡ false
      → (e ≡ nodes.tail) ⊎ (nodes.is_return e ≡ true)
  off_call e h = ground arith

  pub turn-Fine :
      (s : Searcher) (e : ℕ)
      → Ready s e
      → Fine (work s e) (turn hash nodes limit_states expired s e)
  unfolding turn
  turn-Fine s0 e r =
      let s = record s0 { st = record (s0.st) { steps = s0.st.steps + 1 } } in
      let V = r.entered in
      let P = r.parents in
      let inv : Inv nodes ops root V P s = record {
        stacked = r.inv.stacked;
        recorded = r.inv.recorded;
        settled = r.inv.settled;
        unfinished = r.inv.unfinished;
        rooted = r.inv.rooted;
      } in
      let c = Chain-of V P s inv in
      let steps = s0.st.steps + 1 in
      elim (Bool-cases (s.links.next head == nodes.tail)) [
        | inl fin ↦ rw fin (
            stop-Fine _ linearizable s (
              path_up V s.stack P s.links (config s) inv.stacked
                (done (config s) (Chain-end s.links _ c ((==_iff _ _).0 fin)))))
        | inr more ↦
            rw more (elim (Bool-cases ((steps == 1 || steps % 1024 == 0) && expired steps)) [
              | inl wall ↦ rw wall (stop-Fine _ exhausted _ tt)
              | inr time ↦ rw time (elim (Bool-cases (leb limit_states s.st.states)) [
                | inl full ↦ rw full (stop-Fine _ exhausted _ tt)
                | inr room ↦
                    rw room (elim (Bool-cases (not (e == nodes.tail) && not (nodes.is_return e))) [
                      | inl on ↦ rw on (
                          attempt-Fine V P s e 0 inv
                            (Before-Enabled nodes V (config s) _ e r.position (on_call e on).0
                              (on_call e on).1)
                            r.position (work s e) (omega arith) (ground (arith, room))
                            (λ a m. inl m))
                      | inr off ↦ rw off (
                          backtrack-Fine V s.stack P s refl inv
                            (Before-Closed nodes V (config s) s.links e c r.position
                              (off_call e off))
                            (Chain-more s.links _ c (λ q. cc (more, (==_iff _ _).1 q))) (work s e)
                            (omega arith) (ground (arith, room)))
                    ])
              ])
            ])
      ]

  loop_stop :
      (fuel : ℕ) (s : Searcher) (e : ℕ) (o : Outcome) (t : Searcher)
      → turn hash nodes limit_states expired s e ≡ stop o t
      → loop hash nodes limit_states expired (suc fuel) s e ≡ some (o, t)
  unfolding loop
  loop_stop fuel s e o t q = rw (q, loop)

  loop_go :
      (fuel : ℕ) (s : Searcher) (e : ℕ) (t : Searcher) (k : ℕ)
      → turn hash nodes limit_states expired s e ≡ go t k
      → loop hash nodes limit_states expired (suc fuel) s e
        ≡ loop hash nodes limit_states expired fuel t k
  unfolding loop
  loop_go fuel s e t k q = rw (q, loop)

  after_turn :
      (fuel : ℕ) (s : Searcher) (e : ℕ) (o : Outcome) (s' : Searcher) (t : Turn)
      → turn hash nodes limit_states expired s e ≡ t
      → Fine (work s e) t
      → ((s2 : Searcher) (e2 : ℕ)
          → Ready s2 e2
          → loop hash nodes limit_states expired fuel s2 e2 ≡ some (o, s')
          → IsRight o)
      → loop hash nodes limit_states expired (suc fuel) s e ≡ some (o, s')
      → IsRight o
  unfolding Fine
  after_turn fuel s e o s' (stop o2 s2) q fine next h =
      subst IsRight (outcomes (sym (loop_stop fuel s e o2 s2 q) ∙ h)) fine
    where
      outcomes : ◌≡◌ {A = Option (Outcome × Searcher)} (some (o2, s2)) (some (o, s')) → o2 ≡ o
      outcomes p = ground arith
  after_turn fuel s e o s' (go s2 e2) q fine next h =
      next s2 e2 fine.0 (sym (loop_go fuel s e s2 e2 q) ∙ h)

  -- The loop, from a state in which the invariant holds.
  pub loop-IsRight :
      (fuel : ℕ) (s : Searcher) (e : ℕ) {o : Outcome} {s' : Searcher}
      → Ready s e
      → loop hash nodes limit_states expired fuel s e ≡ some (o, s')
      → IsRight o
  unfolding loop
  loop-IsRight zero s e r h = cc
  loop-IsRight (suc fuel) s e {o} {s'} r h =
      after_turn fuel s e o s' _ refl (turn-Fine s e r) (λ s2 e2 r2 g. loop-IsRight fuel s2 e2 r2 g)
        h

  -- With more fuel than work, the loop returns.
  pub loop-returns :
      (fuel : ℕ) (s : Searcher) (e : ℕ)
      → Ready s e
      → work s e < fuel
      → (r : Outcome × Searcher) × (loop hash nodes limit_states expired fuel s e ≡ some r)
  loop-returns zero s e r h = absurd (omega arith)
  loop-returns (suc fuel) s e r h =
      returned (turn hash nodes limit_states expired s e) refl (turn-Fine s e r)
        (λ t k r2 g. loop-returns fuel t k r2 g)
    where
      returned :
          (t : Turn)
          → turn hash nodes limit_states expired s e ≡ t
          → Fine (work s e) t
          → ((s2 : Searcher) (k : ℕ)
              → Ready s2 k
              → work s2 k < fuel
              → (r : Outcome × Searcher) × (loop hash nodes limit_states expired fuel s2 k
                  ≡ some r))
          → (r : Outcome × Searcher) × (loop hash nodes limit_states expired (suc fuel) s e
              ≡ some r)
      returned (stop o t) q f next = ((o, t), loop_stop fuel s e o t q)
      returned (go t k) q f next =
          let (ready, less) = Fine-go (work s e) t k f in
          let (res, p) = next t k ready (omega (arith, less)) in (res, loop_go fuel s e t k q ∙ p)
