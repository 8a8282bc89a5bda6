-- ===== src/Linear/Search/Invariant.antt =====
-- What holds at the top of the loop of `run` (search.go). `V` lists the configurations that the
-- search has entered, and `P` those that its stack would go back to.
use pro_thesis.Prelude.{ℕ, ◌+◌, ◌≡◌, sym, subst, List, [], ◌∷◌, ◌∙◌}
use pro_thesis.Prelude.{true, false, ◌⊎◌, inl, inr, In, length, drop, length-set}
use pro_thesis.Linear.Value.{Value}
use pro_thesis.Linear.Model.{alternatives}
use pro_thesis.Linear.Memo.{Bits, set_bit, seen_in}
use pro_thesis.Linear.Links.{Links, lift}
use pro_thesis.Linear.Links.Chain.{Chain, lift-Chain}
use pro_thesis.Linear.Search.{Nodes, Frame, Searcher}
use pro_thesis.Linear.Search.Spec.{Config, Picks, pending, Enabled, IsThreaded}
use pro_thesis.Linear.Search.Pending.{
  Enabled-In, Enabled-call, match-pending, match-ne, pending-set_bit,
}

-- The configuration that linearizing `n` with the value `a` leads to.
abbrev pub picked : Nodes → Config → ℕ → Value → Config
picked nodes c n a = record { value = a; placed = set_bit c.placed (nodes.idx n) }

-- Every alternative of `n` is among `rest`, or has been entered.
abbrev pub Handled : Nodes → List Config → Config → ℕ → List Value → Type 0
Handled nodes V c n rest =
    (a : Value) → In a (alternatives c.value (nodes.op n)) → In a rest ⊎ In (picked nodes c n a) V

-- `e` is a position of the event list `xs`, and the nodes before it are handled calls.
abbrev pub Before : Nodes → List Config → Config → List ℕ → ℕ → Type 0
Before nodes V c [] e = e ≡ nodes.tail
Before nodes V c (x ∷ xs) e =
    (e ≡ x) ⊎ ((nodes.is_return x ≡ false) × Handled nodes V c x [] × Before nodes V c xs e)

-- Every configuration that follows has been entered.
abbrev pub Closed : Nodes → List Config → Config → Type 0
Closed nodes V c = (d : Config) → Picks nodes c d → In d V

-- The frame `f` led from `p`, with links `lp`, to `c`, with links `l`.
pub record IsOpen (nodes : Nodes) (V : List Config) (f : Frame) (p : Config) (lp l : Links)
    (c : Config) : Type 0 where
  pub value_kept : f.prev_state ≡ p.value
  pub marked : c.placed ≡ set_bit p.placed (nodes.idx f.call)
  pub lifted : l ≡ lift lp f.call (nodes.match f.call)
  pub position : Before nodes V p (pending nodes p.placed) f.call
  pub is_enabled : Enabled nodes f.call (pending nodes p.placed)
  pub allowed : In c.value (alternatives p.value (nodes.op f.call))
  pub tried : Handled nodes V p f.call (drop (f.alt + 1) (alternatives p.value (nodes.op f.call)))

abbrev pub config : Searcher → Config
config s = record { value = s.state; placed = s.linear }

module _ (nodes : Nodes) (ops : ℕ) (root : Config) where
  abbrev pub OpenAt : List Config → List Frame → List Config → Links → Config → Type 0
  OpenAt V [] [] l c =
      (c ≡ root) × Chain l 0 (pending nodes c.placed) nodes.tail × (length c.placed ≡ ops)
  OpenAt V [] (p ∷ P) l c = ⊥
  OpenAt V (f ∷ stk) [] l c = ⊥
  OpenAt V (f ∷ stk) (p ∷ P) l c = (lp : Links) × IsOpen nodes V f p lp l c × OpenAt V stk P lp p

  pub record Inv (V P : List Config) (s : Searcher) : Type 0 where
    pub stacked : OpenAt V s.stack P s.links (config s)
    pub recorded :
        (h : ℕ) (v : Value) (b : Bits)
        → seen_in (s.memo.buckets h) v b ≡ true
        → In (record { value = v; placed = b }) V
    pub settled : (c : Config) → In c V → (c ≡ config s) ⊎ (In c P ⊎ Closed nodes V c)
    pub unfinished : (c : Config) → In c V → (c ≡ config s) ⊎ ¬ (pending nodes c.placed ≡ [])
    pub rooted : In root V

-- More entered configurations change nothing.
module _ (nodes : Nodes) (V : List Config) (d : Config) where
  pub Handled-more :
      (c : Config) (n : ℕ) (rest : List Value)
      → Handled nodes V c n rest
      → Handled nodes (d ∷ V) c n rest
  Handled-more c n rest h a m = elim (h a m) [ inl r ↦ inl r | inr r ↦ inr (inr r) ]

  pub Before-more :
      (c : Config) (xs : List ℕ) (e : ℕ) → Before nodes V c xs e → Before nodes (d ∷ V) c xs e
  Before-more c [] e h = h
  Before-more c (x ∷ xs) e (inl h) = inl h
  Before-more c (x ∷ xs) e (inr h) = inr (h.0, Handled-more c x [] h.1, Before-more c xs e h.2)

  pub IsOpen-more :
      (f : Frame) (p : Config) (lp l : Links) (c : Config)
      → IsOpen nodes V f p lp l c
      → IsOpen nodes (d ∷ V) f p lp l c
  IsOpen-more f p lp l c o = record {
    value_kept = o.value_kept;
    marked = o.marked;
    lifted = o.lifted;
    position = Before-more p (pending nodes p.placed) f.call o.position;
    is_enabled = o.is_enabled;
    allowed = o.allowed;
    tried = Handled-more p f.call _ o.tried;
  }

  pub OpenAt-more :
      (ops : ℕ) (root : Config) (stk : List Frame) (P : List Config) (l : Links) (c : Config)
      → OpenAt nodes ops root V stk P l c
      → OpenAt nodes ops root (d ∷ V) stk P l c
  OpenAt-more ops root [] [] l c h = h
  OpenAt-more ops root [] (p ∷ P) l c h = h
  OpenAt-more ops root (f ∷ stk) [] l c h = h
  OpenAt-more ops root (f ∷ stk) (p ∷ P) l c (lp, o, h) =
      (lp, IsOpen-more f p lp l c o, OpenAt-more ops root stk P lp p h)

-- The links of every configuration on the stack represent its pending events.
module _ (nodes : Nodes) (ops : ℕ) (root : Config) (w : IsThreaded nodes ops) where
  -- Placing an enabled call, by `lift`, represents what is pending afterwards.
  pub placed-Chain :
      (l : Links) (b : Bits) (n : ℕ)
      → Chain l 0 (pending nodes b) nodes.tail × (length b ≡ ops)
      → Enabled nodes n (pending nodes b)
      → Chain (lift l n (nodes.match n)) 0 (pending nodes (set_bit b (nodes.idx n))) nodes.tail
        × (length (set_bit b (nodes.idx n)) ≡ ops)
  placed-Chain l b n (c, sized) e =
      let m = Enabled-In nodes n (pending nodes b) e in
      let call = Enabled-call nodes n (pending nodes b) e in
      (
        rw (pending-set_bit nodes w b n sized m call) (
            lift-Chain l 0 (pending nodes b) nodes.tail n (nodes.match n) c m
              (match-pending nodes w b n sized m call) (match-ne nodes w b n sized m call)),
        length-set b (nodes.idx n) true ∙ sized,
      )

  pub OpenAt-Chain :
      (V : List Config) (stk : List Frame) (P : List Config) (l : Links) (c : Config)
      → OpenAt nodes ops root V stk P l c
      → Chain l 0 (pending nodes c.placed) nodes.tail × (length c.placed ≡ ops)
  OpenAt-Chain V [] [] l c h = (h.1, h.2)
  OpenAt-Chain V [] (p ∷ P) l c h = elim h [ ]
  OpenAt-Chain V (f ∷ stk) [] l c h = elim h [ ]
  OpenAt-Chain V (f ∷ stk) (p ∷ P) l c (lp, o, h) =
      let r = placed-Chain lp p.placed f.call (OpenAt-Chain V stk P lp p h) o.is_enabled in
      subst (λ b. Chain l 0 (pending nodes b) nodes.tail × (length b ≡ ops)) (sym o.marked)
        (
          subst (λ k. Chain k 0 (pending nodes (set_bit p.placed (nodes.idx f.call))) nodes.tail)
              (sym o.lifted) r.0,
          r.1,
        )
