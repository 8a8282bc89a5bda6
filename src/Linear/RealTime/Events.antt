-- ===== src/Linear/RealTime/Events.antt =====
-- The order of the events (search.go) against the order of the operations in real time.
use pro_thesis.Prelude.{ℕ, zero, suc, ◌+◌, ◌-◌, ◌<◌, ◌≡◌, refl, sym, ap, subst, List, [], ◌∷◌, ◌∙◌}
use pro_thesis.Prelude.{Bool, true, false, not, inl, inr, In, arith, filter, Bool-cases, ◌↔◌}
use pro_thesis.Linear.Value.{Value, Operation, OpKind, read, write, equal_iff}
use pro_thesis.Linear.Model.{alternatives, alternatives_of}
use pro_thesis.Linear.Events.{before, invoke_event, return_event}
use pro_thesis.Linear.RealTime.{Precedes, Accepts}
use pro_thesis.Linear.Memo.{test_bit}
use pro_thesis.Linear.Search.{Nodes}
use pro_thesis.Linear.Search.Spec.{Enabled, up_from, pending}

-- An operation's return comes before another's invoke exactly if the one precedes the other.
pub return_first :
    (i j : ℕ) (a b : Operation) → Precedes a b → before (return_event i a) (invoke_event j b) ≡ true
unfolding before
return_first i j a b h = ground arith

pub invoke_not_after :
    (i j : ℕ) (a b : Operation)
    → ¬ (Precedes a b)
    → before (invoke_event j b) (return_event i a) ≡ true
unfolding before
invoke_not_after i j a b h = ground arith

-- The alternatives of search.go are the register's answers.
alternatives_sound :
    (k : OpKind) (op : Operation) (v d : Value) → In d (alternatives_of k v op) → Accepts k op v d
unfolding alternatives_of
alternatives_sound read op v d h = ground (arith, equal_iff v op.value)
alternatives_sound write op v d h = ground (arith, equal_iff v op.value)

alternatives_complete :
    (k : OpKind) (op : Operation) (v d : Value) → Accepts k op v d → In d (alternatives_of k v op)
unfolding alternatives_of
alternatives_complete read op v d h = ground (arith, equal_iff v op.value)
alternatives_complete write op v d h = ground (arith, equal_iff v op.value)

-- The values that the search tries next are exactly those that the register may hold when the
-- operation takes effect.
pub alternatives-Accepts :
    (op : Operation) (v d : Value) → In d (alternatives v op) ↔ Accepts op.kind op v d
unfolding alternatives
alternatives-Accepts op v d =
    (alternatives_sound op.kind op v d, alternatives_complete op.kind op v d)

-- Nodes that ascend from `p`.
abbrev Above : ℕ → List ℕ → Type 0
Above p [] = Unit
Above p (x ∷ xs) = (p < x) × Above x xs

Above-up_from : (q : ℕ → Bool) (n p k : ℕ) → p < k → Above p (filter q (up_from n k))
Above-up_from q zero p k h = tt
Above-up_from q (suc n) p k h = elim (Bool-cases (q k)) [
  | inl e ↦ rw e (h, Above-up_from q n k (k + 1) (omega arith))
  | inr e ↦ rw e (Above-up_from q n p (k + 1) (omega arith))
]

Above-In : (p : ℕ) (xs : List ℕ) (x : ℕ) → Above p xs → In x xs → p < x
Above-In p [] x a m = elim m [ ]
Above-In p (y ∷ ys) x a (inl e) = omega arith
Above-In p (y ∷ ys) x a (inr m) = omega (arith, Above-In y ys x a.1 m)

-- An enabled call stands before every pending return.
Enabled-first :
    (nodes : Nodes) (n x p : ℕ) (xs : List ℕ)
    → Above p xs
    → Enabled nodes n xs
    → In x xs
    → nodes.is_return x ≡ true
    → n < x
Enabled-first nodes n x p [] a en m r = elim m [ ]
Enabled-first nodes n x p (y ∷ ys) a en (inl e) r = cc (sym r ∙ ap nodes.is_return e ∙ en.0)
Enabled-first nodes n x p (y ∷ ys) a en (inr m) r = elim (en.1) [
  | inl e ↦ omega (arith, Above-In y ys x a.1 m)
  | inr later ↦ Enabled-first nodes n x y ys a.1 later m r
]

-- A call that stands before every pending return is enabled.
Enabled-of_head :
    (nodes : Nodes) (n p : ℕ) (xs : List ℕ)
    → Above p xs
    → In n xs
    → nodes.is_return n ≡ false
    → ((x : ℕ) → In x xs → x < n → nodes.is_return x ≡ false)
    → Enabled nodes n xs
Enabled-of_head nodes n p [] a m c h = m
Enabled-of_head nodes n p (y ∷ ys) a (inl e) c h =
    (subst (λ k. nodes.is_return k ≡ false) e c, inl e)
Enabled-of_head nodes n p (y ∷ ys) a (inr m) c h = (
  h y (inl refl) (Above-In y ys n a.1 m),
  inr (Enabled-of_head nodes n y ys a.1 m c (λ x k l. h x (inr k) l)),
)

module _ (nodes : Nodes) (n : ℕ) where
  above : (b : List Bool) → Above 0 (pending nodes b)
  above b = Above-up_from (λ x. not (test_bit b (nodes.idx x))) (nodes.tail - 1) 0 1 (omega arith)

  pub pending_first :
      (x : ℕ) (b : List Bool)
      → Enabled nodes n (pending nodes b)
      → In x (pending nodes b)
      → nodes.is_return x ≡ true
      → n < x
  pending_first x b en m r = Enabled-first nodes n x 0 (pending nodes b) (above b) en m r

  pub Enabled-of_first :
      (b : List Bool)
      → In n (pending nodes b)
      → nodes.is_return n ≡ false
      → ((x : ℕ) → In x (pending nodes b) → x < n → nodes.is_return x ≡ false)
      → Enabled nodes n (pending nodes b)
  Enabled-of_first b m c h = Enabled-of_head nodes n 0 (pending nodes b) (above b) m c h
