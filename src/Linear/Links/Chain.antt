-- ===== src/Linear/Links/Chain.antt =====
-- What the linked event list of search.go represents: `Chain l p xs q` says that the pointers lead
-- from `p` through `xs` to `q` and back, and that the nodes ascend.
use pro_thesis.Prelude.{ℕ, ◌≤◌, ◌<◌, ◌≡◌, ◌≢◌, refl, sym, ap, List, [], ◌∷◌, ◌∙◌}
use pro_thesis.Prelude.{not, inl, inr, In, filter, ◌==◌, arith, fun_ext, subst}
use pro_thesis.Linear.Links.{Links, cut, paste, lift, unlift}

abbrev pub Chain : Links → ℕ → List ℕ → ℕ → Type 0
Chain l p [] q = (p < q) × (l.next p ≡ q) × (l.prev q ≡ p)
Chain l p (x ∷ xs) q = (p < x) × (l.next p ≡ x) × (l.prev x ≡ p) × Chain l x xs q

-- A node's own links, between `p` and the rest.
pub record IsLinked (l : Links) (p n : ℕ) : Type 0 where
  pub above : p ≤ l.prev n
  pub prev_lt : l.prev n < n
  pub lt_next : n < l.next n
  pub next_prev : l.next (l.prev n) ≡ n
  pub prev_next : l.prev (l.next n) ≡ n

-- The first link of a chain.
first_link :
    (l : Links) (p : ℕ) (xs : List ℕ) (q : ℕ)
    → Chain l p xs q
    → (p < l.next p) × (l.prev (l.next p) ≡ p)
first_link l p [] q h = ground arith
first_link l p (x ∷ xs) q h = ground arith

pub Chain-IsLinked :
    (l : Links) (p : ℕ) (xs : List ℕ) (q n : ℕ) → Chain l p xs q → In n xs → IsLinked l p n
Chain-IsLinked l p [] q n h m = elim m [ ]
Chain-IsLinked l p (x ∷ xs) q n h (inl e) = ground (arith, first_link l x xs q h.3)
Chain-IsLinked l p (x ∷ xs) q n h (inr m) = ground (arith, Chain-IsLinked l x xs q n h.3 m)

-- A chain looks at no pointer outside itself.
Chain-frame :
    (l k : Links) (p : ℕ) (xs : List ℕ) (q : ℕ)
    → ((j : ℕ) → p ≤ j → k.next j ≡ l.next j)
    → ((j : ℕ) → p < j → k.prev j ≡ l.prev j)
    → Chain l p xs q
    → Chain k p xs q
Chain-frame l k p [] q hn hp c = ground (arith, hn p, hp q)
Chain-frame l k p (x ∷ xs) q hn hp c = (
  c.0,
  ground (arith, hn p),
  ground (arith, hp x),
  Chain-frame l k x xs q (λ j h. hn j (ground arith)) (λ j h. hp j (ground arith)) c.3,
)

abbrev pub remove : ℕ → List ℕ → List ℕ
remove n xs = filter (λ x. not (x == n)) xs

remove_above :
    (l : Links) (p : ℕ) (xs : List ℕ) (q n : ℕ) → Chain l p xs q → n ≤ p → remove n xs ≡ xs
remove_above l p [] q n c h = refl
remove_above l p (x ∷ xs) q n c h = ground (arith, remove_above l x xs q n c.3 (omega arith))

-- Cutting out the node behind `p` leaves the rest of the chain hanging on `p`.
cut_first :
    (l : Links) (p x : ℕ) (xs : List ℕ) (q : ℕ) → Chain l p (x ∷ xs) q → Chain (cut l x) p xs q
unfolding cut
cut_first l p x [] q c = ground arith
cut_first l p x (y ∷ ys) q c = (
  ground arith,
  ground arith,
  ground arith,
  Chain-frame l (cut l x) y ys q (λ j h. ground arith) (λ j h. ground arith) c.3.3,
)

remove_cons_self : (n : ℕ) (xs : List ℕ) → remove n (n ∷ xs) ≡ remove n xs
remove_cons_self n xs = ground arith

remove_cons_ne : (n x : ℕ) (xs : List ℕ) → x < n → remove n (x ∷ xs) ≡ x ∷ remove n xs
remove_cons_ne n x xs h = ground arith

cut_later :
    (l : Links) (p x : ℕ) (xs : List ℕ) (q n : ℕ)
    → Chain l p (x ∷ xs) q
    → IsLinked l x n
    → Chain (cut l n) x (remove n xs) q
    → Chain (cut l n) p (x ∷ remove n xs) q
unfolding cut
cut_later l p x xs q n c k rest = (c.0, ground arith, ground arith, rest)

pub cut-Chain :
    (l : Links) (p : ℕ) (xs : List ℕ) (q n : ℕ)
    → Chain l p xs q
    → In n xs
    → Chain (cut l n) p (remove n xs) q
cut-Chain l p [] q n c m = elim m [ ]
cut-Chain l p (x ∷ xs) q n c (inl e) =
    subst (λ k. Chain (cut l k) p (remove k (x ∷ xs)) q) (sym e)
      (rw (remove_cons_self x xs)
        (rw (remove_above l x xs q x c.3 (omega arith)) (cut_first l p x xs q c)))
cut-Chain l p (x ∷ xs) q n c (inr m) =
    let k = Chain-IsLinked l x xs q n c.3 m in
    rw (remove_cons_ne n x xs (omega (arith, k.above, k.prev_lt)))
      (cut_later l p x xs q n c k (cut-Chain l x xs q n c.3 m))

pub In-remove : (k n : ℕ) (xs : List ℕ) → In k xs → k ≢ n → In k (remove n xs)
In-remove k n [] m ne = m
In-remove k n (x ∷ xs) (inl e) ne = ground arith
In-remove k n (x ∷ xs) (inr m) ne = ground (arith, In-remove k n xs m ne)

pub paste-cut : (l : Links) (p n : ℕ) → IsLinked l p n → paste (cut l n) n ≡ l
unfolding paste cut
paste-cut l p n k = λ i. record {
  next = fun_ext {f = (paste (cut l n) n).next} {g = l.next} (λ j. ground arith) i;
  prev = fun_ext {f = (paste (cut l n) n).prev} {g = l.prev} (λ j. ground arith) i;
}

-- Lifting a call and its return out of a chain, and putting them back.
module _ (l : Links) (p : ℕ) (xs : List ℕ) (q n m : ℕ) (c : Chain l p xs q) (call : In n xs)
    (ret : In m xs) (ne : m ≢ n) where
  pub lift-Chain : Chain (lift l n m) p (remove m (remove n xs)) q
  unfolding lift
  lift-Chain =
      cut-Chain (cut l n) p (remove n xs) q m (cut-Chain l p xs q n c call)
        (In-remove m n xs ret ne)

  -- If a call and its return stand in the linked list, then taking them out and putting them back
  -- restores every pointer.
  pub unlift-lift : unlift (lift l n m) n m ≡ l
  unfolding lift unlift
  unlift-lift =
      ap (λ k. paste k n)
        (paste-cut (cut l n) p m (
          Chain-IsLinked (cut l n) p (remove n xs) q m (cut-Chain l p xs q n c call)
            (In-remove m n xs ret ne)))
      ∙ paste-cut l p n (Chain-IsLinked l p xs q n c call)

pub Chain-below :
    (l : Links) (p : ℕ) (xs : List ℕ) (q x : ℕ) → Chain l p xs q → In x xs → (p < x) × (x < q)
Chain-below l p [] q x c m = elim m [ ]
Chain-below l p (y ∷ []) q x c (inl e) = ground arith
Chain-below l p (y ∷ z ∷ ys) q x c (inl e) =
    ground (arith, Chain-below l y (z ∷ ys) q z c.3 (inl refl))
Chain-below l p (y ∷ ys) q x c (inr m) = ground (arith, Chain-below l y ys q x c.3 m)
