-- ===== src/Linear/Search/Position.antt =====
-- The walk of `run` (search.go) over the event list: what its position says of the calls before it.
use pro_thesis.Prelude.{ℕ, ◌≡◌, ◌≢◌, refl, sym, ap, subst, List, [], ◌∷◌, true, false}
use pro_thesis.Prelude.{◌⊎◌, inl, inr, In, arith}
use pro_thesis.Linear.Links.{Links}
use pro_thesis.Linear.Links.Chain.{Chain, Chain-below}
use pro_thesis.Linear.Search.{Nodes}
use pro_thesis.Linear.Search.Spec.{Config, pending, Enabled}
use pro_thesis.Linear.Search.Invariant.{Handled, Before, Closed}

module _ (nodes : Nodes) (V : List Config) (c : Config) where
  -- The head's successor is the first position.
  pub Before-first :
      (l : Links) (p : ℕ) (xs : List ℕ) → Chain l p xs nodes.tail → Before nodes V c xs (l.next p)
  Before-first l p [] h = h.1
  Before-first l p (x ∷ xs) h = inl h.1

  -- Passing a handled call.
  pub Before-next :
      (l : Links) (p : ℕ) (xs : List ℕ) (e : ℕ)
      → Chain l p xs nodes.tail
      → Before nodes V c xs e
      → e ≢ nodes.tail
      → nodes.is_return e ≡ false
      → Handled nodes V c e []
      → Before nodes V c xs (l.next e)
  Before-next l p [] e h b ne call done = absurd (ne b)
  Before-next l p (x ∷ xs) e h (inl at) ne call done = inr (
    subst (λ k. nodes.is_return k ≡ false) at call,
    subst (λ k. Handled nodes V c k []) at done,
    subst (λ k. Before nodes V c xs (l.next k)) (sym at) (Before-first l x xs h.3),
  )
  Before-next l p (x ∷ xs) e h (inr (k, d, b)) ne call done =
      inr (k, d, Before-next l x xs e h.3 b ne call done)

  -- A call at the position can linearize next.
  pub Before-Enabled :
      (xs : List ℕ) (e : ℕ)
      → Before nodes V c xs e
      → e ≢ nodes.tail
      → nodes.is_return e ≡ false
      → Enabled nodes e xs
  Before-Enabled [] e b ne call = absurd (ne b)
  Before-Enabled (x ∷ xs) e (inl at) ne call =
      (subst (λ k. nodes.is_return k ≡ false) at call, inl at)
  Before-Enabled (x ∷ xs) e (inr (k, d, b)) ne call = (k, inr (Before-Enabled xs e b ne call))

  -- At the end of the list, or at a return, every enabled call has been handled.
  pub Before-Handled :
      (l : Links) (p : ℕ) (xs : List ℕ) (e n : ℕ)
      → Chain l p xs nodes.tail
      → Before nodes V c xs e
      → (e ≡ nodes.tail) ⊎ (nodes.is_return e ≡ true)
      → Enabled nodes n xs
      → Handled nodes V c n []
  Before-Handled l p [] e n h b stuck en = elim en [ ]
  Before-Handled l p (x ∷ xs) e n h (inl at) (inl end) en =
      absurd (omega (arith, Chain-below l p (x ∷ xs) nodes.tail x h (inl refl)))
  Before-Handled l p (x ∷ xs) e n h (inl at) (inr ret) en = cc (ap nodes.is_return at, ret, en.0)
  Before-Handled l p (x ∷ xs) e n h (inr (k, d, b)) stuck (call, inl this) =
      subst (λ j. Handled nodes V c j []) (sym this) d
  Before-Handled l p (x ∷ xs) e n h (inr (k, d, b)) stuck (call, inr later) =
      Before-Handled l x xs e n h.3 b stuck later

  pub Before-Closed :
      (l : Links) (e : ℕ)
      → Chain l 0 (pending nodes c.placed) nodes.tail
      → Before nodes V c (pending nodes c.placed) e
      → (e ≡ nodes.tail) ⊎ (nodes.is_return e ≡ true)
      → Closed nodes V c
  Before-Closed l e h b stuck d k =
      elim (Before-Handled l 0 (pending nodes c.placed) e k.call h b stuck k.is_enabled d.value
        k.allowed) [
          | inl m ↦ elim m [ ]
          | inr m ↦ subst (λ q. In q V) (λ i. record { value = d.value; placed = sym k.marked i }) m
        ]
