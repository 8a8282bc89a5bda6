-- ===== src/Linear/Events/Table.antt =====
-- The node table that `newSearcher` (search.go) builds from the sorted events.
use pro_thesis.Prelude.{ℕ, zero, suc, ◌+◌, ◌-◌, ◌≤◌, ◌<◌, ◌≡◌, refl, sym, ap, subst, List, [], ◌∷◌}
use pro_thesis.Prelude.{Bool, true, false, ◌&&◌, ◌⊎◌, inl, inr, In, All, arith, Bool-cases}
use pro_thesis.Prelude.{◌∙◌, length, get_or, All_of_In, bool_eq, ◌==◌}
use pro_thesis.Prelude.Int.{◌≤ℤ◌}
use pro_thesis.Linear.Value.{Operation}
use pro_thesis.Linear.Events.{
  Event, before, events_of, invoke_event, return_event, sort_events, node_of, op_at, sentinel,
}
use pro_thesis.Linear.Events.Sorted.{Ordered, Distinct, SameKey, All-sort_events, In-sort_events}

-- No operation of determinate ends returns before it is invoked.
abbrev pub Forward : Operation → Type 0
Forward op = (op.open_at_start ≡ true) ⊎ ((op.open_at_end ≡ true) ⊎ (op.invoke_ns ≤ℤ op.return_ns))

abbrev pub event_of : Bool → ℕ → Operation → Event
event_of true i op = return_event i op
event_of false i op = invoke_event i op

event_of-is_return : (r : Bool) (i : ℕ) (op : Operation) → (event_of r i op).is_return ≡ r
event_of-is_return true i op = refl
event_of-is_return false i op = refl

event_of-idx : (r : Bool) (i : ℕ) (op : Operation) → (event_of r i op).idx ≡ i
event_of-idx true i op = refl
event_of-idx false i op = refl

-- The event of one of the operations `xs`, which are numbered from `i`.
pub record IsGenuine (i : ℕ) (xs : List Operation) (e : Event) : Type 0 where
  pub from : i ≤ e.idx
  pub upto : e.idx < i + length xs
  pub same : e ≡ event_of e.is_return e.idx (op_at xs (e.idx - i))

IsGenuine-tail :
    (i : ℕ) (x : Operation) (xs : List Operation) (e : Event)
    → IsGenuine (suc i) xs e
    → IsGenuine i (x ∷ xs) e
IsGenuine-tail i x xs e g =
    let q : e.idx - i ≡ suc (e.idx - suc i) = omega (arith, g.from) in
    record { from = omega (arith, g.from); upto = omega (arith, g.upto); same = rw q g.same }

IsGenuine-head :
    (r : Bool) (i : ℕ) (x : Operation) (xs : List Operation) → IsGenuine i (x ∷ xs) (event_of r i x)
IsGenuine-head true i x xs =
    let q : i - i ≡ zero = omega arith in
    record { from = omega arith; upto = omega arith; same = rw q refl }
IsGenuine-head false i x xs =
    let q : i - i ≡ zero = omega arith in
    record { from = omega arith; upto = omega arith; same = rw q refl }

All-map : (P Q : Event → Type 0) (xs : List Event) → ((e : Event) → P e → Q e) → All P xs → All Q xs
All-map P Q [] f h = tt
All-map P Q (x ∷ xs) f h = (f x h.0, All-map P Q xs f h.1)

events_of-IsGenuine : (i : ℕ) (xs : List Operation) → All (IsGenuine i xs) (events_of i xs)
unfolding events_of
events_of-IsGenuine i [] = tt
events_of-IsGenuine i (x ∷ xs) = (
  IsGenuine-head false i x xs,
  (
    IsGenuine-head true i x xs,
    All-map (IsGenuine (suc i) xs) (IsGenuine i (x ∷ xs)) (events_of (suc i) xs)
        (IsGenuine-tail i x xs) (events_of-IsGenuine (suc i) xs),
  ),
)

pub events_of-Distinct : (i : ℕ) (xs : List Operation) → Distinct (events_of i xs)
unfolding events_of
events_of-Distinct i [] = tt
events_of-Distinct i (x ∷ xs) = (
  (
    (λ k. cc (k.1)),
    All-map (IsGenuine (suc i) xs) _ (events_of (suc i) xs) (λ e g k. omega (arith, g.from, k.0))
        (events_of-IsGenuine (suc i) xs),
  ),
  (
    All-map (IsGenuine (suc i) xs) _ (events_of (suc i) xs) (λ e g k. omega (arith, g.from, k.0))
        (events_of-IsGenuine (suc i) xs),
    events_of-Distinct (suc i) xs,
  ),
)

In-events_of :
    (r : Bool) (i j : ℕ) (xs : List Operation)
    → j < length xs
    → In (event_of r (i + j) (op_at xs j)) (events_of i xs)
unfolding events_of
In-events_of r i j [] h = elim h [ ]
In-events_of true i zero (x ∷ xs) h =
    let q : i + 0 ≡ i = omega arith in inr (inl (ap (λ k. return_event k x) q))
In-events_of false i zero (x ∷ xs) h =
    let q : i + 0 ≡ i = omega arith in inl (ap (λ k. invoke_event k x) q)
In-events_of r i (suc j) (x ∷ xs) h =
    let q : i + suc j ≡ suc i + j = omega arith in
    inr (
      inr (
        subst (λ k. In (event_of r k (op_at xs j)) (events_of (suc i) xs)) (sym q)
          (In-events_of r (suc i) j xs (omega arith))))

-- Where an event of a key stands.
node_of_lem :
    (e : Event) (evs : List Event) (k : ℕ) (r : Bool) (i : ℕ)
    → In e evs
    → e.is_return ≡ r
    → e.idx ≡ i
    → (j : ℕ) × (node_of evs k r i ≡ k + j)
      × (j < length evs)
      × ((get_or evs j sentinel).is_return ≡ r)
      × ((get_or evs j sentinel).idx ≡ i)
unfolding node_of
node_of_lem e [] k r i m a b = elim m [ ]
node_of_lem e (x ∷ xs) k r i m a b = elim (Bool-cases (bool_eq x.is_return r && x.idx == i)) [
  | inl here ↦ (0, rw here (omega arith), omega arith, ground arith, ground arith)
  | inr other ↦ elim m [
    | inl is ↦ absurd (ground (arith, ap Event.is_return is, ap Event.idx is))
    | inr later ↦
        let (j, q, h, c, d) = node_of_lem e xs (k + 1) r i later a b in
        (suc j, rw other (omega (arith, q)), omega (arith, h), c, d)
  ]
]

pub In-get_or : (evs : List Event) (j : ℕ) → j < length evs → In (get_or evs j sentinel) evs
In-get_or [] j h = elim h [ ]
In-get_or (x ∷ xs) zero h = inl refl
In-get_or (x ∷ xs) (suc j) h = inr (In-get_or xs j (omega arith))

pub Distinct-get_or :
    (evs : List Event) (j k : ℕ)
    → Distinct evs
    → j < length evs
    → k < length evs
    → SameKey (get_or evs j sentinel) (get_or evs k sentinel)
    → j ≡ k
Distinct-get_or [] j k d h g s = elim h [ ]
Distinct-get_or (x ∷ xs) zero zero d h g s = refl
Distinct-get_or (x ∷ xs) zero (suc k) d h g s =
    absurd (All_of_In _ _ xs d.0 (In-get_or xs k (omega arith)) s)
Distinct-get_or (x ∷ xs) (suc j) zero d h g s =
    absurd (All_of_In _ _ xs d.0 (In-get_or xs j (omega arith)) (sym s.0, sym s.1))
Distinct-get_or (x ∷ xs) (suc j) (suc k) d h g s =
    ap suc (Distinct-get_or xs j k d.1 (omega arith) (omega arith) s)

pub Ordered-get_or :
    (evs : List Event) (j k : ℕ)
    → Ordered evs
    → j < k
    → k < length evs
    → before (get_or evs k sentinel) (get_or evs j sentinel) ≡ false
Ordered-get_or [] j k o h g = elim g [ ]
Ordered-get_or (x ∷ xs) zero zero o h g = absurd (omega arith)
Ordered-get_or (x ∷ xs) zero (suc k) o h g = All_of_In _ _ xs o.0 (In-get_or xs k (omega arith))
Ordered-get_or (x ∷ xs) (suc j) zero o h g = absurd (omega arith)
Ordered-get_or (x ∷ xs) (suc j) (suc k) o h g =
    Ordered-get_or xs j k o.1 (omega arith) (omega arith)

-- An operation's invoke sorts before its return.
pub invoke_first :
    (i : ℕ) (op : Operation) → Forward op → before (invoke_event i op) (return_event i op) ≡ true
unfolding before
invoke_first i op h = ground arith

module _ (ops : List Operation) where
  abbrev pub evs : List Event
  evs = sort_events (events_of 0 ops)

  pub sorted-IsGenuine : (j : ℕ) → j < length evs → IsGenuine 0 ops (get_or evs j sentinel)
  sorted-IsGenuine j h =
      All_of_In (IsGenuine 0 ops) _ evs
        (All-sort_events (IsGenuine 0 ops) (events_of 0 ops) (events_of-IsGenuine 0 ops))
        (In-get_or evs j h)

  -- The position of an operation's event.
  pub position :
      (r : Bool) (i : ℕ)
      → i < length ops
      → (j : ℕ) × (node_of evs 1 r i ≡ 1 + j)
        × (j < length evs)
        × ((get_or evs j sentinel).is_return ≡ r)
        × ((get_or evs j sentinel).idx ≡ i)
  position r i h =
      let e : 0 + i ≡ i = omega arith in
      node_of_lem (event_of r (0 + i) (op_at ops i)) evs 1 r i
        (In-sort_events _ (events_of 0 ops) (In-events_of r 0 i ops h))
        (event_of-is_return r (0 + i) (op_at ops i)) (event_of-idx r (0 + i) (op_at ops i) ∙ e)
