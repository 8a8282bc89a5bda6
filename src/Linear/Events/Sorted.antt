-- ===== src/Linear/Events/Sorted.antt =====
-- The sort of the events (search.go).
use pro_thesis.Prelude.{◌≡◌, sym, List, [], ◌∷◌, true, false}
use pro_thesis.Prelude.{◌⊎◌, inl, inr, In, All, arith, if_intro}
use pro_thesis.Linear.Events.{Event, before, insert_event, sort_events}

before_trans : (a b c : Event) → before b a ≡ false → before c b ≡ false → before c a ≡ false
unfolding before
before_trans a b c h k = ground arith

before_asym : (a b : Event) → before a b ≡ true → before b a ≡ false
unfolding before
before_asym a b h = ground arith

-- In order: no event is to come before an earlier one.
abbrev pub Ordered : List Event → Type 0
Ordered [] = Unit
Ordered (x ∷ xs) = All (λ y. before y x ≡ false) xs × Ordered xs

pub All-insert_event :
    (P : Event → Type 0) (x : Event) (xs : List Event) → P x → All P xs → All P (insert_event x xs)
unfolding insert_event
All-insert_event P x [] p h = (p, tt)
All-insert_event P x (y ∷ ys) p h =
    if_intro (All P) (before y x) _ _ (λ _. (h.0, All-insert_event P x ys p h.1)) (λ _. (p, h))

pub All-sort_events : (P : Event → Type 0) (xs : List Event) → All P xs → All P (sort_events xs)
unfolding sort_events
All-sort_events P [] h = tt
All-sort_events P (x ∷ xs) h = All-insert_event P x (sort_events xs) h.0 (All-sort_events P xs h.1)

pub In-insert_event : (e x : Event) (xs : List Event) → (e ≡ x) ⊎ In e xs → In e (insert_event x xs)
unfolding insert_event
In-insert_event e x [] h = h
In-insert_event e x (y ∷ ys) h =
    if_intro (In e) (before y x) _ _
      (λ _. elim h [
        | inl a ↦ inr (In-insert_event e x ys (inl a))
        | inr r ↦ elim r [ inl a ↦ inl a | inr m ↦ inr (In-insert_event e x ys (inr m)) ]
      ])
      (λ _. h)

pub In-sort_events : (e : Event) (xs : List Event) → In e xs → In e (sort_events xs)
unfolding sort_events
In-sort_events e [] h = h
In-sort_events e (x ∷ xs) (inl a) = In-insert_event e x (sort_events xs) (inl a)
In-sort_events e (x ∷ xs) (inr m) =
    In-insert_event e x (sort_events xs) (inr (In-sort_events e xs m))

All-later :
    (x y : Event) (ys : List Event)
    → before y x ≡ false
    → All (λ z. before z y ≡ false) ys
    → All (λ z. before z x ≡ false) ys
All-later x y [] h a = tt
All-later x y (z ∷ zs) h a = (before_trans x y z h a.0, All-later x y zs h a.1)

insert_event-Ordered : (x : Event) (xs : List Event) → Ordered xs → Ordered (insert_event x xs)
unfolding insert_event
insert_event-Ordered x [] h = (tt, tt)
insert_event-Ordered x (y ∷ ys) h =
    if_intro Ordered (before y x) _ _
      (λ b. (
        All-insert_event (λ z. before z y ≡ false) x ys (before_asym y x b) h.0,
        insert_event-Ordered x ys h.1,
      ))
      (λ b. ((b, All-later x y ys b h.0), h))

pub sort_events-Ordered : (xs : List Event) → Ordered (sort_events xs)
unfolding sort_events
sort_events-Ordered [] = tt
sort_events-Ordered (x ∷ xs) = insert_event-Ordered x (sort_events xs) (sort_events-Ordered xs)

-- Two events of one operation and one kind.
abbrev pub SameKey : Event → Event → Type 0
SameKey a b = (a.idx ≡ b.idx) × (a.is_return ≡ b.is_return)

abbrev pub Distinct : List Event → Type 0
Distinct [] = Unit
Distinct (x ∷ xs) = All (λ y. ¬ (SameKey x y)) xs × Distinct xs

insert_event-Distinct :
    (x : Event) (xs : List Event)
    → All (λ y. ¬ (SameKey x y)) xs
    → Distinct xs
    → Distinct (insert_event x xs)
unfolding insert_event
insert_event-Distinct x [] a d = (tt, tt)
insert_event-Distinct x (y ∷ ys) a d =
    if_intro Distinct (before y x) _ _
      (λ b. (
        All-insert_event (λ z. ¬ (SameKey y z)) x ys (λ k. a.0 (sym k.0, sym k.1)) d.0,
        insert_event-Distinct x ys a.1 d.1,
      ))
      (λ b. (a, d))

pub sort_events-Distinct : (xs : List Event) → Distinct xs → Distinct (sort_events xs)
unfolding sort_events
sort_events-Distinct [] d = tt
sort_events-Distinct (x ∷ xs) d =
    insert_event-Distinct x (sort_events xs) (All-sort_events _ xs d.0)
      (sort_events-Distinct xs d.1)
