-- ===== src/Prelude/Lists.antt =====
-- Lists measured and indexed by native numbers, under the library's names, and membership as a
-- predicate by recursion.
use Prim.Native.Nat.{ℕ, zero, suc, ◌+◌, ◌<◌}
use mathlib.Core.Path.{◌≡◌, refl, sym, ap, subst}
use mathlib.Core.Bool.{Bool}
use mathlib.Core.Logic.{◌≢◌, ◌⊎◌, inl, inr}
use mathlib.Core.List.{List, [], ◌∷◌, ◌++◌}
use mathlib.Core.Option.{Option, none, some}
use native.Mathlib.Omega.{arith}
use pro_thesis.Prelude.Tests.{if◌then◌else◌}

module _ {ℓ} {A : Type ℓ} where
  abbrev pub length : List A → ℕ
  length [] = 0
  length (x ∷ xs) = suc (length xs)

  abbrev pub get_elem? : List A → ℕ → Option A
  get_elem? [] i = none
  get_elem? (x ∷ xs) zero = some x
  get_elem? (x ∷ xs) (suc i) = get_elem? xs i

  abbrev pub get_or : List A → ℕ → A → A
  get_or [] i d = d
  get_or (x ∷ xs) zero d = x
  get_or (x ∷ xs) (suc i) d = get_or xs i d

  -- A write out of bounds changes nothing.
  abbrev pub set : List A → ℕ → A → List A
  set [] i v = []
  set (x ∷ xs) zero v = v ∷ xs
  set (x ∷ xs) (suc i) v = x ∷ set xs i v

  abbrev pub take : ℕ → List A → List A
  take zero xs = []
  take (suc n) [] = []
  take (suc n) (x ∷ xs) = x ∷ take n xs

  abbrev pub drop : ℕ → List A → List A
  drop zero xs = xs
  drop (suc n) [] = []
  drop (suc n) (x ∷ xs) = drop n xs

  abbrev pub replicate : ℕ → A → List A
  replicate zero a = []
  replicate (suc n) a = a ∷ replicate n a

  abbrev pub filter : (A → Bool) → List A → List A
  filter p [] = []
  filter p (x ∷ xs) = let rest = filter p xs in if p x then x ∷ rest else rest

module _ {ℓ} {A : Type ℓ} where
  pub length-append : (xs ys : List A) → length (xs ++ ys) ≡ length xs + length ys
  length-append [] ys = omega arith
  length-append (x ∷ xs) ys = omega (arith, length-append xs ys)

  pub length-set : (xs : List A) (i : ℕ) (v : A) → length (set xs i v) ≡ length xs
  length-set [] i v = refl
  length-set (x ∷ xs) zero v = refl
  length-set (x ∷ xs) (suc i) v = ap suc (length-set xs i v)

  pub get_or-set_self :
      (xs : List A) (i : ℕ) (v d : A) → i < length xs → get_or (set xs i v) i d ≡ v
  get_or-set_self [] i v d h = elim h [ ]
  get_or-set_self (x ∷ xs) zero v d h = refl
  get_or-set_self (x ∷ xs) (suc i) v d h = get_or-set_self xs i v d (omega arith)

  pub get_or-set_ne :
      (xs : List A) {i j : ℕ} (v d : A) → i ≢ j → get_or (set xs i v) j d ≡ get_or xs j d
  get_or-set_ne [] v d h = refl
  get_or-set_ne (x ∷ xs) {i = zero} {j = zero} v d h = absurd (h refl)
  get_or-set_ne (x ∷ xs) {i = zero} {j = suc j} v d h = refl
  get_or-set_ne (x ∷ xs) {i = suc i} {j = zero} v d h = refl
  get_or-set_ne (x ∷ xs) {i = suc i} {j = suc j} v d h = get_or-set_ne xs v d (λ e. h (ap suc e))

  -- Writing over a write, with what stood there before: nothing has changed.
  pub set-set_old :
      (xs : List A) (i : ℕ) (v w d : A)
      → get_or xs i d ≡ w
      → i < length xs
      → set (set xs i v) i w ≡ xs
  set-set_old [] i v w d e h = elim h [ ]
  set-set_old (x ∷ xs) zero v w d e h = ap (λ y. y ∷ xs) (sym e)
  set-set_old (x ∷ xs) (suc i) v w d e h =
      ap (λ ys. x ∷ ys) (set-set_old xs i v w d e (omega arith))

  pub set_same :
      (xs : List A) (i : ℕ) (v d : A) → get_or xs i d ≡ v → i < length xs → set xs i v ≡ xs
  set_same [] i v d e h = elim h [ ]
  set_same (x ∷ xs) zero v d e h = ap (λ y. y ∷ xs) (sym e)
  set_same (x ∷ xs) (suc i) v d e h = ap (λ ys. x ∷ ys) (set_same xs i v d e (omega arith))

  drop-suc : (n : ℕ) (xs : List A) {y : A} {ys : List A} → drop n xs ≡ y ∷ ys → drop (suc n) xs ≡ ys
  drop-suc zero [] h = cc
  drop-suc zero (x ∷ xs) h = cc
  drop-suc (suc n) [] h = cc
  drop-suc (suc n) (x ∷ xs) h = drop-suc n xs h

  pub drop_tail :
      (n : ℕ) (xs : List A) {y : A} {ys : List A} → drop n xs ≡ y ∷ ys → drop (n + 1) xs ≡ ys
  drop_tail n xs h = let e : n + 1 ≡ suc n = omega arith in rw e (drop-suc n xs h)

  pub set-set : (xs : List A) (i : ℕ) (v w : A) → set (set xs i v) i w ≡ set xs i w
  set-set [] i v w = refl
  set-set (x ∷ xs) zero v w = refl
  set-set (x ∷ xs) (suc i) v w = ap (λ ys. x ∷ ys) (set-set xs i v w)

-- Membership and universal statements, by recursion: they compute to sums and products.
module _ {A : Type 0} where
  abbrev pub In : A → List A → Type 0
  In a [] = ⊥
  In a (x ∷ xs) = (a ≡ x) ⊎ In a xs

  abbrev pub All : (A → Type 0) → List A → Type 0
  All P [] = Unit
  All P (x ∷ xs) = P x × All P xs

module _ {A : Type 0} where
  pub In-append_left : (a : A) (xs ys : List A) → In a xs → In a (xs ++ ys)
  In-append_left a [] ys h = elim h [ ]
  In-append_left a (x ∷ xs) ys (inl e) = inl e
  In-append_left a (x ∷ xs) ys (inr h) = inr (In-append_left a xs ys h)

  pub In-append_right : (a : A) (xs ys : List A) → In a ys → In a (xs ++ ys)
  In-append_right a [] ys h = h
  In-append_right a (x ∷ xs) ys h = inr (In-append_right a xs ys h)

  pub In-append_cases : (a : A) (xs ys : List A) → In a (xs ++ ys) → In a xs ⊎ In a ys
  In-append_cases a [] ys h = inr h
  In-append_cases a (x ∷ xs) ys (inl e) = inl (inl e)
  In-append_cases a (x ∷ xs) ys (inr h) = elim (In-append_cases a xs ys h) [
    | inl m ↦ inl (inr m)
    | inr m ↦ inr m
  ]

  pub All_of_In : (P : A → Type 0) (a : A) (xs : List A) → All P xs → In a xs → P a
  All_of_In P a [] h m = elim m [ ]
  All_of_In P a (x ∷ xs) h (inl e) = subst P (sym e) h.0
  All_of_In P a (x ∷ xs) h (inr m) = All_of_In P a xs h.1 m

  pub All-intro : (P : A → Type 0) (xs : List A) → ((a : A) → In a xs → P a) → All P xs
  All-intro P [] h = tt
  All-intro P (x ∷ xs) h = (h x (inl refl), All-intro P xs (λ a m. h a (inr m)))

  pub In-drop : (a : A) (n : ℕ) (xs : List A) → In a (drop n xs) → In a xs
  In-drop a zero xs h = h
  In-drop a (suc n) [] h = h
  In-drop a (suc n) (x ∷ xs) h = inr (In-drop a n xs h)

module _ {ℓ} {A : Type ℓ} where
  pub length-replicate : (n : ℕ) (a : A) → length (replicate n a) ≡ n
  length-replicate zero a = refl
  length-replicate (suc n) a = ap suc (length-replicate n a)

module _ {A : Type 0} where
  pub All-get_or :
      (P : A → Type 0) (xs : List A) (i : ℕ) (d : A) → All P xs → P d → P (get_or xs i d)
  All-get_or P [] i d h q = q
  All-get_or P (x ∷ xs) zero d h q = h.0
  All-get_or P (x ∷ xs) (suc i) d h q = All-get_or P xs i d h.1 q

  pub All-set : (P : A → Type 0) (xs : List A) (i : ℕ) (v : A) → All P xs → P v → All P (set xs i v)
  All-set P [] i v h q = h
  All-set P (x ∷ xs) zero v h q = (q, h.1)
  All-set P (x ∷ xs) (suc i) v h q = (h.0, All-set P xs i v h.1 q)

  pub All-replicate : (P : A → Type 0) (n : ℕ) (v : A) → P v → All P (replicate n v)
  All-replicate P zero v q = tt
  All-replicate P (suc n) v q = (q, All-replicate P n v q)
