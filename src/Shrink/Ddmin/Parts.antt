-- ===== src/Shrink/Ddmin/Parts.antt =====
-- The parts and complements that ddmin.go tries: how long they are, and what they are made of.
use pro_thesis.Prelude.{
  ℕ, zero, suc, ◌+◌, ◌-◌, ◌*◌, ◌/◌, ◌≤◌, ◌<◌, ◌≡◌, refl, sym, ap, subst, List, [], ◌∷◌, Bool, true,
  false, not, inl, inr, arith, In, All, Bool-cases,
}
use pro_thesis.Prelude.{if◌then◌else◌, ltb, length, take, drop, filter, map, In-drop}
use pro_thesis.Shrink.Ddmin.{up_to, parts_from, partition, member, without}

pub length-take : {A : Type 0} (k : ℕ) (xs : List A) → k ≤ length xs → length (take k xs) ≡ k
length-take zero xs h = refl
length-take (suc k) [] h = absurd (omega arith)
length-take (suc k) (x ∷ xs) h = ap suc (length-take k xs (omega arith))

pub length-drop : {A : Type 0} (k : ℕ) (xs : List A) → length (drop k xs) ≡ length xs - k
length-drop zero xs = omega arith
length-drop (suc k) [] = omega arith
length-drop (suc k) (x ∷ xs) = omega (arith, length-drop k xs)

le_trans : {a b c : ℕ} → a ≤ b → b ≤ c → a ≤ c
le_trans h k = omega arith

-- Each rises above those before it.
abbrev pub Ascending : List ℕ → Type 0
Ascending [] = Unit
Ascending (x ∷ xs) = All (λ y. x < y) xs × Ascending xs

All-take : (P : ℕ → Type 0) (k : ℕ) (xs : List ℕ) → All P xs → All P (take k xs)
All-take P zero xs h = tt
All-take P (suc k) [] h = tt
All-take P (suc k) (x ∷ xs) (h, hs) = (h, All-take P k xs hs)

All-drop : (P : ℕ → Type 0) (k : ℕ) (xs : List ℕ) → All P xs → All P (drop k xs)
All-drop P zero xs h = h
All-drop P (suc k) [] h = tt
All-drop P (suc k) (x ∷ xs) (h, hs) = All-drop P k xs hs

All-filter : (P : ℕ → Type 0) (q : ℕ → Bool) (xs : List ℕ) → All P xs → All P (filter q xs)
All-filter P q [] h = tt
All-filter P q (x ∷ xs) (h, hs) = elim (Bool-cases (q x)) [
  | inl e ↦ rw e (h, All-filter P q xs hs)
  | inr e ↦ rw e (All-filter P q xs hs)
]

-- Rising indices below `n`.
abbrev pub IsSelection : ℕ → List ℕ → Type 0
IsSelection n xs = Ascending xs × All (λ x. x < n) xs

Ascending-take : (k : ℕ) (xs : List ℕ) → Ascending xs → Ascending (take k xs)
Ascending-take zero xs h = tt
Ascending-take (suc k) [] h = tt
Ascending-take (suc k) (x ∷ xs) (h, hs) = (All-take (λ y. x < y) k xs h, Ascending-take k xs hs)

Ascending-drop : (k : ℕ) (xs : List ℕ) → Ascending xs → Ascending (drop k xs)
Ascending-drop zero xs h = h
Ascending-drop (suc k) [] h = tt
Ascending-drop (suc k) (x ∷ xs) (h, hs) = Ascending-drop k xs hs

Ascending-filter : (q : ℕ → Bool) (xs : List ℕ) → Ascending xs → Ascending (filter q xs)
Ascending-filter q [] h = tt
Ascending-filter q (x ∷ xs) (h, hs) = elim (Bool-cases (q x)) [
  | inl e ↦ rw e (All-filter (λ y. x < y) q xs h, Ascending-filter q xs hs)
  | inr e ↦ rw e (Ascending-filter q xs hs)
]

pub IsSelection-segment :
    (n s k : ℕ) (xs : List ℕ) → IsSelection n xs → IsSelection n (take k (drop s xs))
IsSelection-segment n s k xs (h, b) = (
  Ascending-take k (drop s xs) (Ascending-drop s xs h),
  All-take (λ x. x < n) k (drop s xs) (All-drop (λ x. x < n) s xs b),
)

pub IsSelection-filter :
    (n : ℕ) (q : ℕ → Bool) (xs : List ℕ) → IsSelection n xs → IsSelection n (filter q xs)
IsSelection-filter n q xs (h, b) = (Ascending-filter q xs h, All-filter (λ x. x < n) q xs b)

up_to-above : (n k m : ℕ) → m < k → All (λ y. m < y) (up_to n k)
up_to-above zero k m h = tt
up_to-above (suc n) k m h = (h, up_to-above n (k + 1) m (omega arith))

up_to-below : (n k m : ℕ) → k + n ≤ m → All (λ y. y < m) (up_to n k)
up_to-below zero k m h = tt
up_to-below (suc n) k m h = (omega arith, up_to-below n (k + 1) m (omega arith))

up_to-Ascending : (n k : ℕ) → Ascending (up_to n k)
up_to-Ascending zero k = tt
up_to-Ascending (suc n) k = (up_to-above n (k + 1) k (omega arith), up_to-Ascending n (k + 1))

pub up_to-IsSelection : (n : ℕ) → IsSelection n (up_to n 0)
up_to-IsSelection n = (up_to-Ascending n 0, up_to-below n 0 n (omega arith))

pub length-up_to : (n k : ℕ) → length (up_to n k) ≡ n
length-up_to zero k = refl
length-up_to (suc n) k = ap suc (length-up_to n (k + 1))

-- A segment that is not empty, and not all of `c`.
pub record IsPart (c p : List ℕ) : Type 0 where
  pub from : ℕ
  pub size : ℕ
  pub segment : p ≡ take size (drop from c)
  pub nonempty : 1 ≤ length p
  pub proper : length p < length c

div-step : (a l n : ℕ) → 1 ≤ n → n ≤ l → a / n + 1 ≤ (a + l) / n
div-step a l n h1 h2 = grind arith

div-all : (l n : ℕ) → 1 ≤ n → n * l / n ≡ l
div-all l n h = grind arith

div_mono : (a b n : ℕ) → a ≤ b → a / n ≤ b / n
div_mono a b n h = grind arith

div-half : (l n : ℕ) → 2 ≤ n → n ≤ l → l / n < l
div-half l n h1 h2 = grind arith

div_pos : (l n : ℕ) → 1 ≤ n → n ≤ l → 1 ≤ l / n
div_pos l n h1 h2 = grind arith

part_proper : (l n i : ℕ) → 2 ≤ n → n ≤ l → (i + 1) * l / n ≤ l → (i + 1) * l / n - i * l / n < l
part_proper l n zero h2 hn high =
    let e : (0 + 1) * l ≡ l = omega arith in
    let half : (0 + 1) * l / n < l = subst (λ a. a / n < l) (sym e) (div-half l n h2 hn) in
    omega arith
part_proper l n (suc i) h2 hn high =
    let low : 1 ≤ (suc i) * l / n =
      le_trans (div_pos l n (omega arith) hn) (div_mono l ((suc i) * l) n (grind arith)) in
    omega arith

IsPart-intro :
    (c : List ℕ) (n i : ℕ)
    → 2 ≤ n
    → n ≤ length c
    → i < n
    → IsPart c (take ((i + 1) * length c / n - i * length c / n) (drop (i * length c / n) c))
IsPart-intro c n i h2 hn lt =
    let l = length c in
    let start = i * l / n in
    let end = (i + 1) * l / n in
    let step : start + 1 ≤ end =
      subst (λ a. start + 1 ≤ a / n) (grind arith) (div-step (i * l) l n (omega arith) hn) in
    let high : end ≤ l =
      subst (λ a. end ≤ a) (div-all l n (omega arith))
        (div_mono ((i + 1) * l) (n * l) n (grind arith)) in
    let size : length (take (end - start) (drop start c)) ≡ end - start =
      length-take (end - start) (drop start c) (omega (arith, length-drop start c)) in
    record {
      from = start;
      size = end - start;
      segment = refl;
      nonempty = omega (arith, size);
      proper = omega (arith, size, part_proper l n i h2 hn high);
    }

-- `left` parts more, from part `i` on.
parts_from-IsPart :
    (c : List ℕ) (n i left : ℕ)
    → 2 ≤ n
    → n ≤ length c
    → i + left ≡ n
    → All (IsPart c) (parts_from c n i (i * length c / n) left)
unfolding parts_from
parts_from-IsPart c n i zero h2 hn e = tt
parts_from-IsPart c n i (suc left) h2 hn e =
    let l = length c in
    let mono : i * l / n ≤ (i + 1) * l / n = div_mono (i * l) ((i + 1) * l) n (grind arith) in
    let same : (if ltb ((i + 1) * l / n) (i * l / n) then i * l / n else (i + 1) * l / n)
        ≡ (i + 1) * l / n =
      ground arith in
    rw same (
      IsPart-intro c n i h2 hn (omega arith),
      parts_from-IsPart c n (i + 1) left h2 hn (omega arith),
    )

pub partition-IsPart : (c : List ℕ) (n : ℕ) → 2 ≤ n → n ≤ length c → All (IsPart c) (partition c n)
unfolding partition
partition-IsPart c n h2 hn =
    let e1 : ltb n 1 ≡ false = ground arith in
    let e2 : ltb (length c) n ≡ false = ground arith in
    rw (e1, e2)
      (subst (λ s. All (IsPart c) (parts_from c n 0 s n)) (grind arith)
        (parts_from-IsPart c n 0 n h2 hn (omega arith)))

-- The parts of one element each.
drop-all : (c : List ℕ) (i : ℕ) → length c ≤ i → drop i c ≡ []
drop-all [] zero h = refl
drop-all [] (suc i) h = refl
drop-all (x ∷ c) zero h = absurd (omega arith)
drop-all (x ∷ c) (suc i) h = drop-all c i (omega arith)

drop-one : (c : List ℕ) (i : ℕ) → i < length c → (x : ℕ) × (drop i c ≡ x ∷ drop (i + 1) c)
drop-one [] i h = absurd (omega arith)
drop-one (x ∷ c) zero h = (x, refl)
drop-one (x ∷ c) (suc i) h =
    let (y, e) = drop-one c i (omega arith) in
    let q : suc i + 1 ≡ suc (i + 1) = omega arith in (y, rw q e)

div-self_mul : (i n : ℕ) → 1 ≤ n → i * n / n ≡ i
div-self_mul i n h = grind arith

singletons_from :
    (c : List ℕ) (i left : ℕ)
    → i + left ≡ length c
    → parts_from c (length c) i i left ≡ map (λ x. x ∷ []) (drop i c)
unfolding parts_from
singletons_from c i zero e = rw (drop-all c i (omega arith)) refl
singletons_from c i (suc left) e =
    let (x, q) = drop-one c i (omega arith) in
    let at_end : (i + 1) * length c / length c ≡ i + 1 =
      div-self_mul (i + 1) (length c) (omega arith) in
    let kept : (if ltb (i + 1) i then i else i + 1) ≡ i + 1 = ground arith in
    let one : (i + 1) - i ≡ 1 = omega arith in
    rw (at_end, kept, one, q)
      (ap (λ ps. (x ∷ []) ∷ ps) (singletons_from c (i + 1) left (omega arith)))

pub partition-singletons :
    (c : List ℕ) → 1 ≤ length c → partition c (length c) ≡ map (λ x. x ∷ []) c
unfolding partition
partition-singletons c h =
    let e1 : ltb (length c) 1 ≡ false = ground arith in
    let e2 : ltb (length c) (length c) ≡ false = ground arith in
    rw (e1, e2) (singletons_from c 0 (length c) (omega arith))

-- A complement is shorter, where the part holds an element.
filter-le : (q : ℕ → Bool) (xs : List ℕ) → length (filter q xs) ≤ length xs
filter-le q [] = omega arith
filter-le q (x ∷ xs) = ground (arith, filter-le q xs)

filter-lt :
    (q : ℕ → Bool) (x : ℕ) (xs : List ℕ) → In x xs → q x ≡ false → length (filter q xs) < length xs
filter-lt q x [] m h = elim m [ ]
filter-lt q x (y ∷ xs) (inl e) h = ground (arith, filter-le q xs, ap q e)
filter-lt q x (y ∷ xs) (inr m) h = ground (arith, filter-lt q x xs m h)

In-take : (x k : ℕ) (xs : List ℕ) → In x (take k xs) → In x xs
In-take x zero xs m = elim m [ ]
In-take x (suc k) [] m = elim m [ ]
In-take x (suc k) (y ∷ xs) (inl e) = inl e
In-take x (suc k) (y ∷ xs) (inr m) = inr (In-take x k xs m)

first_of : (p : List ℕ) → 1 ≤ length p → (x : ℕ) × In x p × (member x p ≡ true)
first_of [] h = absurd (omega arith)
first_of (x ∷ p) h = (x, inl refl, ground arith)

pub without-lt : (c p : List ℕ) → IsPart c p → length (without c p) < length c
without-lt c p h =
    let (x, m, e) = first_of p h.nonempty in
    filter-lt (λ y. not (member y p)) x c
      (In-drop x h.from c (In-take x h.size (drop h.from c) (subst (In x) h.segment m))) (ap not e)
