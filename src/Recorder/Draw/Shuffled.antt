-- ===== src/Recorder/Draw/Shuffled.antt =====
-- Bounded draws and shuffles of internal/recorder/prng.go: ranges and permutations.
use pro_thesis.Prelude.{
  ℕ, zero, suc, ◌+◌, ◌-◌, ◌*◌, ◌/◌, ◌%◌, ◌^◌, ◌≤◌, ◌<◌, ◌≡◌, ◌≢◌, refl, sym, ap, ◌∙◌, subst, List,
  [], ◌∷◌, Bool, true, false, Option, none, some, arith,
}
use pro_thesis.Prelude.{if◌then◌else◌, if_intro, length, get_or, set, All-get_or, length-set, ◌==◌}
use pro_thesis.Recorder.ChaCha.{chacha_block, bytes-chacha_block}
use pro_thesis.Recorder.Stream.{Stream, offset, uint64, le_value}
use pro_thesis.Recorder.Stream.Keystream.{IsReady, IsRead, read-IsRead}
use pro_thesis.Recorder.Stream.Slices.{keystream, slice}
use pro_thesis.Recorder.Draw.{mul64_hi, keeps, draw_below, uint64n, shuffle_from, shuffle}

byte-keystream : (key nonce : List ℕ) (i : ℕ) → keystream key nonce i < 256
byte-keystream key nonce i =
    All-get_or (λ b. b < 256) (chacha_block key nonce (i / 64)) (i % 64) 0
      (bytes-chacha_block key nonce (i / 64)) (omega arith)

le_value-slice : (f : ℕ → ℕ) (a : ℕ) → ((i : ℕ) → f i < 256) → le_value (slice f a 8) < 2 ^ 64
unfolding le_value
le_value-slice f a h = omega (
  arith,
  h a,
  h (a + 1),
  h (a + 1 + 1),
  h (a + 1 + 1 + 1),
  h (a + 1 + 1 + 1 + 1),
  h (a + 1 + 1 + 1 + 1 + 1),
  h (a + 1 + 1 + 1 + 1 + 1 + 1),
  h (a + 1 + 1 + 1 + 1 + 1 + 1 + 1),
)

-- The word of a stream's keystream that begins at byte `p`.
abbrev pub word_at : Stream → ℕ → ℕ
word_at s p = le_value (slice (keystream s.key s.nonce) p 8)

-- A stream that has drawn once more.
record IsDrawn (s : Stream) (x : ℕ) (t : Stream) : Type 0 where
  value : x ≡ word_at s (offset s)
  same_key : t.key ≡ s.key
  same_nonce : t.nonce ≡ s.nonce
  word64 : x < 2 ^ 64
  ready : IsReady t
  moved : offset t ≡ offset s + 8

drawn :
    (s : Stream) (r : List ℕ × Stream)
    → IsRead s 8 r
    → IsDrawn s (le_value r.0) (record (r.1) { draws = (r.1).draws + 1 })
drawn s r (e, a) = record {
  value = ap le_value e;
  same_key = a.same_key;
  same_nonce = a.same_nonce;
  word64 =
      subst (λ b. le_value b < 2 ^ 64) (sym e)
        (le_value-slice (keystream s.key s.nonce) (offset s) (byte-keystream s.key s.nonce));
  ready = record {
    within = a.ready.within;
    addressable = a.ready.addressable;
    buffered = a.ready.buffered;
  };
  moved = a.position;
}

uint64-IsDrawn :
    (s : Stream)
    → IsReady s
    → offset s + 8 ≤ 2 ^ 38
    → (x : ℕ) × (t : Stream) × (uint64 s ≡ some (x, t)) × IsDrawn s x t
unfolding uint64
uint64-IsDrawn s h room =
    let (r, e, got) = read-IsRead s 8 h room in
    (
      le_value r.0,
      record (r.1) { draws = (r.1).draws + 1 },
      ap
          (λ z. elim z [
            | none ↦ none
            | some r ↦ some (le_value r.0, record (r.1) { draws = (r.1).draws + 1 })
          ])
          e,
      drawn s r got,
    )

-- The same keystream.
abbrev SameKeys : Stream → Stream → Type 0
SameKeys s t = (t.key ≡ s.key) × (t.nonce ≡ s.nonce)

word_at-SameKeys : (s t : Stream) (p : ℕ) → SameKeys s t → word_at t p ≡ word_at s p
word_at-SameKeys s t p (a, b) =
    ap (λ k. le_value (slice (keystream k t.nonce) p 8)) a
    ∙ ap (λ n. le_value (slice (keystream s.key n) p 8)) b

-- From byte `p` on, the next `fuel` words are all rejected by a draw below `n`.
abbrev pub AllRejected : Stream → ℕ → ℕ → ℕ → Type 0
AllRejected s n fuel p = (k : ℕ) → k < fuel → keeps n (word_at s (p + 8 * k)) ≡ false

AllRejected-SameKeys :
    (s t : Stream) (n fuel p : ℕ) → SameKeys s t → AllRejected t n fuel p → AllRejected s n fuel p
AllRejected-SameKeys s t n fuel p same h =
    λ k lt. ap (keeps n) (sym (word_at-SameKeys s t (p + 8 * k) same)) ∙ h k lt

AllRejected-suc :
    (s : Stream) (n fuel p : ℕ)
    → keeps n (word_at s p) ≡ false
    → AllRejected s n fuel (p + 8)
    → AllRejected s n (suc fuel) p
AllRejected-suc s n fuel p a h zero lt = subst (λ q. keeps n (word_at s q) ≡ false) (omega arith) a
AllRejected-suc s n fuel p a h (suc k) lt =
    subst (λ q. keeps n (word_at s q) ≡ false) (omega arith) (h k (omega arith))

-- What a bounded draw with that fuel gives: a number below the bound, or none, and then every word
-- that it looked at is rejected.
abbrev IsBelow : ℕ → ℕ → Stream → Option (ℕ × Stream) → Type 0
IsBelow n fuel s none = AllRejected s n fuel (offset s)
IsBelow n fuel s (some (v, t)) =
    (v < n) × IsReady t × (offset s ≤ offset t) × (offset t ≤ offset s + 8 * fuel) × SameKeys s t

hi_below : (x n : ℕ) → x < 2 ^ 64 → 1 ≤ n → mul64_hi x n < n
hi_below x n h p = grind arith

after_draw :
    (n fuel : ℕ) (s t : Stream) (x : ℕ) (again : Option (ℕ × Stream))
    → 1 ≤ n
    → IsDrawn s x t
    → IsBelow n fuel t again
    → IsBelow n (suc fuel) s (if keeps n x then some (mul64_hi x n, t) else again)
after_draw n fuel s t x again h d rest =
    if_intro (IsBelow n (suc fuel) s) (keeps n x) (some (mul64_hi x n, t)) again
      (λ _. (
        hi_below x n d.word64 h,
        d.ready,
        omega (arith, d.moved),
        omega (arith, d.moved),
        (d.same_key, d.same_nonce),
      ))
      (λ e. later again e rest)
  where
    later :
        (o : Option (ℕ × Stream))
        → keeps n x ≡ false
        → IsBelow n fuel t o
        → IsBelow n (suc fuel) s o
    later none e q = AllRejected-suc s n fuel (offset s) (ap (keeps n) (sym d.value) ∙ e) (
        AllRejected-SameKeys s t n fuel (offset s + 8) (d.same_key, d.same_nonce)
          (subst (AllRejected t n fuel) d.moved q))
    later (some (v, u)) e (lt, r, ge, le, (k, o)) =
        (lt, r, omega (arith, d.moved), omega (arith, d.moved), (k ∙ d.same_key, o ∙ d.same_nonce))

draw_below-IsBelow :
    (fuel : ℕ) (s : Stream) (n : ℕ)
    → IsReady s
    → offset s + 8 * fuel ≤ 2 ^ 38
    → 1 ≤ n
    → IsBelow n fuel s (draw_below fuel s n)
unfolding draw_below
draw_below-IsBelow zero s n h room p = λ k lt. absurd (omega arith)
draw_below-IsBelow (suc fuel) s n h room p =
    let (x, t, e, d) = uint64-IsDrawn s h (omega arith) in
    subst (IsBelow n (suc fuel) s)
      (sym (
        ap
          (λ z. elim z [
            | none ↦ none
            | some (x, t) ↦
                let again = draw_below fuel t n in
                if keeps n x then some (mul64_hi x n, t) else again
          ])
          e))
      (after_draw n fuel s t x (draw_below fuel t n) p d
        (draw_below-IsBelow fuel t n d.ready (omega (arith, d.moved)) p))

not_zero : (n : ℕ) → 1 ≤ n → (n == 0) ≢ true
not_zero n h e = ground arith

uint64n-IsBelow :
    (fuel : ℕ) (s : Stream) (n : ℕ)
    → IsReady s
    → offset s + 8 * fuel ≤ 2 ^ 38
    → 1 ≤ n
    → IsBelow n fuel s (uint64n fuel s n)
unfolding uint64n
uint64n-IsBelow fuel s n h room p =
    if_intro (IsBelow n fuel s) (n == 0) none (draw_below fuel s n) (λ e. absurd (not_zero n p e))
      (λ _. draw_below-IsBelow fuel s n h room p)

less_room_suc : (a m n b : ℕ) → a + m * suc n ≤ b → a + m * n ≤ b
less_room_suc a m n b h = grind arith

module _ {A : Type 0} (d : A) where
  -- The callback that swaps two elements of a list.
  abbrev pub swapped : List A → ℕ → ℕ → List A
  swapped xs i j = set (set xs i (get_or xs j d)) j (get_or xs i d)

  abbrev pub occurrences : (A → Bool) → List A → ℕ
  occurrences p [] = 0
  occurrences p (x ∷ xs) = (if p x then 1 else 0) + occurrences p xs

  occurrences-set :
      (p : A → Bool) (xs : List A) (i : ℕ) (v : A)
      → i < length xs
      → occurrences p (set xs i v) + (if p (get_or xs i d) then 1 else 0)
        ≡ occurrences p xs + (if p v then 1 else 0)
  occurrences-set p [] i v h = absurd (omega arith)
  occurrences-set p (x ∷ xs) zero v h = omega arith
  occurrences-set p (x ∷ xs) (suc i) v h = omega (arith, occurrences-set p xs i v (omega arith))

  get_or-set_other :
      (xs : List A) (i j : ℕ)
      → i < length xs
      → get_or (set xs i (get_or xs j d)) j d ≡ get_or xs j d
  get_or-set_other [] i j h = absurd (omega arith)
  get_or-set_other (x ∷ xs) zero zero h = refl
  get_or-set_other (x ∷ xs) zero (suc j) h = refl
  get_or-set_other (x ∷ xs) (suc i) zero h = refl
  get_or-set_other (x ∷ xs) (suc i) (suc j) h = get_or-set_other xs i j (omega arith)

  occurrences-swapped :
      (p : A → Bool) (xs : List A) (i j : ℕ)
      → i < length xs
      → j < length xs
      → occurrences p (swapped xs i j) ≡ occurrences p xs
  occurrences-swapped p xs i j hi hj =
      let a = occurrences-set p xs i (get_or xs j d) hi in
      let b =
        occurrences-set p (set xs i (get_or xs j d)) j (get_or xs i d)
          (subst (λ n. j < n) (sym (length-set xs i (get_or xs j d))) hj) in
      let c = ap {B = ℕ} (λ z. if p z then 1 else 0) (get_or-set_other xs i j hi) in
      omega (arith, a, b, c)

  -- The same elements, each as often.
  pub record IsPermuted (xs ys : List A) : Type 0 where
    pub same_length : length ys ≡ length xs
    pub same_elements : (p : A → Bool) → occurrences p ys ≡ occurrences p xs

  -- Some draw below a bound of 2 to `n`, on a stream with these keys, had all its words rejected.
  pub record IsExhausted (s : Stream) (fuel n : ℕ) : Type 0 where
    pub bound : ℕ
    pub place : ℕ
    pub at_least : 2 ≤ bound
    pub at_most : bound ≤ n
    pub later : offset s ≤ place
    pub rejected : AllRejected s bound fuel place

  abbrev pub IsShuffled : Stream → ℕ → ℕ → List A → Option (List A × Stream) → Type 0
  IsShuffled s fuel n xs none = IsExhausted s fuel n
  IsShuffled s fuel n xs (some (ys, t)) = IsPermuted xs ys × (offset t ≤ offset s + 8 * fuel * n)

  swapped-IsPermuted :
      (xs : List A) (i j : ℕ) → i < length xs → j < length xs → IsPermuted xs (swapped xs i j)
  swapped-IsPermuted xs i j hi hj = record {
    same_length = length-set (set xs i (get_or xs j d)) j _ ∙ length-set xs i _;
    same_elements = λ p. occurrences-swapped p xs i j hi hj;
  }

  shuffle_from-IsShuffled :
      (fuel i : ℕ) (s : Stream) (xs : List A)
      → IsReady s
      → offset s + 8 * fuel * i ≤ 2 ^ 38
      → i ≤ length xs - 1
      → IsShuffled s fuel (i + 1) xs (shuffle_from swapped fuel i s xs)
  unfolding shuffle_from
  shuffle_from-IsShuffled fuel zero s xs h room lt =
      (record { same_length = refl; same_elements = λ p. refl }, omega arith)
  shuffle_from-IsShuffled fuel (suc i) s xs h room lt =
      step (uint64n fuel s (suc i + 1))
        (uint64n-IsBelow fuel s (suc i + 1) h (grind arith) (omega arith))
        (λ t ys ready le len. shuffle_from-IsShuffled fuel i t ys ready (grind arith) (omega arith))
    where
      onward :
          (t : Stream) (ys : List A) (o : Option (List A × Stream))
          → IsPermuted xs ys
          → offset s ≤ offset t
          → offset t ≤ offset s + 8 * fuel
          → SameKeys s t
          → IsShuffled t fuel (i + 1) ys o
          → IsShuffled s fuel (suc i + 1) xs o
      onward t ys none q ge le same x = record {
        bound = x.bound;
        place = x.place;
        at_least = x.at_least;
        at_most = omega (arith, x.at_most);
        later = omega (arith, x.later);
        rejected = AllRejected-SameKeys s t x.bound fuel x.place same x.rejected;
      }
      onward t ys (some (zs, u)) q ge le same (x, y) = (
        record {
          same_length = x.same_length ∙ q.same_length;
          same_elements = λ p. x.same_elements p ∙ q.same_elements p;
        },
        grind arith,
      )

      step :
          (o : Option (ℕ × Stream))
          → IsBelow (suc i + 1) fuel s o
          → ((t : Stream) (ys : List A)
              → IsReady t
              → offset t ≤ offset s + 8 * fuel
              → length ys ≡ length xs
              → IsShuffled t fuel (i + 1) ys (shuffle_from swapped fuel i t ys))
          → IsShuffled s fuel (suc i + 1) xs (elim o as (λ _. Option (List A × Stream)) [
            | none ↦ none
            | some (j, t) ↦ shuffle_from swapped fuel i t (swapped xs (suc i) j)
          ])
      step none b ih = record {
        bound = suc i + 1;
        place = offset s;
        at_least = omega arith;
        at_most = omega arith;
        later = omega arith;
        rejected = b;
      }
      step (some (j, t)) (below, ready, ge, le, same) ih =
          let q = swapped-IsPermuted xs (suc i) j (omega arith) (omega arith) in
          onward t (swapped xs (suc i) j) _ q ge le same
            (ih t (swapped xs (suc i) j) ready le q.same_length)

  -- For a list and a stream with 8 bytes left, within the first 2 ^ 38, for each draw that the fuel of each of
  -- its elements allows: `Shuffle` that swaps elements of the list gives a list of the same length in
  -- which every test holds of as many elements as before, and has read no more than those bytes. Where it
  -- gives none, there are a bound from 2 to the length and a place in the keystream, not before the
  -- stream's, from which on all the words that one draw's fuel allows are rejected for that bound.
  pub shuffle-IsShuffled :
      (fuel : ℕ) (s : Stream) (xs : List A)
      → IsReady s
      → offset s + 8 * fuel * length xs ≤ 2 ^ 38
      → IsShuffled s fuel (length xs) xs (shuffle swapped fuel s (length xs) xs)
  unfolding shuffle
  shuffle-IsShuffled fuel s [] h room =
      (record { same_length = refl; same_elements = λ p. refl }, omega arith)
  shuffle-IsShuffled fuel s (x ∷ xs) h room =
      let n = length xs in
      let whole =
        shuffle_from-IsShuffled fuel n s (x ∷ xs) h
          (less_room_suc (offset s) (8 * fuel) n (2 ^ 38) room) (omega arith) in
      let e : n + 1 ≡ suc n = omega arith in
      let q : n ≡ suc n - 1 = omega arith in
      subst (λ m. IsShuffled s fuel (suc n) (x ∷ xs) (shuffle_from swapped fuel m s (x ∷ xs))) q
        (subst (λ m. IsShuffled s fuel m (x ∷ xs) (shuffle_from swapped fuel n s (x ∷ xs))) e whole)
