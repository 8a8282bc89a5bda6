-- ===== src/Linear/Memo.antt =====
-- Bitsets and the memo table of cmd/thesis-oracle-linearizable/search.go. A bitset is the list of
-- its bits (the source packs 64 to a word); FNV is the parameter `hash`.
use pro_thesis.Prelude.{ℕ, ◌+◌, ◌*◌, ◌/◌, ◌^◌, ◌≡◌, List, [], ◌∷◌, Bool, true, false}
use pro_thesis.Prelude.{◌&&◌, ◌||◌, if◌then◌else◌, ◌==◌, leb, ltb, bool_eq, set, get_or, ◌↔◌, arith}
use pro_thesis.Prelude.{refl, ap, length, ◌++◌, Bool-cases, inl, inr, ◌⊎◌}
use pro_thesis.Linear.Value.{Value, equal, equal_iff}

abbrev pub Bits : Type 0
Bits = List Bool

abbrev pub set_bit : Bits → ℕ → Bits
set_bit bits i = set bits i true

abbrev pub clear_bit : Bits → ℕ → Bits
clear_bit bits i = set bits i false

abbrev pub test_bit : Bits → ℕ → Bool
test_bit bits i = get_or bits i false

-- The loop over two slices of one length.
unfoldable pub equal_words : Bits → Bits → Bool
equal_words [] _ = true
equal_words (a ∷ xs) [] = true
equal_words (a ∷ xs) (b ∷ ys) = bool_eq a b && equal_words xs ys

unfoldable pub equal_bits : Bits → Bits → Bool
unfolding equal_words
equal_bits a b = (length a == length b) && equal_words a b

equal_words_iff : (a b : Bits) → length a ≡ length b → (equal_words a b ≡ true) ↔ (a ≡ b)
unfolding equal_words
equal_words_iff [] [] h = ((λ _. refl), (λ _. refl))
equal_words_iff [] (b ∷ ys) h = absurd (omega arith)
equal_words_iff (a ∷ xs) [] h = absurd (omega arith)
equal_words_iff (a ∷ xs) (b ∷ ys) h = ground (arith, equal_words_iff xs ys (omega arith))

pub equal_bits_iff : (a b : Bits) → (equal_bits a b ≡ true) ↔ (a ≡ b)
unfolding equal_bits
equal_bits_iff a b = ground (arith, equal_words_iff a b, ap {A = Bits} length)

pub record Memo : Type 0 where
  pub buckets : ℕ → List (Value × Bits)
  pub entries : ℕ
  pub max_entries : ℕ

unfoldable pub new_memo : ℕ → ℕ → Memo
new_memo words max_bytes =
    let max = max_bytes / (words * 8 + 64) in
    let max = if ltb max 1024 then 1024 else max in
    let max = if ltb (2 ^ 30) max then 2 ^ 30 else max in
    record { buckets = λ _. []; entries = 0; max_entries = max }

-- The scan of one bucket.
unfoldable pub seen_in : List (Value × Bits) → Value → Bits → Bool
seen_in [] state bits = false
seen_in ((v, b) ∷ rest) state bits = (equal v state && equal_bits b bits) || seen_in rest state bits

module _ (hash : Value → Bits → ℕ) where
  -- The table, and whether the pair is new and should be explored. A full table records nothing
  -- and still answers that the pair is new.
  unfoldable pub insert : Memo → Value → Bits → Memo × Bool
  insert mm state bits =
      let h = hash state bits in
      if seen_in (mm.buckets h) state bits
      then (mm, false)
      else if leb mm.max_entries mm.entries
      then (mm, true)
      else (
        record mm {
          buckets = λ k. if k == h then mm.buckets k ++ (state, bits) ∷ [] else mm.buckets k;
          entries = mm.entries + 1;
        },
        true,
      )

-- What a stale answer and a later look-up say of the table.
seen_in-append :
    (xs : List (Value × Bits)) (v u : Value) (a b : Bits)
    → seen_in (xs ++ (v, a) ∷ []) u b ≡ true
    → (seen_in xs u b ≡ true) ⊎ ((u ≡ v) × (b ≡ a))
unfolding seen_in
seen_in-append [] v u a b h = ground (arith, equal_iff v u, equal_bits_iff a b)
seen_in-append ((w, c) ∷ xs) v u a b h = ground (arith, seen_in-append xs v u a b)

module _ (hash : Value → Bits → ℕ) (mm : Memo) (v : Value) (a : Bits) where
  pub insert_stale :
      (insert hash mm v a).1 ≡ false
      → (seen_in (mm.buckets (hash v a)) v a ≡ true) × ((insert hash mm v a).0 ≡ mm)
  unfolding insert
  insert_stale h = elim (Bool-cases (seen_in (mm.buckets (hash v a)) v a)) [
    | inl e ↦ (e, rw e)
    | inr e ↦ absurd (ground arith)
  ]

  pub insert-seen_in :
      (h : ℕ) (u : Value) (b : Bits)
      → seen_in ((insert hash mm v a).0.buckets h) u b ≡ true
      → (seen_in (mm.buckets h) u b ≡ true) ⊎ ((u ≡ v) × (b ≡ a))
  unfolding insert
  insert-seen_in h u b e = ground (arith, seen_in-append (mm.buckets h) v u a b)
