-- ===== src/Recorder/Draw.antt =====
-- Bounded draws from a random stream (internal/recorder/prng.go).
pub mod Fair
pub mod Weights
pub mod Shuffled
use pro_thesis.Prelude.{
  ℕ, zero, suc, ◌+◌, ◌-◌, ◌*◌, ◌/◌, ◌%◌, ◌^◌, Bool, true, false, not, ◌&&◌, Option, none, some,
  List, [], ◌∷◌,
}
use pro_thesis.Prelude.{if◌then◌else◌, ◌==◌, ltb, leb, length, get_or, set}
use pro_thesis.Recorder.Stream.{Stream, uint64}

-- `bits.Mul64`: the two words of a product.
abbrev pub mul64_hi : ℕ → ℕ → ℕ
mul64_hi x n = x * n / 2 ^ 64

abbrev pub mul64_lo : ℕ → ℕ → ℕ
mul64_lo x n = x * n % 2 ^ 64

-- `-n % n` on 64 bits.
abbrev pub threshold : ℕ → ℕ
threshold n = (2 ^ 64 - n) % n

-- Whether a draw is kept: the loop is left at it.
unfoldable pub keeps : ℕ → ℕ → Bool
keeps n x = if ltb (mul64_lo x n) n then not (ltb (mul64_lo x n) (threshold n)) else true

-- The loop of `Uint64n`, on fuel; `none`: a panic, or the fuel is used up.
unfoldable pub draw_below : ℕ → Stream → ℕ → Option (ℕ × Stream)
unfolding keeps uint64
draw_below zero s n = none
draw_below (suc fuel) s n = elim (uint64 s) [
  | none ↦ none
  | some (x, t) ↦
      let again = draw_below fuel t n in if keeps n x then some (mul64_hi x n, t) else again
]

unfoldable pub uint64n : ℕ → Stream → ℕ → Option (ℕ × Stream)
unfolding draw_below
uint64n fuel s n = if n == 0 then none else draw_below fuel s n

-- The loop of `Shuffle` from index `i` down, each draw on that fuel; `swap` is the callback.
unfoldable pub shuffle_from :
    {S : Type 0} → (S → ℕ → ℕ → S) → ℕ → ℕ → Stream → S → Option (S × Stream)
unfolding uint64n
shuffle_from swap fuel zero s xs = some (xs, s)
shuffle_from swap fuel (suc i) s xs = elim (uint64n fuel s (suc i + 1)) [
  | none ↦ none
  | some (j, t) ↦ shuffle_from swap fuel i t (swap xs (suc i) j)
]

unfoldable pub shuffle : {S : Type 0} → (S → ℕ → ℕ → S) → ℕ → Stream → ℕ → S → Option (S × Stream)
unfolding shuffle_from
shuffle swap fuel s n xs = shuffle_from swap fuel (n - 1) s xs

-- The loops of `WeightedPPM`: the total, and the index for a draw `r`.
unfoldable pub total_weight : List ℕ → ℕ → ℕ
total_weight [] total = total
total_weight (x ∷ w) total = total_weight w ((total + x) % 2 ^ 64)

unfoldable pub pick_weight : List ℕ → ℕ → ℕ → ℕ → Option ℕ
pick_weight [] r acc i = none
pick_weight (x ∷ w) r acc i =
    let next = (acc + x) % 2 ^ 64 in
    let rest = pick_weight w r next (i + 1) in if ltb r next then some i else rest

-- `none`: a panic, or the fuel is used up.
unfoldable pub weighted_ppm : ℕ → Stream → List ℕ → Option (ℕ × Stream)
unfolding total_weight pick_weight uint64n
weighted_ppm fuel s w =
    if total_weight w 0 == 0 then none else elim (uint64n fuel s (total_weight w 0)) [
      | none ↦ none
      | some (r, t) ↦ elim (pick_weight w r 0 0) [
        | none ↦ some (length w - 1, t)
        | some i ↦ some (i, t)
      ]
    ]
