-- ===== src/Shrink/Ddmin.antt =====
-- Delta debugging over the indices of a list (internal/shrink/ddmin.go). The subset test is a
-- parameter, with the state that it keeps from call to call; so is the cancellation of the context.
pub mod Parts
pub mod Minimal
pub mod Shrunk
use pro_thesis.Prelude.{
  ℕ, zero, suc, ◌+◌, ◌-◌, ◌*◌, ◌/◌, List, [], ◌∷◌, Bool, true, false, not, Option, none, some,
}
use pro_thesis.Prelude.{
  if◌then◌else◌, ◌==◌, ◌||◌, ltb, leb, length, take, drop, filter, get_or, map,
}
use pro_thesis.Shrink.Budget.{StopReason, stop_complete, stop_canceled}

-- What a `SubsetTest` returns: a reason to stop, the index of the accepted subset, or -1.
pub data Answer : Type 0 where
  halt : StopReason → Answer
  accept : ℕ → Answer
  reject : Answer

abbrev pub up_to : ℕ → ℕ → List ℕ
up_to zero k = []
up_to (suc n) k = k ∷ up_to n (k + 1)

-- The loop of `partition`: `left` parts more, from part `i` of `n` on, at index `start`.
unfoldable pub parts_from : List ℕ → ℕ → ℕ → ℕ → ℕ → List (List ℕ)
parts_from c n i start zero = []
parts_from c n i start (suc left) =
    let end = (i + 1) * length c / n in
    let stop = if ltb end start then start else end in
    take (stop - start) (drop start c) ∷ parts_from c n (i + 1) stop left

unfoldable pub partition : List ℕ → ℕ → List (List ℕ)
unfolding parts_from
partition c n =
    let n1 = if ltb n 1 then 1 else n in
    let n2 = if ltb (length c) n1 then length c else n1 in parts_from c n2 0 0 n2

abbrev pub member : ℕ → List ℕ → Bool
member e [] = false
member e (x ∷ xs) = x == e || member e xs

-- One of `complements`.
abbrev pub without : List ℕ → List ℕ → List ℕ
without c part = filter (λ e. not (member e part)) c

unfoldable pub complements : List ℕ → List (List ℕ) → List (List ℕ)
complements c parts = map (without c) parts

-- One round of the loop: it returns, leaves the loop, or goes on.
pub data Round (W : Type 0) : Type 0 where
  return : W → List ℕ → StopReason → Round W
  leave : W → Round W
  next : W → List ℕ → ℕ → Round W

-- More rounds than the loop can take from `n` elements on.
unfoldable pub ddmin_fuel : ℕ → ℕ
ddmin_fuel n = n * (n + 1) + n + 1

module _ {W : Type 0} (test : W → List (List ℕ) → W × Answer) (canceled : W → Bool) where
  -- The end of a round in which nothing was accepted.
  unfoldable pub refine : W → List ℕ → ℕ → Round W
  refine w c gran =
      let doubled = if ltb (length c) (gran * 2) then length c else gran * 2 in
      if leb (length c) gran then leave w else next w c doubled

  unfoldable pub to_complement : W → List ℕ → ℕ → Round W
  unfolding refine complements partition
  to_complement w c gran =
      if ltb 2 gran
      then (let comps = complements c (partition c gran) in
          let (w', a) = test w comps in
          elim a [
            | halt s ↦ return w' c s
            | accept i ↦ next w' (get_or comps i c) (if ltb (gran - 1) 2 then 2 else gran - 1)
            | reject ↦ refine w' c gran
          ])
      else refine w c gran

  unfoldable pub to_subset : W → List ℕ → ℕ → Round W
  unfolding to_complement partition
  to_subset w c gran =
      let parts = partition c gran in
      let (w', a) = test w parts in
      elim a [
        | halt s ↦ return w' c s
        | accept i ↦ next w' (get_or parts i c) 2
        | reject ↦ to_complement w' c gran
      ]

  unfoldable pub round : W → List ℕ → ℕ → Round W
  unfolding to_subset
  round w c gran =
      if canceled w
      then return w c stop_canceled
      else to_subset w c (if ltb (length c) gran then length c else gran)

  -- Whether the last element has to stay.
  unfoldable pub last_element : W → List ℕ → W × List ℕ × StopReason
  last_element w c =
      let (w', a) = test w ([] ∷ []) in
      if length c == 1
      then elim a [
        | halt s ↦ (w', c, s)
        | accept i ↦ (w', (if i == 0 then [] else c), stop_complete)
        | reject ↦ (w', c, stop_complete)
      ]
      else (w, c, stop_complete)

  -- The loop, on fuel, and what follows it.
  unfoldable pub ddmin_loop : ℕ → W → List ℕ → ℕ → Option (W × List ℕ × StopReason)
  unfolding round last_element
  ddmin_loop zero w c gran = none
  ddmin_loop (suc fuel) w c gran =
      if ltb (length c) 2 then some (last_element w c) else elim (round w c gran) [
        | return w' c' s ↦ some (w', c', s)
        | leave w' ↦ some (last_element w' c)
        | next w' c' gran' ↦ ddmin_loop fuel w' c' gran'
      ]

  unfoldable pub ddmin : W → ℕ → Option (W × List ℕ × StopReason)
  unfolding ddmin_loop ddmin_fuel
  ddmin w n =
      if n == 0 then some (w, [], stop_complete) else ddmin_loop (ddmin_fuel n) w (up_to n 0) 2
