-- ===== src/Linear/Check.antt =====
-- `check` of cmd/thesis-oracle-linearizable/check.go, behind the loading of the history: the keys in
-- order, a share of the budget for each, and the status that is reported.
pub mod Sound
use pro_thesis.Prelude.{ℕ, List, [], ◌∷◌, Option, none, some, Bool, true, false, length, String}
use pro_thesis.Prelude.Int.{ℤ}
use pro_thesis.Linear.Value.{Value, Operation}
use pro_thesis.Linear.Memo.{Bits}
use pro_thesis.Linear.Search.{Outcome, linearizable, violated, exhausted}
use pro_thesis.Linear.Correct.{search_key}
use pro_thesis.Linear.Budget.{Allowance, slice, spend}

-- A key with its operations (`ld.Keys` with `ld.ByKey`).
pub record KeyOps : Type 0 where
  pub key : String
  pub ops : List Operation

pub record KeyResult : Type 0 where
  pub key : String
  pub out : Outcome
  pub states : ℕ

-- The status of the report, with the key of the witness.
pub data Status : Type 0 where
  ok inconclusive : Status
  violation : String → Status

unfoldable pub cons_result : KeyResult → Option (List KeyResult) → Option (List KeyResult)
cons_result r none = none
cons_result r (some rest) = some (r ∷ rest)

-- The result of a key is followed by those of the keys behind it, unless it is violated.
unfoldable pub followed_by : KeyResult → Option (List KeyResult) → Option (List KeyResult)
unfolding cons_result
followed_by r rest = elim r.out [
  | violated ↦ some (r ∷ [])
  | linearizable ↦ cons_result r rest
  | exhausted ↦ cons_result r rest
]

-- `firstViolated`.
unfoldable pub first_violated : List KeyResult → Option String
first_violated [] = none
first_violated (r ∷ results) =
    let rest = first_violated results in
    elim r.out [ violated ↦ some r.key | linearizable ↦ rest | exhausted ↦ rest ]

-- Whether a key is unfinished.
unfoldable pub any_unfinished : List KeyResult → Bool
any_unfinished [] = false
any_unfinished (r ∷ results) =
    let rest = any_unfinished results in
    elim r.out [ exhausted ↦ true | linearizable ↦ rest | violated ↦ rest ]

-- A violated key comes first, then an unfinished one.
unfoldable pub status_of : Option String → Bool → Status
status_of (some key) unfinished = violation key
status_of none true = inconclusive
status_of none false = ok

unfoldable pub report_status : List KeyResult → Status
unfolding first_violated any_unfinished status_of
report_status results = status_of (first_violated results) (any_unfinished results)

-- FNV, the memo bound, the time left at the search of each key (counted by the keys that remain),
-- and whether the key's own deadline has passed at a step of its search.
module _ (hash : Value → Bits → ℕ) (max_memo_bytes : ℕ) (wall_left : ℕ → ℤ)
    (expired : ℕ → ℕ → Bool) where
  -- One key, behind its share; a key without a share is unfinished.
  unfoldable pub check_key : KeyOps → ℕ → Option ℕ → Option KeyResult
  unfolding search_key
  check_key k remaining none = some (record { key = k.key; out = exhausted; states = 0 })
  check_key k remaining (some share) =
      elim (search_key hash share (expired remaining) max_memo_bytes k.ops) [
        | none ↦ none
        | some r ↦ some (record { key = k.key; out = r.0; states = r.1.st.states })
      ]

  -- The loop over the keys; it ends at the first violated one. `none`: a search ran out of fuel.
  unfoldable pub check_keys : Allowance → List KeyOps → Option (List KeyResult)
  unfolding check_key followed_by slice spend
  check_keys b [] = some []
  check_keys b (k ∷ keys) =
      let remaining = length (k ∷ keys) in
      elim (check_key k remaining (slice b remaining (wall_left remaining))) [
        | none ↦ none
        | some r ↦ followed_by r (check_keys (spend b r.states) keys)
      ]

  unfoldable pub check : Allowance → List KeyOps → Option Status
  unfolding check_keys report_status
  check b keys = elim (check_keys b keys) [
    | none ↦ none
    | some results ↦ some (report_status results)
  ]
