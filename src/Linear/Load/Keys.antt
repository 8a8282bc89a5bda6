-- ===== src/Linear/Load/Keys.antt =====
-- The end of `buildOperations` of load.go: the split by key. And the loading of a history as a whole.
use pro_thesis.Prelude.{List, [], ◌∷◌, ◌++◌, Bool, true, false, not, Option}
use pro_thesis.Prelude.{String, str_eq, if◌then◌else◌, ltb, length}
use pro_thesis.Linear.Value.{Value, Operation, read, write}
use pro_thesis.Linear.Check.{KeyOps}
use pro_thesis.Linear.Load.{
  Line, nothing_checkable, no_reads, Result, refused, loaded, RawOp, and_then, read_lines,
}
use pro_thesis.Linear.Load.Precondition.{has_key, check_precondition}
use pro_thesis.Linear.Load.Build.{build_all}

unfoldable pub has_read : List (String × Operation) → Bool
has_read [] = false
has_read (o ∷ ops) = elim (o.1).kind [ read ↦ true | write ↦ has_read ops ]

-- `byKey`: the operations of a key, in order.
unfoldable pub of_key : String → List (String × Operation) → List Operation
of_key k [] = []
of_key k (o ∷ ops) = let rest = of_key k ops in if str_eq o.0 k then o.1 ∷ rest else rest

unfoldable pub keys_of : List String → List (String × Operation) → List String
unfolding has_key
keys_of keys [] = keys
keys_of keys (o ∷ ops) = keys_of (if has_key keys o.0 then keys else keys ++ o.0 ∷ []) ops

unfoldable pub group : List (String × Operation) → List String → List KeyOps
unfolding of_key
group ops [] = []
group ops (k ∷ keys) = record { key = k; ops = of_key k ops } ∷ group ops keys

-- `sort_strings` is `sort.Strings`.
module _ (micro_keys : String → List String) (canonical_value : String → Option Value)
    (sort_strings : List String → List String) where
  unfoldable pub build_operations : List RawOp → Result (List KeyOps)
  unfolding and_then build_all has_read keys_of group
  build_operations raw = and_then (build_all micro_keys canonical_value raw) (λ ops.
      if ltb (length ops) 1
      then refused nothing_checkable
      else if not (has_read ops)
      then refused no_reads
      else loaded (group ops (sort_strings (keys_of [] ops))))

  unfoldable pub load_history : List Line → Result (List KeyOps)
  unfolding and_then read_lines check_precondition build_operations
  load_history lines = and_then (read_lines [] false lines) (λ raw.
      and_then (check_precondition micro_keys canonical_value raw) (λ _. build_operations raw))
