-- ===== src/Linear/Load/Build.antt =====
-- `buildOperations` of load.go, operation by operation: what is kept of ok, fail and info, and the
-- interval of what is kept.
use pro_thesis.Prelude.{List, [], ◌∷◌, Bool, true, false, not, ◌&&◌, Option, none, some}
use pro_thesis.Prelude.{String, str_eq, if◌then◌else◌}
use pro_thesis.Prelude.Int.{pos, ltb_ℤ}
use pro_thesis.Linear.Value.{Value, Operation, OpKind, read, write}
use pro_thesis.Linear.Load.{
  invoke_type, ok_type, fail_type, info_type, other_type, Entry, unmodelled_name, bad_value,
  no_value, Result, refused, loaded, RawOp, and_then,
}
use pro_thesis.Linear.Load.Precondition.{op_name, value_of, shape}

-- `sh.Keys[0]`.
unfoldable pub first_key : List String → String
first_key [] = ""
first_key (k ∷ keys) = k

unfoldable pub keep :
    String → Option Operation → List (String × Operation) → List (String × Operation)
keep k none ops = ops
keep k (some op) ops = (k, op) ∷ ops

unfoldable pub is_ok : Option Entry → Bool
is_ok none = false
is_ok (some e) = elim e.type [
  | ok_type ↦ true
  | fail_type ↦ false
  | info_type ↦ false
  | invoke_type ↦ false
  | other_type ↦ false
]

unfoldable pub is_fail : Option Entry → Bool
is_fail none = false
is_fail (some e) = elim e.type [
  | ok_type ↦ false
  | fail_type ↦ true
  | info_type ↦ false
  | invoke_type ↦ false
  | other_type ↦ false
]

-- The interval of an operation.
unfoldable pub bounded : RawOp → Bool → Operation → Operation
bounded ro determinate op =
    let op1 : Operation = elim ro.invoke [
      | some e ↦ record op { invoke_ns = e.t_ns }
      | none ↦ record op { open_at_start = true }
    ] in
    if determinate
    then elim ro.complete [
      | none ↦ op1
      | some e ↦
          if not op1.open_at_start && ltb_ℤ e.t_ns op1.invoke_ns
          then record op1 { return_ns = op1.invoke_ns }
          else record op1 { return_ns = e.t_ns }
    ]
    else record op1 { open_at_end = true }

unfoldable pub blank : RawOp → OpKind → Value → Bool → Operation
blank ro kind v maybe = record {
  id = ro.id;
  kind = kind;
  value = v;
  invoke_ns = pos 0;
  return_ns = pos 0;
  open_at_start = false;
  open_at_end = false;
  maybe = maybe;
}

-- The keys of the micro-operations in a raw value (none, where it is no list), and its canonical
-- form: what encoding/json makes of the text.
module _ (micro_keys : String → List String) (canonical_value : String → Option Value) where
  -- A determinate read with a recorded value is kept; a write is always kept.
  unfoldable pub read_operation : RawOp → Result (Option Operation)
  unfolding is_ok value_of bounded blank
  read_operation ro =
      if not (is_ok ro.complete)
      then loaded none
      else if str_eq (value_of ro.complete) ""
      then loaded none
      else elim (canonical_value (value_of ro.complete)) [
        | none ↦ refused bad_value
        | some v ↦ loaded (some (bounded ro true (blank ro read v false)))
      ]

  unfoldable pub write_of : RawOp → String → Result (Option Operation)
  unfolding is_ok bounded blank
  write_of ro raw = if str_eq raw "" then refused no_value else elim (canonical_value raw) [
    | none ↦ refused bad_value
    | some v ↦
        loaded (some (bounded ro (is_ok ro.complete) (blank ro write v (not (is_ok ro.complete)))))
  ]

  unfoldable pub write_operation : RawOp → Result (Option Operation)
  unfolding value_of write_of
  write_operation ro =
      write_of ro
        (if str_eq (value_of ro.complete) "" then value_of ro.invoke else value_of ro.complete)

  -- `none`: the operation is dropped.
  unfoldable pub build_operation : RawOp → String → Result (Option Operation)
  unfolding is_fail read_operation write_operation
  build_operation ro name =
      if is_fail ro.complete
      then loaded none
      else if str_eq name "read"
      then read_operation ro
      else if str_eq name "write"
      then write_operation ro
      else refused unmodelled_name

  -- The kept operations with their keys, in order.
  unfoldable pub build_all : List RawOp → Result (List (String × Operation))
  unfolding and_then op_name shape build_operation first_key keep
  build_all [] = loaded []
  build_all (ro ∷ raw) = and_then (op_name ro) (λ name.
      and_then (shape micro_keys canonical_value ro) (λ keys.
        and_then (build_operation ro name)
          (λ built. and_then (build_all raw) (λ rest. loaded (keep (first_key keys) built rest)))))
