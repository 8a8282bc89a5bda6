-- ===== src/Samples/Loading.antt =====
-- Short histories, line by line, as cmd/thesis-oracle-linearizable loads them.
use pro_thesis.Prelude.{◌≡◌, refl, List, [], ◌∷◌, Option, some, true, false, String, In, inl, inr}
use pro_thesis.Prelude.Int.{ℤ, pos}
use pro_thesis.Linear.Value.{Value, Operation, OpKind, read, write, known_value}
use pro_thesis.Linear.Check.{KeyOps, Status}
use pro_thesis.Linear.Load.{
  HistoryType, invoke_type, ok_type, info_type, Entry, Line, decoded, RawOp, and_then,
}
use pro_thesis.Linear.Load.Precondition.{
  op_name, name_of, shape, top_key, given, add_keys, has_key, value_of,
}
use pro_thesis.Linear.Load.Build.{
  build_all, build_operation, is_fail, is_ok, read_operation, write_operation, write_of, bounded,
  blank, keep, first_key,
}
use pro_thesis.Linear.Load.Keys.{build_operations, has_read, keys_of, group, of_key}
use pro_thesis.Linear.Load.Sound.{build_operations-keeps}
use pro_thesis.Linear.History.{check_history, check_history-IsEarned, IsEarned}

abbrev entry : HistoryType → ℤ → String → String → ℤ → Entry
entry t id f v ns = record {
  is_valid = true;
  is_marker = false;
  has_timestamp = true;
  op_id = some id;
  type = t;
  f = f;
  key = some "k/1";
  raw_value = v;
  t_ns = ns;
}

-- A write, one that has no certain end, and a read of the second.
abbrev lines : List Line
lines =
    decoded (entry invoke_type (pos 0) "write" "1" (pos 10))
    ∷ decoded (entry ok_type (pos 0) "write" "1" (pos 20))
    ∷ decoded (entry invoke_type (pos 1) "write" "2" (pos 30))
    ∷ decoded (entry info_type (pos 1) "write" "2" (pos 40))
    ∷ decoded (entry invoke_type (pos 2) "read" "" (pos 50))
    ∷ decoded (entry ok_type (pos 2) "read" "2" (pos 60))
    ∷ []

abbrev no_micro : String → List String
no_micro s = []

abbrev canonical : String → Option Value
canonical s = some (known_value s)

abbrev in_order : List String → List String
in_order ks = ks

check_history-IsEarned_example :
    (status : Status) × (check_history no_micro canonical in_order
        (λ v b. 0)
        4096
        (λ _. pos 5)
        (λ _ _. false)
        (record { max_states = 100; spent = 0 })
        lines
      ≡ some status)
    × IsEarned no_micro canonical in_order (λ v b. 0) 4096 (λ _. pos 5) (λ _ _. false) status lines
check_history-IsEarned_example =
    check_history-IsEarned no_micro canonical in_order (λ v b. 0) 4096 (λ _. pos 5) (λ _ _. false)
      (record { max_states = 100; spent = 0 }) lines

abbrev raw_ops : List RawOp
raw_ops =
    record {
      id = pos 0;
      invoke = some (entry invoke_type (pos 0) "write" "2" (pos 10));
      complete = some (entry ok_type (pos 0) "write" "2" (pos 20));
    }
    ∷ record {
      id = pos 2;
      invoke = some (entry invoke_type (pos 2) "read" "" (pos 50));
      complete = some (entry ok_type (pos 2) "read" "2" (pos 60));
    }
    ∷ []

abbrev op_of : ℤ → OpKind → ℤ → ℤ → Operation
op_of id kind a b = record {
  id = id;
  kind = kind;
  value = known_value "2";
  invoke_ns = a;
  return_ns = b;
  open_at_start = false;
  open_at_end = false;
  maybe = false;
}

abbrev two_ops : List Operation
two_ops = op_of (pos 0) write (pos 10) (pos 20) ∷ op_of (pos 2) read (pos 50) (pos 60) ∷ []

build_operations-keeps_example :
    (k : KeyOps) × In k (record { key = "k/1"; ops = two_ops } ∷ [])
    × (k.key ≡ "k/1")
    × In (op_of (pos 2) read (pos 50) (pos 60)) k.ops
unfolding and_then op_name name_of shape top_key given add_keys has_key value_of build_all
    build_operation is_fail is_ok read_operation write_operation write_of bounded blank keep
    first_key build_operations has_read keys_of group of_key
build_operations-keeps_example =
    build_operations-keeps no_micro canonical in_order raw_ops
      ("k/1", op_of (pos 2) read (pos 50) (pos 60)) (λ k ks m. m) refl refl (inr (inl refl))
