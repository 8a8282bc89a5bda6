-- ===== src/Linear/Load/Precondition.antt =====
-- The single-key precondition of load.go: the name and the keys of each operation, and the refusal of a
-- history with an operation of several keys, of another name or of no key.
use pro_thesis.Prelude.{List, [], ◌∷◌, ◌++◌, Bool, false, not, ◌&&◌, ◌||◌, Option, none, some}
use pro_thesis.Prelude.{String, str_eq, if◌then◌else◌, ltb, length}
use pro_thesis.Linear.Value.{Value}
use pro_thesis.Linear.Load.{
  Entry, key_mismatch, name_mismatch, no_name, multi_key, unmodelled_name, no_key, Result, refused,
  loaded, RawOp, and_then,
}

unfoldable pub name_of : String → Option Entry → Result String
name_of name none = loaded name
name_of name (some e) =
    if str_eq e.f ""
    then loaded name
    else if not (str_eq name "") && not (str_eq name e.f)
    then refused name_mismatch
    else loaded e.f

unfoldable pub op_name : RawOp → Result String
unfolding name_of
op_name ro = and_then (name_of "" ro.invoke) (λ first.
    and_then (name_of first ro.complete)
      (λ name. if str_eq name "" then refused no_name else loaded name))

unfoldable pub has_key : List String → String → Bool
has_key [] k = false
has_key (x ∷ keys) k = str_eq x k || has_key keys k

-- Distinct keys, in the order they are first seen.
unfoldable pub add_keys : List String → List String → List String
unfolding has_key
add_keys keys [] = keys
add_keys keys (k ∷ more) = add_keys (if has_key keys k then keys else keys ++ k ∷ []) more

unfoldable pub top_key : Option String → Option Entry → Result (Option String)
top_key top none = loaded top
top_key top (some e) = elim e.key [
  | none ↦ loaded top
  | some k ↦ elim top [
    | none ↦ loaded (some k)
    | some t ↦ if str_eq t k then loaded (some k) else refused key_mismatch
  ]
]

unfoldable pub given : Option String → List String
given none = []
given (some k) = k ∷ []

unfoldable pub value_of : Option Entry → String
value_of none = ""
value_of (some e) = e.raw_value

-- The keys of the micro-operations in a raw value (none, where it is no list), and its canonical
-- form: what encoding/json makes of the text.
module _ (micro_keys : String → List String) (canonical_value : String → Option Value) where
  unfoldable pub shape : RawOp → Result (List String)
  unfolding and_then top_key given add_keys value_of
  shape ro = and_then (top_key none ro.invoke) (λ first.
      and_then (top_key first ro.complete) (λ top. loaded (
        add_keys (add_keys (given top) (micro_keys (value_of ro.invoke)))
          (micro_keys (value_of ro.complete)))))

  -- Which offenders were found: several keys, an operation that is not modelled, no key.
  unfoldable pub scan : List RawOp → Bool → Bool → Bool → Result (Unit {0})
  unfolding and_then op_name shape
  scan [] multi other keyless =
      if multi
      then refused multi_key
      else if other
      then refused unmodelled_name
      else if keyless
      then refused no_key
      else loaded tt
  scan (ro ∷ raw) multi other keyless = and_then (op_name ro) (λ name. and_then (shape ro) (λ keys.
      scan raw (multi || ltb 1 (length keys))
        (other || not (str_eq name "read") && not (str_eq name "write"))
        (keyless || ltb (length keys) 1)))

  unfoldable pub check_precondition : List RawOp → Result (Unit {0})
  unfolding scan
  check_precondition raw = scan raw false false false
