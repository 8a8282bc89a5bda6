-- ===== src/Linear/Load.antt =====
-- The loading of a history (cmd/thesis-oracle-linearizable/load.go): lines are paired into
-- operations by op_id.
pub mod Precondition
pub mod Build
pub mod Keys
pub mod Grouped
pub mod Sound
use pro_thesis.Prelude.{
  ◌≡◌, List, [], ◌∷◌, ◌++◌, Bool, true, false, not, ◌&&◌, ◌||◌, Option, none, some,
}
use pro_thesis.Prelude.{String, str_eq, if◌then◌else◌, ltb, length, filter, map}
use pro_thesis.Prelude.Int.{ℤ, pos, ltb_ℤ}
use pro_thesis.Linear.Value.{Value, Operation, OpKind, read, write}
use pro_thesis.Linear.Check.{KeyOps}

pub data HistoryType : Type 0 where
  invoke_type ok_type fail_type info_type other_type : HistoryType

-- A decoded record. `raw_value` is the raw JSON text, empty where it is absent; the first three
-- fields are what `Validate`, `RecordKind` and `hasTimestamp` find.
pub record Entry : Type 0 where
  pub is_valid : Bool
  pub is_marker : Bool
  pub has_timestamp : Bool
  pub op_id : Option ℤ
  pub type : HistoryType
  pub f : String
  pub key : Option String
  pub raw_value : String
  pub t_ns : ℤ

-- What the history reader returns for a line.
pub data Line : Type 0 where
  undecoded : Line
  decoded : Entry → Line

-- The reasons of `refuse`.
pub data Refusal : Type 0 where
  not_decoded invalid_record no_op_id no_timestamp two_invokes two_completions : Refusal
  unknown_type no_records key_mismatch name_mismatch no_name multi_key unmodelled_name : Refusal
  no_key bad_value no_value nothing_checkable no_reads : Refusal

pub data Result {ℓ} (A : Type ℓ) : Type ℓ where
  refused : Refusal → Result A
  loaded : A → Result A

unfoldable pub and_then {ℓ m} : {A : Type ℓ} {B : Type m} → Result A → (A → Result B) → Result B
and_then (refused r) g = refused r
and_then (loaded a) g = g a

pub record RawOp : Type 0 where
  pub id : ℤ
  pub invoke : Option Entry
  pub complete : Option Entry

unfoldable pub place_complete : RawOp → Entry → Result RawOp
place_complete ro e = elim ro.complete [
  | some _ ↦ refused two_completions
  | none ↦ loaded (record ro { complete = some e })
]

-- The switch of `readHistory` on the record's type.
unfoldable pub place : RawOp → Entry → Result RawOp
unfolding place_complete
place ro e = elim e.type [
  | invoke_type ↦ elim ro.invoke [
    | some _ ↦ refused two_invokes
    | none ↦ loaded (record ro { invoke = some e })
  ]
  | ok_type ↦ place_complete ro e
  | fail_type ↦ place_complete ro e
  | info_type ↦ place_complete ro e
  | other_type ↦ refused unknown_type
]

unfoldable pub equal_ids : ℤ → ℤ → Bool
equal_ids a b = not (ltb_ℤ a b) && not (ltb_ℤ b a)

-- The operations in the order their ids are first seen.
unfoldable pub place_in : List RawOp → ℤ → Entry → Result (List RawOp)
unfolding and_then place equal_ids
place_in [] id e =
    and_then (place (record { id = id; invoke = none; complete = none }) e) (λ ro. loaded (ro ∷ []))
place_in (ro ∷ raw) id e =
    let rest = place_in raw id e in
    if equal_ids ro.id id
    then and_then (place ro e) (λ ro'. loaded (ro' ∷ raw))
    else and_then rest (λ raw'. loaded (ro ∷ raw'))

-- One line: the operations so far, and whether an operation record was seen.
unfoldable pub read_line : List RawOp → Bool → Line → Result (List RawOp × Bool)
unfolding place_in
read_line raw seen undecoded = refused not_decoded
read_line raw seen (decoded e) =
    if not e.is_valid
    then refused invalid_record
    else if e.is_marker
    then loaded (raw, seen)
    else elim e.op_id [
      | none ↦ refused no_op_id
      | some id ↦
          if not e.has_timestamp
          then refused no_timestamp
          else and_then (place_in raw id e) (λ raw'. loaded (raw', true))
    ]

unfoldable pub read_lines : List RawOp → Bool → List Line → Result (List RawOp)
unfolding read_line
read_lines raw seen [] = if seen then loaded raw else refused no_records
read_lines raw seen (l ∷ lines) = and_then (read_line raw seen l) (λ r. read_lines r.0 r.1 lines)
