-- ===== src/Linear/Value.antt =====
-- Register values in canonical textual form (cmd/thesis-oracle-linearizable/value.go) and the
-- operations of one key's sub-history (load.go).
use pro_thesis.Prelude.{◌≡◌, Bool, true, false, ◌&&◌, String, arith, str_eq, ◌↔◌}
use pro_thesis.Prelude.{str_eq_iff, bool_eq}
use pro_thesis.Prelude.Int.{ℤ}

-- The zero value is unknown: the register before anything has determined it.
pub record Value : Type 0 where
  pub known : Bool
  pub canon : String

abbrev pub unknown_value : Value
unknown_value = record { known = false; canon = "" }

abbrev pub known_value : String → Value
known_value c = record { known = true; canon = c }

-- `v == o`: both fields are compared.
unfoldable pub equal : Value → Value → Bool
equal v o = bool_eq v.known o.known && str_eq v.canon o.canon

pub equal_iff : (v o : Value) → (equal v o ≡ true) ↔ (v ≡ o)
unfolding equal
equal_iff v o = ground (arith, str_eq_iff v.canon o.canon)

pub data OpKind : Type 0 where
  read write : OpKind

-- `invokeNS` and `returnNS` are int64 and are only compared.
pub record Operation : Type 0 where
  pub id : ℤ
  pub kind : OpKind
  pub value : Value
  pub invoke_ns : ℤ
  pub return_ns : ℤ
  pub open_at_start : Bool
  pub open_at_end : Bool
  pub maybe : Bool
