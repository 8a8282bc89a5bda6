-- ===== src/Linear/RealTime.antt =====
-- What linearizability of one key means (the header of cmd/thesis-oracle-linearizable/search.go),
-- stated over the operations alone: an order of all of them that respects real time and in which
-- a last-write-wins register answers every read.
pub mod Events
pub mod Bridge
pub mod Converse
use pro_thesis.Prelude.{ℕ, ◌<◌, ◌≡◌, List, [], ◌∷◌, Bool, true, false, ◌⊎◌, In, All, length}
use pro_thesis.Prelude.Int.{◌<ℤ◌}
use pro_thesis.Linear.Value.{Value, Operation, OpKind, read, write, unknown_value}
use pro_thesis.Linear.Events.{op_at}

-- `a` is over before `b` begins.
abbrev pub Precedes : Operation → Operation → Type 0
Precedes a b = (a.open_at_end ≡ false) × (b.open_at_start ≡ false) × (a.return_ns <ℤ b.invoke_ns)

-- The register holds `v`, the operation takes effect, and the register holds `d`. A read of an
-- undetermined register determines it; a write that may not have happened may change nothing.
abbrev pub Accepts : OpKind → Operation → Value → Value → Type 0
Accepts read op v d =
    ((v.known ≡ false) × (d ≡ op.value)) ⊎ ((v.known ≡ true) × (v ≡ op.value) × (d ≡ v))
Accepts write op v d = (d ≡ op.value) ⊎ ((op.maybe ≡ true) × (d ≡ v))

abbrev pub RegisterRun : List Operation → Value → List ℕ → Type 0
RegisterRun ops v [] = Unit
RegisterRun ops v (i ∷ order) =
    (d : Value) × Accepts (op_at ops i).kind (op_at ops i) v d × RegisterRun ops d order

-- No operation stands behind one that it precedes, and none stands twice.
abbrev pub RespectsTime : List Operation → List ℕ → Type 0
RespectsTime ops [] = Unit
RespectsTime ops (i ∷ order) =
    All (λ j. ¬ (Precedes (op_at ops j) (op_at ops i)) × ¬ (i ≡ j)) order × RespectsTime ops order

-- The operations `i` of which `left i` holds are ordered by `order`, from the register value `v`.
pub record IsOrder (ops : List Operation) (left : ℕ → Type 0) (v : Value) (order : List ℕ)
    : Type 0 where
  pub complete : (i : ℕ) → i < length ops → left i → In i order
  pub exact : (i : ℕ) → In i order → (i < length ops) × left i
  pub timely : RespectsTime ops order
  pub answered : RegisterRun ops v order

-- All the operations can be ordered, from an undetermined register.
abbrev pub Linearizable : List Operation → Type 0
Linearizable ops = (order : List ℕ) × IsOrder ops (λ i. Unit) unknown_value order
