-- ===== src/Linear/Search/Spec.antt =====
-- What the search of search.go decides, stated with no list of pointers, no stack and no memo.
use pro_thesis.Prelude.{ℕ, zero, suc, ◌+◌, ◌-◌, ◌<◌, ◌≡◌, List, [], ◌∷◌, false}
use pro_thesis.Prelude.{not, ◌⊎◌, In, filter}
use pro_thesis.Linear.Value.{Value}
use pro_thesis.Linear.Model.{alternatives}
use pro_thesis.Linear.Memo.{Bits, set_bit, test_bit}
use pro_thesis.Linear.Search.{Nodes}

abbrev pub up_from : ℕ → ℕ → List ℕ
up_from zero k = []
up_from (suc n) k = k ∷ up_from n (k + 1)

-- The event nodes, in order.
abbrev pub events : Nodes → List ℕ
events nodes = up_from (nodes.tail - 1) 1

-- The events of the operations that are not linearized yet.
abbrev pub pending : Nodes → Bits → List ℕ
pending nodes b = filter (λ k. not (test_bit b (nodes.idx k))) (events nodes)

-- The node is a call, and no operation returns before it.
abbrev pub Enabled : Nodes → ℕ → List ℕ → Type 0
Enabled nodes n [] = ⊥
Enabled nodes n (x ∷ xs) = (nodes.is_return x ≡ false) × ((n ≡ x) ⊎ Enabled nodes n xs)

pub record Config : Type 0 where
  pub value : Value
  pub placed : Bits

-- One operation linearizes next: it was invoked before every pending operation's return, and the
-- register model allows the value that it leaves.
pub record Picks (nodes : Nodes) (c : Config) (d : Config) : Type 0 where
  pub call : ℕ
  pub is_enabled : Enabled nodes call (pending nodes c.placed)
  pub allowed : In d.value (alternatives c.value (nodes.op call))
  pub marked : d.placed ≡ set_bit c.placed (nodes.idx call)

-- The pending operations can be put in a real-time-respecting order that the register allows.
pub data Linearization (nodes : Nodes) : Config → Type 0 where
  done : (c : Config) → pending nodes c.placed ≡ [] → Linearization nodes c
  pick : (c d : Config) → Picks nodes c d → Linearization nodes d → Linearization nodes c

-- The node table of `ops` operations: each operation has a call, and its return after it.
pub record IsThreaded (nodes : Nodes) (ops : ℕ) : Type 0 where
  pub tail_pos : 0 < nodes.tail
  pub idx_lt : (k : ℕ) → 0 < k → k < nodes.tail → nodes.idx k < ops
  pub return_of :
      (k : ℕ)
      → 0 < k
      → k < nodes.tail
      → nodes.is_return k ≡ false
      → (k < nodes.match k)
        × (nodes.match k < nodes.tail)
        × (nodes.idx (nodes.match k) ≡ nodes.idx k)
  pub pairs :
      (j k : ℕ)
      → 0 < j
      → j < nodes.tail
      → 0 < k
      → k < nodes.tail
      → nodes.is_return k ≡ false
      → nodes.idx j ≡ nodes.idx k
      → (j ≡ k) ⊎ (j ≡ nodes.match k)
