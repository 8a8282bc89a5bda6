-- ===== src/Linear/Search.antt =====
-- The depth-first search for one key: `searcher`, `run`, `tryFrom` and `noteBest` of
-- cmd/thesis-oracle-linearizable/search.go.
pub mod Spec
pub mod Pending
pub mod Invariant
pub mod Position
pub mod Attempt
pub mod Decides
use pro_thesis.Prelude.{
  ℕ, zero, suc, ◌+◌, ◌-◌, ◌%◌, List, [], ◌∷◌, Bool, true, false, not, ◌&&◌, ◌||◌,
}
use pro_thesis.Prelude.{Option, none, some, if◌then◌else◌, ◌==◌, leb, drop}
use pro_thesis.Linear.Value.{Value, Operation}
use pro_thesis.Linear.Model.{alternatives, applied}
use pro_thesis.Linear.Memo.{Bits, Memo, set_bit, clear_bit, insert}
use pro_thesis.Linear.Links.{Links, lift, unlift}

pub data Outcome : Type 0 where
  linearizable violated exhausted : Outcome

pub data Exhaustion : Type 0 where
  exhaust_none exhaust_wall exhaust_states : Exhaustion

-- `best_depth` and `best_last_write` are `none` for the source's -1.
pub record Stats : Type 0 where
  pub states : ℕ
  pub steps : ℕ
  pub best_depth : Option ℕ
  pub best_state : Value
  pub best_linearized : Bits
  pub best_last_write : Option ℕ
  pub why : Exhaustion

-- The fields of a node that the search never writes, and the tail sentinel; the head is 0.
pub record Nodes : Type 0 where
  pub tail : ℕ
  pub is_return : ℕ → Bool
  pub match : ℕ → ℕ
  pub idx : ℕ → ℕ
  pub op : ℕ → Operation

abbrev pub head : ℕ
head = 0

pub record Frame : Type 0 where
  pub call : ℕ
  pub prev_state : Value
  pub alt : ℕ
  pub prev_last_write : Option ℕ

-- The stack's top is the head of the list.
pub record Searcher : Type 0 where
  pub links : Links
  pub memo : Memo
  pub state : Value
  pub last_write : Option ℕ
  pub linear : Bits
  pub depth : ℕ
  pub stack : List Frame
  pub st : Stats

-- One turn of the loop in `run`: it returns, or it goes on at an entry of the event list.
pub data Turn : Type 0 where
  stop : Outcome → Searcher → Turn
  go : Searcher → ℕ → Turn

abbrev deeper : ℕ → Option ℕ → Bool
deeper depth none = true
deeper depth (some best) = not (leb depth best)

unfoldable pub note_best : Searcher → Searcher
note_best s = record s {
  st =
      if deeper s.depth s.st.best_depth
      then record (s.st) {
        best_depth = some s.depth;
        best_state = s.state;
        best_linearized = s.linear;
        best_last_write = s.last_write;
      }
      else s.st;
}

-- FNV, the nodes, the state ceiling, and whether the deadline has passed at a step of the loop
-- (never, where the deadline is the zero time).
module _ (hash : Value → Bits → ℕ) (nodes : Nodes) (limit_states : ℕ) (expired : ℕ → Bool) where
  -- The body of the loop of `tryFrom` where the memo calls the pair new.
  unfoldable pub advance : Searcher → ℕ → ℕ → Value → Searcher
  unfolding note_best
  advance s call i next = note_best (record s {
    stack =
        record { call = call; prev_state = s.state; alt = i; prev_last_write = s.last_write }
        ∷ s.stack;
    state = next;
    last_write = if applied next (nodes.op call) then some (nodes.idx call) else s.last_write;
    depth = s.depth + 1;
    links = lift s.links call (nodes.match call);
    st = record (s.st) { states = s.st.states + 1 };
  })

  -- The loop of `tryFrom`, at alternative `i`, over the alternatives that are left.
  unfoldable pub try_alternatives : Searcher → ℕ → ℕ → List Value → Searcher × Bool
  try_alternatives s call i [] = (record s { linear = clear_bit s.linear (nodes.idx call) }, false)
  try_alternatives s call i (next ∷ rest) =
      let placed = set_bit s.linear (nodes.idx call) in
      let (memo', fresh) = insert hash s.memo next placed in
      let later =
        try_alternatives (record s { linear = clear_bit placed (nodes.idx call); memo = memo' })
          call (i + 1) rest in
      if fresh
      then (advance (record s { linear = placed; memo = memo' }) call i next, true)
      else later

  unfoldable pub try_from : Searcher → ℕ → ℕ → Searcher × Bool
  unfolding try_alternatives
  try_from s call from =
      try_alternatives s call from (drop from (alternatives s.state (nodes.op call)))

  -- `if s.tryFrom(call, from) { entry = s.head.next } else { entry = call.next }`
  unfoldable pub attempt : Searcher → ℕ → ℕ → Turn
  unfolding try_from
  attempt s call from =
      let (s', advanced) = try_from s call from in
      if advanced then go s' (s'.links.next head) else go s' (s'.links.next call)

  -- The undoing of the last choice.
  unfoldable pub undo : Searcher → Frame → List Frame → Searcher
  undo s f rest = record s {
    stack = rest;
    links = unlift s.links f.call (nodes.match f.call);
    state = f.prev_state;
    last_write = f.prev_last_write;
    linear = clear_bit s.linear (nodes.idx f.call);
    depth = s.depth - 1;
  }

  unfoldable pub backtrack : Searcher → List Frame → Turn
  unfolding undo attempt
  backtrack s [] = stop violated s
  backtrack s (f ∷ rest) = attempt (undo s f rest) f.call (f.alt + 1)

  unfoldable pub turn : Searcher → ℕ → Turn
  turn s0 entry =
      let steps = s0.st.steps + 1 in
      let s = record s0 { st = record (s0.st) { steps = steps } } in
      if s.links.next head == nodes.tail
      then stop linearizable s
      else if (steps == 1 || steps % 1024 == 0) && expired steps
      then stop exhausted (record s { st = record (s.st) { why = exhaust_wall } })
      else if leb limit_states s.st.states
      then stop exhausted (record s { st = record (s.st) { why = exhaust_states } })
      else if not (entry == nodes.tail) && not (nodes.is_return entry)
      then attempt s entry 0
      else backtrack s s.stack

  -- The loop of `run`, on fuel.
  unfoldable pub loop : ℕ → Searcher → ℕ → Option (Outcome × Searcher)
  loop zero s entry = none
  loop (suc fuel) s entry = elim (turn s entry) [
    | stop o s' ↦ some (o, s')
    | go s' entry' ↦ loop fuel s' entry'
  ]

  unfoldable pub run : ℕ → Searcher → Option (Outcome × Searcher)
  unfolding loop turn attempt backtrack
  run fuel s = loop fuel (note_best s) (s.links.next head)
