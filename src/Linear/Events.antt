-- ===== src/Linear/Events.antt =====
-- The event list of one key: `newSearcher` of cmd/thesis-oracle-linearizable/search.go. The stable
-- sort of the standard library is an insertion sort.
pub mod Sorted
pub mod Table
pub mod Threaded
use pro_thesis.Prelude.{
  ℕ, zero, suc, ◌+◌, ◌-◌, ◌/◌, ◌*◌, List, [], ◌∷◌, Bool, true, false, not, ◌&&◌,
}
use pro_thesis.Prelude.{none, if◌then◌else◌, ◌==◌, ltb, length, get_or, replicate, bool_eq}
use pro_thesis.Prelude.Int.{ℤ, pos, ltb_ℤ}
use pro_thesis.Linear.Value.{Value, Operation, read, unknown_value}
use pro_thesis.Linear.Memo.{new_memo}
use pro_thesis.Linear.Links.{Links, update}
use pro_thesis.Linear.Search.{Nodes, Searcher, exhaust_none}

pub record Event : Type 0 where
  pub rank : ℕ
  pub ts : ℤ
  pub is_return : Bool
  pub idx : ℕ

abbrev pub invoke_event : ℕ → Operation → Event
invoke_event i op = record {
  rank = if op.open_at_start then 0 else 1;
  ts = op.invoke_ns;
  is_return = false;
  idx = i;
}

abbrev pub return_event : ℕ → Operation → Event
return_event i op = record {
  rank = if op.open_at_end then 2 else 1;
  ts = op.return_ns;
  is_return = true;
  idx = i;
}

unfoldable pub events_of : ℕ → List Operation → List Event
events_of i [] = []
events_of i (op ∷ ops) = invoke_event i op ∷ return_event i op ∷ events_of (suc i) ops

unfoldable pub ts_differ : ℤ → ℤ → Bool
ts_differ a b = not (not (ltb_ℤ a b) && not (ltb_ℤ b a))

-- The comparison of `sort.SliceStable`.
unfoldable pub before : Event → Event → Bool
unfolding ts_differ
before x y =
    if not (x.rank == y.rank)
    then ltb x.rank y.rank
    else if x.rank == 1 && ts_differ x.ts y.ts
    then ltb_ℤ x.ts y.ts
    else if not (bool_eq x.is_return y.is_return)
    then not x.is_return
    else ltb x.idx y.idx

unfoldable pub insert_event : Event → List Event → List Event
insert_event x [] = x ∷ []
insert_event x (y ∷ ys) =
    let later = y ∷ insert_event x ys in if before y x then later else x ∷ y ∷ ys

unfoldable pub sort_events : List Event → List Event
unfolding insert_event
sort_events [] = []
sort_events (x ∷ xs) = insert_event x (sort_events xs)

-- The threading loop: one node more for each event, hung between `cur` and the tail.
unfoldable pub thread : ℕ → Links → ℕ → ℕ → Links
thread tail l cur zero = l
thread tail l cur (suc left) =
    thread tail
      (record l {
        next = update (update l.next (cur + 1) tail) cur (cur + 1);
        prev = update (update l.prev (cur + 1) cur) tail (cur + 1);
      })
      (cur + 1) left

-- `calls[i]` and `rets[i]`: the node of an operation's event.
unfoldable pub node_of : List Event → ℕ → Bool → ℕ → ℕ
node_of [] k ret i = 0
node_of (e ∷ es) k ret i =
    if bool_eq e.is_return ret && e.idx == i then k else node_of es (k + 1) ret i

abbrev pub sentinel : Event
sentinel = record { rank = 0; ts = pos 0; is_return = false; idx = 0 }

abbrev pub event_at : List Event → ℕ → Event
event_at evs k = get_or evs (k - 1) sentinel

abbrev no_op : Operation
no_op = record {
  id = pos 0;
  kind = read;
  value = unknown_value;
  invoke_ns = pos 0;
  return_ns = pos 0;
  open_at_start = false;
  open_at_end = false;
  maybe = false;
}

abbrev pub op_at : List Operation → ℕ → Operation
op_at ops i = get_or ops i no_op

unfoldable pub nodes_of : List Operation → List Event → Nodes
nodes_of ops evs = record {
  tail = length evs + 1;
  is_return = λ k. (event_at evs k).is_return;
  match = λ k. node_of evs 1 (not (event_at evs k).is_return) (event_at evs k).idx;
  idx = λ k. (event_at evs k).idx;
  op = λ k. op_at ops (event_at evs k).idx;
}

-- The nodes and the searcher of a key's operations.
unfoldable pub build_nodes : List Operation → Nodes
unfolding nodes_of events_of sort_events node_of
build_nodes ops = nodes_of ops (sort_events (events_of 0 ops))

unfoldable pub new_searcher : List Operation → ℕ → Searcher
unfolding thread new_memo
new_searcher ops max_memo_bytes =
    let count = length (sort_events (events_of 0 ops)) in
    record {
      links =
          thread (count + 1)
            (record { next = update (λ _. 0) 0 (count + 1); prev = update (λ _. 0) (count + 1) 0 })
            0 count;
      memo = new_memo ((length ops + 63) / 64) max_memo_bytes;
      state = unknown_value;
      last_write = none;
      linear = replicate (length ops) false;
      depth = 0;
      stack = [];
      st = record {
        states = 0;
        steps = 0;
        best_depth = none;
        best_state = unknown_value;
        best_linearized = [];
        best_last_write = none;
        why = exhaust_none;
      };
    }
