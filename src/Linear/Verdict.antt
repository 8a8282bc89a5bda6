-- ===== src/Linear/Verdict.antt =====
-- What the answers of the per-key search (cmd/thesis-oracle-linearizable/search.go) say of the
-- operations, in real time.
use pro_thesis.Prelude.{ℕ, ◌≡◌, Bool, List, false, All, some, length, length-replicate}
use pro_thesis.Linear.Value.{Value, Operation}
use pro_thesis.Linear.Memo.{Bits}
use pro_thesis.Linear.Search.{Searcher, linearizable, violated}
use pro_thesis.Linear.Search.Spec.{Linearization}
use pro_thesis.Linear.Events.{build_nodes}
use pro_thesis.Linear.Events.Table.{Forward}
use pro_thesis.Linear.Correct.{search_key, search_key-IsRight, start, get_or-replicate}
use pro_thesis.Linear.RealTime.{Linearizable}
use pro_thesis.Linear.RealTime.Bridge.{to_order}
use pro_thesis.Linear.RealTime.Converse.{of_order}

module _ (ops : List Operation) (fwd : All Forward ops) where
  from_start : Linearization (build_nodes ops) (start ops) → Linearizable ops
  from_start l =
      let (order, o) = to_order ops fwd (start ops) (length-replicate (length ops) false) l in
      (
        order,
        record {
          complete = λ i lt u. o.complete i lt (get_or-replicate (length ops) i);
          exact = λ i m. ((o.exact i m).0, tt);
          timely = o.timely;
          answered = o.answered;
        },
      )

  to_start : Linearizable ops → Linearization (build_nodes ops) (start ops)
  to_start (order, o) =
      of_order ops fwd order (start ops) (length-replicate (length ops) false) (record {
        complete = λ i lt l. o.complete i lt tt;
        exact = λ i m. ((o.exact i m).0, get_or-replicate (length ops) i);
        timely = o.timely;
        answered = o.answered;
      })

module _ (hash : Value → Bits → ℕ) (limit_states : ℕ) (expired : ℕ → Bool) (max_memo_bytes : ℕ)
    (ops : List Operation) (fwd : All Forward ops) {s : Searcher} where
  -- If the search of a key answers `violated`, whatever the hash, the deadline and the bounds on
  -- states and memory, then no order of the key's operations respects real time and answers every
  -- read from a last-write-wins register. (No operation returns before it is invoked.)
  pub violated-not-Linearizable :
      search_key hash limit_states expired max_memo_bytes ops ≡ some (violated, s)
      → ¬ (Linearizable ops)
  violated-not-Linearizable h l =
      search_key-IsRight hash limit_states expired max_memo_bytes ops fwd h (to_start ops fwd l)

  -- If the search of a key answers `linearizable`, such an order of all the key's operations
  -- exists. (No operation returns before it is invoked.)
  pub linearizable-Linearizable :
      search_key hash limit_states expired max_memo_bytes ops ≡ some (linearizable, s)
      → Linearizable ops
  linearizable-Linearizable h =
      from_start ops fwd (search_key-IsRight hash limit_states expired max_memo_bytes ops fwd h)
