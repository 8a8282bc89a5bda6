-- ===== src/Samples/Histories.antt =====
-- Short histories of one register, and what the checker of cmd/thesis-oracle-linearizable says.
use pro_thesis.Prelude.{
  ℕ, ◌≡◌, refl, List, [], ◌∷◌, false, some, All, inl, inr, arith, String, ◌+◌, ◌-◌, ◌≤◌, In, ◌↔◌,
}
use pro_thesis.Prelude.Int.{pos}
use pro_thesis.Linear.Value.{Value, Operation, OpKind, read, write, known_value, equal}
use pro_thesis.Linear.Memo.{Bits, insert, seen_in, new_memo, equal_bits, equal_words}
use pro_thesis.Linear.Model.{alternatives, alternatives_of, applied}
use pro_thesis.Linear.Search.{
  Outcome, Searcher, run, loop, turn, backtrack, undo, attempt, try_from, try_alternatives, advance,
  note_best,
}
use pro_thesis.Linear.Events.{
  build_nodes, nodes_of, new_searcher, thread, sort_events, insert_event, before, events_of,
  node_of, ts_differ,
}
use pro_thesis.Linear.Links.{lift, unlift, cut, paste}
use pro_thesis.Linear.Events.Table.{Forward}
use pro_thesis.Linear.Correct.{search_key, search_fuel, search_key-returns}
use pro_thesis.Linear.RealTime.{Linearizable}
use pro_thesis.Linear.Budget.{Allowance, slice, spend, slice-spend}
use pro_thesis.Linear.Check.{KeyOps, Status, check}
use pro_thesis.Linear.Check.Sound.{check-IsJust, IsJust}
use pro_thesis.Linear.Links.{Links}
use pro_thesis.Linear.Links.Chain.{Chain, unlift-lift}
use pro_thesis.Linear.RealTime.{Accepts}
use pro_thesis.Linear.RealTime.Events.{alternatives-Accepts}
use pro_thesis.Linear.Verdict.{violated-not-Linearizable, linearizable-Linearizable}

abbrev op_of : OpKind → String → ℕ → ℕ → Operation
op_of kind v a b = record {
  id = pos a;
  kind = kind;
  value = known_value v;
  invoke_ns = pos a;
  return_ns = pos b;
  open_at_start = false;
  open_at_end = false;
  maybe = false;
}

abbrev hash0 : Value → Bits → ℕ
hash0 v b = 0

-- Two writes and a read of the older value.
abbrev stale : List Operation
stale = op_of write "1" 0 1 ∷ op_of write "2" 2 3 ∷ op_of read "1" 4 5 ∷ []

-- Two writes that overlap, and a read of the one that is first in the file.
abbrev fresh : List Operation
fresh = op_of write "1" 0 3 ∷ op_of write "2" 1 2 ∷ op_of read "1" 4 5 ∷ []

stale-Forward : All Forward stale
stale-Forward = ground arith

fresh-Forward : All Forward fresh
fresh-Forward = ground arith

violated-not-Linearizable_example : ¬ (Linearizable stale)
unfolding search_key search_fuel run loop turn backtrack undo attempt try_from try_alternatives
    advance note_best insert seen_in new_memo equal_bits equal_words equal alternatives
    alternatives_of applied build_nodes nodes_of new_searcher thread sort_events insert_event before
    ts_differ events_of node_of lift unlift cut paste
violated-not-Linearizable_example =
    violated-not-Linearizable hash0 100 (λ _. false) 4096 stale stale-Forward refl

linearizable-Linearizable_example : Linearizable fresh
unfolding search_key search_fuel run loop turn backtrack undo attempt try_from try_alternatives
    advance note_best insert seen_in new_memo equal_bits equal_words equal alternatives
    alternatives_of applied build_nodes nodes_of new_searcher thread sort_events insert_event before
    ts_differ events_of node_of lift unlift cut paste
linearizable-Linearizable_example =
    linearizable-Linearizable hash0 100 (λ _. false) 4096 fresh fresh-Forward refl

search_key-returns_example :
    (r : Outcome × Searcher) × (search_key hash0 2 (λ _. false) 4096 stale ≡ some r)
search_key-returns_example = search_key-returns hash0 2 (λ _. false) 4096 stale stale-Forward

abbrev two_keys : List KeyOps
two_keys = record { key = "k/1"; ops = fresh } ∷ record { key = "k/2"; ops = stale } ∷ []

abbrev allowance : Allowance
allowance = record { max_states = 10; spent = 4 }

check-IsJust_example :
    (status : Status) × (check hash0 4096 (λ _. pos 7) (λ _ _. false) allowance two_keys
      ≡ some status)
    × IsJust status two_keys
check-IsJust_example =
    check-IsJust hash0 4096 (λ _. pos 7) (λ _ _. false) allowance two_keys
      (fresh-Forward, (stale-Forward, tt))

-- Of the six states that are left, three keys have two each.
slice-spend_example : ((spend allowance 2).spent ≤ (spend allowance 2).max_states) × (1 ≤ 2)
unfolding slice
slice-spend_example = slice-spend allowance 3 2 (pos 7) refl (ground arith)

-- The list 0, 1, 2, 3.
abbrev links : Links
links = record { next = λ n. n + 1; prev = λ n. n - 1 }

links-Chain : Chain links 0 (1 ∷ 2 ∷ []) 3
links-Chain = ground arith

unlift-lift_example : unlift (lift links 1 2) 1 2 ≡ links
unlift-lift_example =
    unlift-lift links 0 (1 ∷ 2 ∷ []) 3 1 2 links-Chain (inl refl) (inr (inl refl)) (ground arith)

alternatives-Accepts_example :
    In (known_value "1") (alternatives (known_value "1") (op_of read "1" 4 5))
    ↔ Accepts read (op_of read "1" 4 5) (known_value "1") (known_value "1")
alternatives-Accepts_example =
    alternatives-Accepts (op_of read "1" 4 5) (known_value "1") (known_value "1")
