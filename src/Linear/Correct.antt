-- ===== src/Linear/Correct.antt =====
-- `newSearcher` and `run` of cmd/thesis-oracle-linearizable/search.go together: the search of one
-- key, and the fuel it is given.
use pro_thesis.Prelude.{
  ℕ, zero, suc, ◌+◌, ◌-◌, ◌*◌, ◌<◌, ◌≡◌, refl, sym, ap, subst, List, [], ◌∷◌, ◌∙◌,
}
use pro_thesis.Prelude.{Bool, true, false, inl, inr, All, arith, Option, some, length, get_or}
use pro_thesis.Prelude.{replicate, filter, length-replicate}
use pro_thesis.Linear.Value.{Value, Operation, unknown_value}
use pro_thesis.Linear.Memo.{Bits, seen_in, new_memo}
use pro_thesis.Linear.Links.{Links, update}
use pro_thesis.Linear.Links.Chain.{Chain}
use pro_thesis.Linear.Search.{Searcher, Outcome, run, note_best, head}
use pro_thesis.Linear.Search.Spec.{Config, pending, events, up_from}
use pro_thesis.Linear.Search.Position.{Before-first}
use pro_thesis.Linear.Search.Decides.{Ready, IsRight, loop-IsRight, loop-returns}
use pro_thesis.Linear.Events.{build_nodes, nodes_of, new_searcher}
use pro_thesis.Linear.Events.Table.{Forward, evs}
use pro_thesis.Linear.Events.Threaded.{build_nodes-IsThreaded, thread-Chain}

-- Nothing placed, and the register undetermined.
abbrev pub start : List Operation → Config
start ops = record { value = unknown_value; placed = replicate (length ops) false }

-- More turns than the search can take.
unfoldable pub search_fuel : ℕ → List Operation → ℕ
search_fuel limit_states ops =
    let tail = (build_nodes ops).tail in limit_states * (2 * (tail + 1)) + tail + 1

module _ (hash : Value → Bits → ℕ) (limit_states : ℕ) (expired : ℕ → Bool)
    (max_memo_bytes : ℕ) where
  -- The search of one key's operations.
  unfoldable pub search_key : List Operation → Option (Outcome × Searcher)
  unfolding run new_searcher build_nodes
  search_key ops =
      run hash (build_nodes ops) limit_states expired (search_fuel limit_states ops)
        (new_searcher ops max_memo_bytes)

pub get_or-replicate : (n i : ℕ) → get_or (replicate n false) i false ≡ false
get_or-replicate zero i = refl
get_or-replicate (suc n) zero = refl
get_or-replicate (suc n) (suc i) = get_or-replicate n i

filter_all : (p : ℕ → Bool) (xs : List ℕ) → ((x : ℕ) → p x ≡ true) → filter p xs ≡ xs
filter_all p [] h = refl
filter_all p (x ∷ xs) h = rw (h x) (ap (λ ys. x ∷ ys) (filter_all p xs h))

module _ (hash : Value → Bits → ℕ) (limit_states : ℕ) (expired : ℕ → Bool) (max_memo_bytes : ℕ)
    (ops : List Operation) (fwd : All Forward ops) where
  all_pending : pending (build_nodes ops) (start ops).placed ≡ up_from (length (evs ops)) 1
  unfolding build_nodes nodes_of
  all_pending =
      filter_all _ (events (build_nodes ops)) (λ k. rw (get_or-replicate (length ops) _) refl)
      ∙ ap (λ n. up_from n 1) (omega arith)

  start-Chain :
      Chain
        (new_searcher ops max_memo_bytes).links
        0
        (pending (build_nodes ops) (start ops).placed)
        (build_nodes ops).tail
  unfolding new_searcher build_nodes nodes_of
  start-Chain =
      let links : Links = record {
        next = update (λ _. 0) 0 (length (evs ops) + 1);
        prev = update (λ _. 0) (length (evs ops) + 1) 0;
      } in
      subst (λ xs. Chain (new_searcher ops max_memo_bytes).links 0 xs (build_nodes ops).tail)
        (sym all_pending)
        (thread-Chain (length (evs ops) + 1) links 0 (length (evs ops)) (omega arith) (ground arith)
          (ground arith)).0

  empty_memo :
      (h : ℕ) (v : Value) (b : Bits)
      → ¬ (seen_in ((new_searcher ops max_memo_bytes).memo.buckets h) v b ≡ true)
  unfolding new_searcher new_memo seen_in
  empty_memo h v b e = ground arith

  first_entry : ℕ
  first_entry = (new_searcher ops max_memo_bytes).links.next head

  start-Ready :
      Ready hash
        (build_nodes ops)
        limit_states
        expired
        (length ops)
        (start ops)
        (build_nodes-IsThreaded ops fwd)
        (note_best (new_searcher ops max_memo_bytes))
        first_entry
  unfolding new_searcher note_best first_entry
  start-Ready = record {
    entered = start ops ∷ [];
    parents = [];
    inv = record {
      stacked = (refl, start-Chain, length-replicate (length ops) false);
      recorded = λ h v b e. absurd (empty_memo h v b e);
      settled = λ c m. elim m [ inl e ↦ inl e | inr n ↦ elim n [ ] ];
      unfinished = λ c m. elim m [ inl e ↦ inl e | inr n ↦ elim n [ ] ];
      rooted = inl refl;
    };
    position =
        Before-first (build_nodes ops) (start ops ∷ []) (start ops)
          (new_searcher ops max_memo_bytes).links 0 (pending (build_nodes ops) (start ops).placed)
          start-Chain;
  }

  -- A definite answer of the search is right: `linearizable` comes with a linearization, and
  -- `violated` only where there is none.
  pub search_key-IsRight :
      {o : Outcome} {s : Searcher}
      → search_key hash limit_states expired max_memo_bytes ops ≡ some (o, s)
      → IsRight hash
          (build_nodes ops)
          limit_states
          expired
          (length ops)
          (start ops)
          (build_nodes-IsThreaded ops fwd)
          o
  unfolding search_key run first_entry
  search_key-IsRight h =
      loop-IsRight hash (build_nodes ops) limit_states expired (length ops) (start ops)
        (build_nodes-IsThreaded ops fwd) (search_fuel limit_states ops)
        (note_best (new_searcher ops max_memo_bytes)) first_entry start-Ready h

  enough :
      (limit_states - (note_best (new_searcher ops max_memo_bytes)).st.states)
          * (2 * ((build_nodes ops).tail + 1))
        + length (note_best (new_searcher ops max_memo_bytes)).stack * ((build_nodes ops).tail + 1)
        + ((build_nodes ops).tail - first_entry)
      < search_fuel limit_states ops
  unfolding note_best new_searcher search_fuel
  enough =
      let q : limit_states - 0 ≡ limit_states = omega arith in
      omega (arith, ap (λ z. z * (2 * ((build_nodes ops).tail + 1))) q)

  -- The search of a key returns within its fuel, whatever the hash, the deadline and the bounds on
  -- states and memory. (No operation returns before it is invoked.)
  pub search_key-returns :
      (r : Outcome × Searcher) × (search_key hash limit_states expired max_memo_bytes ops ≡ some r)
  unfolding search_key run first_entry
  search_key-returns =
      loop-returns hash (build_nodes ops) limit_states expired (length ops) (start ops)
        (build_nodes-IsThreaded ops fwd) (search_fuel limit_states ops)
        (note_best (new_searcher ops max_memo_bytes)) first_entry start-Ready enough
