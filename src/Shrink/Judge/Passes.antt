-- ===== src/Shrink/Judge/Passes.antt =====
-- The passes of a round of `firstReproducing` (internal/shrink/probe.go): what they keep and settle.
use pro_thesis.Prelude.{
  ℕ, ◌≤◌, ◌<◌, ◌≡◌, ◌≢◌, ◌⊎◌, inl, inr, refl, sym, ap, ◌∙◌, subst, List, [], ◌∷◌, ◌++◌, Bool, true,
  false, not, ◌||◌, Option, none, some, arith,
}
use pro_thesis.Prelude.{
  if◌then◌else◌, if_intro, length, get_or, set, All, length-set, get_or-set_self, get_or-set_ne,
}
use pro_thesis.Prelude.Int.{ℤ}
use pro_thesis.Prelude.{All-get_or, All-set}
use pro_thesis.Shrink.Identity.{Identity, Strictness}
use pro_thesis.Shrink.Attempt.{Candidate, Attempt, classify}
use pro_thesis.Shrink.Prober.{Prober, Decision, same_key, is_reproduced, note_attempt}
use pro_thesis.Shrink.Prober.Evidence.{IsProven}
use pro_thesis.Shrink.Prober.Sane.{IsSane, AreSeen, note_attempt-IsSane}
use pro_thesis.Shrink.Judge.{
  Tally, new_tally, observe, decision_of, no_decision, Settled, no_candidate, memo, note_all,
  observe_all, settle,
}
use pro_thesis.Shrink.Judge.Accepted.{IsBacked, observe-IsBacked}

pub first_or :
    (b : Bool) (i : ℕ) (rest : Option ℕ) (j : ℕ)
    → (if b then some i else rest) ≡ some j
    → ((b ≡ true) × (i ≡ j)) ⊎ (rest ≡ some j)
first_or true i rest j e = inl (refl, ground arith)
first_or false i rest j e = inr e

pub none-some : (d : Decision) → none ≢ some d
none-some d e = absurd (ground arith)

pub some_inj : (x d : Decision) → some x ≡ some d → x ≡ d
some_inj x d e = ap (λ z. elim z [ none ↦ x | some y ↦ y ]) e

pub nat_inj : (i j : ℕ) → some i ≡ some j → i ≡ j
nat_inj i j e = ground arith

abbrev pub Rising : List ℕ → Type 0
Rising [] = Unit
Rising (i ∷ is) = All (λ j. i < j) is × Rising is

pub All-widen : (i k : ℕ) (xs : List ℕ) → i ≤ k → All (λ j. j < i) xs → All (λ j. j < k) xs
All-widen i k [] le h = tt
All-widen i k (x ∷ xs) le h = (omega (arith, h.0), All-widen i k xs le h.1)

pub All-snoc : (P : ℕ → Type 0) (xs : List ℕ) (i : ℕ) → All P xs → P i → All P (xs ++ (i ∷ []))
All-snoc P [] i h q = (q, tt)
All-snoc P (x ∷ xs) i h q = (h.0, All-snoc P xs i h.1 q)

pub Rising-snoc : (xs : List ℕ) (i : ℕ) → Rising xs → All (λ j. j < i) xs → Rising (xs ++ (i ∷ []))
Rising-snoc [] i h s = (tt, tt)
Rising-snoc (x ∷ xs) i h s = (All-snoc (λ j. x < j) xs i h.0 s.0, Rising-snoc xs i h.1 s.1)

-- The decision on the candidate `i` is one of reproduction.
abbrev pub Accepts : List Decision → ℕ → Type 0
Accepts ds i = is_reproduced (get_or ds i no_decision).signal ≡ true

module _ {E : Type 0} (orig : Identity) (Seen : Identity → Type 0) (needed : ℤ)
    (unreduced : Option Candidate) (w r : ℕ) (level : Strictness)
    (same_candidate : Candidate → Candidate → Bool)
    (execute_one : E → Candidate → E × Option Attempt) (elapsed : E → ℤ) (canceled : E → Bool)
    (keyed : (d id : Identity) → same_key d id ≡ true → Seen id → Seen d)
    (seen : (e : E) (c : Candidate) (a : Attempt) (u : Candidate)
      → (execute_one e c).1 ≡ some a
      → unreduced ≡ some u
      → same_candidate u c ≡ true
      → All Seen a.observed) where
  abbrev pub Sane : Prober E → Type 0
  Sane p = IsSane orig Seen needed unreduced w r level p

  abbrev pub Attempts : List Candidate → List Attempt → Type 0
  Attempts cs as_ =
      AreSeen orig Seen needed unreduced w r level same_candidate execute_one elapsed canceled keyed
        seen cs as_

  pub memo-Sane :
      (p : Prober E) (c : Candidate) (d : Decision)
      → Sane p
      → IsProven needed d
      → Sane (memo orig same_candidate execute_one elapsed canceled p c d)
  unfolding memo
  memo-Sane p c d h q =
      if_intro Sane (p.pol.disable_cache || d.truncated) p _ (λ _. h)
        (λ _. record {
          accepts = h.accepts;
          proven = (q, h.proven);
          evidence = h.evidence;
          target = h.target;
          metered = h.metered;
          charged = h.charged;
          at_level = h.at_level;
        })

  pub note_all-Sane :
      (p : Prober E) (cs : List Candidate) (as_ : List Attempt)
      → Sane p
      → Attempts cs as_
      → Sane (note_all orig same_candidate execute_one elapsed canceled p cs as_)
  unfolding note_all
  note_all-Sane p [] as_ h s = h
  note_all-Sane p (c ∷ cs) [] h s = h
  note_all-Sane p (c ∷ cs) (a ∷ as_) h s =
      note_all-Sane (note_attempt orig same_candidate execute_one elapsed canceled p c a) cs as_
        (note_attempt-IsSane orig Seen needed unreduced w r level same_candidate execute_one elapsed
          canceled keyed seen p c a h s.0)
        s.1

  pub observe_all-Sane :
      (p : Prober E) (cs : List Candidate) (is : List ℕ) (as_ : List Attempt) (ts : List Tally)
      → Sane p
      → Attempts cs as_
      → All (IsBacked needed) ts
      → let x = observe_all orig same_candidate execute_one elapsed canceled p cs is as_ ts in
        Sane x.0 × All (IsBacked needed) x.1
  unfolding observe_all
  observe_all-Sane p [] is as_ ts h s b = (h, b)
  observe_all-Sane p (c ∷ cs) [] as_ ts h s b = (h, b)
  observe_all-Sane p (c ∷ cs) (i ∷ is) [] ts h s b = (h, b)
  observe_all-Sane p (c ∷ cs) (i ∷ is) (a ∷ as_) ts h s b =
      let p' = note_attempt orig same_candidate execute_one elapsed canceled p c a in
      let h' =
        note_attempt-IsSane orig Seen needed unreduced w r level same_candidate execute_one elapsed
          canceled keyed seen p c a h s.0 in
      let t =
        observe (get_or ts i new_tally) (classify p.pol.strictness orig a).0 a.world_path p'.pol in
      observe_all-Sane p' cs is as_ (set ts i t) h' s.1 (
        All-set (IsBacked needed) ts i t b (
          observe-IsBacked needed (get_or ts i new_tally) (classify p.pol.strictness orig a).0
            a.world_path p'.pol h'.accepts
            (All-get_or (IsBacked needed) ts i new_tally b (λ e. absurd (ground arith)))))

  -- The end of a round.
  pub record IsSettled (is : List ℕ) (ds : List Decision) (s : Settled E) : Type 0 where
    pub sane : Sane s.prober
    pub same_length : length s.decisions ≡ length ds
    pub below :
        (j : ℕ) → All (λ i. j < i) is → get_or s.decisions j no_decision ≡ get_or ds j no_decision
    pub above : (j : ℕ) → All (λ i. j < i) is → All (λ i. j < i) s.next
    pub bounded : (n : ℕ) → All (λ i. i < n) is → All (λ i. i < n) s.next
    pub rising : Rising is → Rising s.next
    pub proven : All (IsProven needed) ds → All (IsProven needed) s.decisions
    pub accepts :
        (i : ℕ)
        → s.accepted ≡ some i
        → Rising is
        → All (λ j. j < length ds) is
        → Accepts s.decisions i × (i < length ds)

  pub settle-IsSettled :
      (p : Prober E) (cs : List Candidate) (ts : List Tally) (is : List ℕ) (ds : List Decision)
      → Sane p
      → All (IsBacked needed) ts
      → IsSettled is ds (settle orig same_candidate execute_one elapsed canceled p cs ts is ds)
  unfolding settle
  settle-IsSettled p cs ts [] ds h b = record {
    sane = h;
    same_length = refl;
    below = λ j _. refl;
    above = λ j _. tt;
    bounded = λ n _. tt;
    rising = λ _. tt;
    proven = λ q. q;
    accepts = λ i e. absurd (ground arith);
  }
  settle-IsSettled p cs ts (i ∷ is) ds h b =
      let t = get_or ts i new_tally in
      let d = decision_of t (not t.done) in
      let backed = All-get_or (IsBacked needed) ts i new_tally b (λ e. absurd (ground arith)) in
      let p' =
        memo orig same_candidate execute_one elapsed canceled p (get_or cs i no_candidate) d in
      let s = settle orig same_candidate execute_one elapsed canceled p' cs ts is (set ds i d) in
      let u = settle orig same_candidate execute_one elapsed canceled p cs ts is (set ds i d) in
      let S = settle-IsSettled p' cs ts is (set ds i d) (memo-Sane p _ d h backed) b in
      let U = settle-IsSettled p cs ts is (set ds i d) h b in
      let len = length-set ds i d in
      if_intro (IsSettled (i ∷ is) ds) t.done
        (record s { accepted = if is_reproduced t.sig then some i else s.accepted })
        (record u { next = i ∷ u.next })
        (λ _. record {
          sane = S.sane;
          same_length = S.same_length ∙ len;
          below = λ j q. S.below j q.1 ∙ get_or-set_ne ds d no_decision (λ e. absurd (omega arith));
          above = λ j q. S.above j q.1;
          bounded = λ n q. S.bounded n q.1;
          rising = λ q. S.rising q.1;
          proven = λ q. S.proven (All-set (IsProven needed) ds i d q backed);
          accepts = λ j e rise small.
              let small' = subst (λ n. All (λ k. k < n) is) (sym len) small.1 in
              elim (first_or (is_reproduced t.sig) i s.accepted j e) [
                | inl (q, same) ↦
                    subst (λ k. Accepts s.decisions k × (k < length ds)) same
                      (
                        ap (λ z. is_reproduced z.signal)
                              (S.below i rise.0 ∙ get_or-set_self ds i d no_decision small.0)
                            ∙ q,
                        small.0,
                      )
                | inr q ↦ let (x, y) = S.accepts j q rise.1 small' in (x, subst (λ n. j < n) len y)
              ];
        })
        (λ _. record {
          sane = U.sane;
          same_length = U.same_length ∙ len;
          below = λ j q. U.below j q.1 ∙ get_or-set_ne ds d no_decision (λ e. absurd (omega arith));
          above = λ j q. (q.0, U.above j q.1);
          bounded = λ n q. (q.0, U.bounded n q.1);
          rising = λ q. (U.above i q.0, U.rising q.1);
          proven = λ q. U.proven (All-set (IsProven needed) ds i d q backed);
          accepts = λ j e rise small.
              let (a, c) =
                U.accepts j e rise.1 (subst (λ n. All (λ k. k < n) is) (sym len) small.1) in
              (a, subst (λ n. j < n) len c);
        })
