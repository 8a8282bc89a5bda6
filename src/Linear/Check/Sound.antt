-- ===== src/Linear/Check/Sound.antt =====
-- What the status that cmd/thesis-oracle-linearizable/check.go reports says of the keys.
use pro_thesis.Prelude.{
  ℕ, ◌≡◌, refl, sym, ap, ◌∙◌, List, [], ◌∷◌, Option, none, some, Bool, true, false, subst,
}
use pro_thesis.Prelude.{All, In, inl, inr, ◌⊎◌, arith, length, String}
use pro_thesis.Prelude.Int.{ℤ}
use pro_thesis.Linear.Value.{Value, Operation}
use pro_thesis.Linear.Memo.{Bits}
use pro_thesis.Linear.Search.{Searcher, Outcome, linearizable, violated, exhausted}
use pro_thesis.Linear.Events.Table.{Forward}
use pro_thesis.Linear.RealTime.{Linearizable}
use pro_thesis.Linear.Correct.{search_key, search_key-returns}
use pro_thesis.Linear.Verdict.{violated-not-Linearizable, linearizable-Linearizable}
use pro_thesis.Linear.Budget.{Allowance, slice, spend}
use pro_thesis.Linear.Check.{
  KeyOps, KeyResult, Status, ok, inconclusive, violation, cons_result, followed_by, first_violated,
  any_unfinished, report_status, status_of, check_key, check_keys, check,
}

-- What an outcome claims of the operations of a key.
abbrev Claims : Outcome → List Operation → Type 0
Claims violated ops = ¬ (Linearizable ops)
Claims linearizable ops = Linearizable ops
Claims exhausted ops = Unit

abbrev IsSound : KeyOps → KeyResult → Type 0
IsSound k r = (r.key ≡ k.key) × Claims r.out k.ops

-- The results of the keys, up to the first violated one.
abbrev Covers : List KeyOps → List KeyResult → Type 0
Covers [] [] = Unit
Covers [] (r ∷ rs) = ⊥
Covers (k ∷ keys) [] = ⊥
Covers (k ∷ keys) (r ∷ rs) =
    IsSound k r
    × (((r.out ≡ violated) × (rs ≡ []))
        ⊎ (((r.out ≡ linearizable) ⊎ (r.out ≡ exhausted)) × Covers keys rs))

-- What a status claims of the keys.
abbrev pub IsJust : Status → List KeyOps → Type 0
IsJust ok keys = All (λ k. Linearizable k.ops) keys
IsJust inconclusive keys = Unit
IsJust (violation key) keys = (k : KeyOps) × In k keys × (k.key ≡ key) × ¬ (Linearizable k.ops)

abbrev pub IsForward : KeyOps → Type 0
IsForward k = All Forward k.ops

Option-cases {ℓ} : {A : Type ℓ} (x : Option A) → (x ≡ none) ⊎ ((a : A) × (x ≡ some a))
Option-cases none = inl refl
Option-cases (some a) = inr (a, refl)

Outcome-cases : (o : Outcome) → (o ≡ violated) ⊎ ((o ≡ linearizable) ⊎ (o ≡ exhausted))
Outcome-cases violated = inl refl
Outcome-cases linearizable = inr (inl refl)
Outcome-cases exhausted = inr (inr refl)

some_inj {ℓ} : {A : Type ℓ} {x y : A} → some x ≡ some y → x ≡ y
some_inj {x} h = ap (λ z. elim z [ none ↦ x | some a ↦ a ]) h

followed_by-stops :
    (r : KeyResult) (rest : Option (List KeyResult))
    → r.out ≡ violated
    → followed_by r rest ≡ some (r ∷ [])
unfolding followed_by
followed_by-stops r rest h = rw h refl

followed_by-goes_on :
    (r : KeyResult) (rest : Option (List KeyResult))
    → (r.out ≡ linearizable) ⊎ (r.out ≡ exhausted)
    → followed_by r rest ≡ cons_result r rest
unfolding followed_by
followed_by-goes_on r rest (inl h) = rw h refl
followed_by-goes_on r rest (inr h) = rw h refl

cons_result-some :
    (r : KeyResult) (rest : Option (List KeyResult)) (rs : List KeyResult)
    → cons_result r rest ≡ some rs
    → (more : List KeyResult) × (rest ≡ some more) × (rs ≡ r ∷ more)
unfolding cons_result
cons_result-some r none rs h = ground arith
cons_result-some r (some more) rs h = (more, refl, sym (some_inj h))

first_violated-stops :
    (r : KeyResult) (rs : List KeyResult) → r.out ≡ violated → first_violated (r ∷ rs) ≡ some r.key
unfolding first_violated
first_violated-stops r rs h = rw h refl

first_violated-goes_on :
    (r : KeyResult) (rs : List KeyResult)
    → (r.out ≡ linearizable) ⊎ (r.out ≡ exhausted)
    → first_violated (r ∷ rs) ≡ first_violated rs
unfolding first_violated
first_violated-goes_on r rs (inl h) = rw h refl
first_violated-goes_on r rs (inr h) = rw h refl

any_unfinished-exhausted :
    (r : KeyResult) (rs : List KeyResult) → r.out ≡ exhausted → any_unfinished (r ∷ rs) ≡ true
unfolding any_unfinished
any_unfinished-exhausted r rs h = rw h refl

any_unfinished-linearizable :
    (r : KeyResult) (rs : List KeyResult)
    → r.out ≡ linearizable
    → any_unfinished (r ∷ rs) ≡ any_unfinished rs
unfolding any_unfinished
any_unfinished-linearizable r rs h = rw h refl

claims : (k : KeyOps) (r : KeyResult) {o : Outcome} → IsSound k r → r.out ≡ o → Claims o k.ops
claims k r sound e = subst (λ o. Claims o k.ops) e sound.1

first_violated-some :
    (keys : List KeyOps) (rs : List KeyResult) {key : String}
    → Covers keys rs
    → first_violated rs ≡ some key
    → IsJust (violation key) keys
unfolding first_violated
first_violated-some [] [] c h = ground arith
first_violated-some [] (r ∷ rs) c h = elim c [ ]
first_violated-some (k ∷ keys) [] c h = elim c [ ]
first_violated-some (k ∷ keys) (r ∷ rs) (sound, inl (bad, end)) h = (
  k,
  inl refl,
  sym sound.0 ∙ some_inj (sym (first_violated-stops r rs bad) ∙ h),
  claims k r sound bad,
)
first_violated-some (k ∷ keys) (r ∷ rs) (sound, inr (fine, more)) h =
    let (found, m, e, none_fits) =
      first_violated-some keys rs more (sym (first_violated-goes_on r rs fine) ∙ h) in
    (found, inr m, e, none_fits)

first_violated-none :
    (keys : List KeyOps) (rs : List KeyResult)
    → Covers keys rs
    → first_violated rs ≡ none
    → any_unfinished rs ≡ false
    → IsJust ok keys
first_violated-none [] [] c h u = tt
first_violated-none [] (r ∷ rs) c h u = elim c [ ]
first_violated-none (k ∷ keys) [] c h u = elim c [ ]
first_violated-none (k ∷ keys) (r ∷ rs) (sound, inl (bad, end)) h u =
    let e : some r.key ≡ none = sym (first_violated-stops r rs bad) ∙ h in ground arith
first_violated-none (k ∷ keys) (r ∷ rs) (sound, inr (inl lin, more)) h u = (
  claims k r sound lin,
  first_violated-none keys rs more (sym (first_violated-goes_on r rs (inl lin)) ∙ h)
      (sym (any_unfinished-linearizable r rs lin) ∙ u),
)
first_violated-none (k ∷ keys) (r ∷ rs) (sound, inr (inr exh, more)) h u =
    let e : true ≡ false = sym (any_unfinished-exhausted r rs exh) ∙ u in ground arith

status_of-IsJust :
    (keys : List KeyOps) (rs : List KeyResult) (first : Option String) (unfinished : Bool)
    → Covers keys rs
    → first_violated rs ≡ first
    → any_unfinished rs ≡ unfinished
    → IsJust (status_of first unfinished) keys
unfolding status_of
status_of-IsJust keys rs (some key) unfinished c e u = first_violated-some keys rs c e
status_of-IsJust keys rs none true c e u = tt
status_of-IsJust keys rs none false c e u = first_violated-none keys rs c e u

module _ (hash : Value → Bits → ℕ) (max_memo_bytes : ℕ) (wall_left : ℕ → ℤ)
    (expired : ℕ → ℕ → Bool) where
  search-Claims :
      (share n : ℕ) (ops : List Operation) {o : Outcome} {s : Searcher}
      → All Forward ops
      → search_key hash share (expired n) max_memo_bytes ops ≡ some (o, s)
      → Claims o ops
  search-Claims share n ops {o = violated} fwd h =
      violated-not-Linearizable hash share (expired n) max_memo_bytes ops fwd h
  search-Claims share n ops {o = linearizable} fwd h =
      linearizable-Linearizable hash share (expired n) max_memo_bytes ops fwd h
  search-Claims share n ops {o = exhausted} fwd h = tt

  -- A key is always given a result, and it is right.
  check_key-IsSound :
      (k : KeyOps) (n : ℕ) (share : Option ℕ)
      → IsForward k
      → (r : KeyResult) × (check_key hash max_memo_bytes wall_left expired k n share ≡ some r)
        × IsSound k r
  unfolding check_key
  check_key-IsSound k n none fwd = (_, refl, (refl, tt))
  check_key-IsSound k n (some share) fwd =
      let (q, e) = search_key-returns hash share (expired n) max_memo_bytes k.ops fwd in
      (
        record { key = k.key; out = q.0; states = q.1.st.states },
        ap
            (λ z. elim z [
              | none ↦ none
              | some y ↦ some (record { key = k.key; out = y.0; states = y.1.st.states })
            ])
            e,
        (refl, search-Claims share n k.ops fwd e),
      )

  check_keys-Covers :
      (b : Allowance) (keys : List KeyOps)
      → All IsForward keys
      → (rs : List KeyResult) × (check_keys hash max_memo_bytes wall_left expired b keys ≡ some rs)
        × Covers keys rs
  unfolding check_keys cons_result
  check_keys-Covers b [] fwd = ([], refl, tt)
  check_keys-Covers b (k ∷ keys) (f, fwd) =
      let remaining = length (k ∷ keys) in
      let (r, e, sound) =
        check_key-IsSound k remaining (slice b remaining (wall_left remaining)) f in
      let (rs, e', c) = check_keys-Covers (spend b r.states) keys fwd in
      let entered : check_keys hash max_memo_bytes wall_left expired b (k ∷ keys)
          ≡ followed_by r
              (check_keys hash max_memo_bytes wall_left expired (spend b r.states) keys) =
        ap
          (λ z. elim z [
            | none ↦ none
            | some y ↦
                followed_by y
                  (check_keys hash max_memo_bytes wall_left expired (spend b y.states) keys)
          ])
          e in
      elim (Outcome-cases r.out) [
        | inl bad ↦ (r ∷ [], entered ∙ followed_by-stops r _ bad, (sound, inl (bad, refl)))
        | inr fine ↦ (
          r ∷ rs,
          entered ∙ followed_by-goes_on r _ fine ∙ ap (cons_result r) e',
          (sound, inr (fine, c)),
        )
      ]

  -- The check of any keys reports a status, and it is just: `violated` names a key that no order
  -- linearizes, and `ok` says that every key can be linearized. (No operation returns before it is
  -- invoked.)
  pub check-IsJust :
      (b : Allowance) (keys : List KeyOps)
      → All IsForward keys
      → (status : Status) × (check hash max_memo_bytes wall_left expired b keys ≡ some status)
        × IsJust status keys
  unfolding check report_status
  check-IsJust b keys fwd =
      let (rs, e, c) = check_keys-Covers b keys fwd in
      (
        report_status rs,
        ap (λ z. elim z [ none ↦ none | some y ↦ some (report_status y) ]) e,
        status_of-IsJust keys rs _ _ c refl refl,
      )
