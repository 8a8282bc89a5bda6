-- ===== src/Shrink/Identity/Levels.antt =====
-- What a match of internal/shrink/identity.go says at each level.
use pro_thesis.Prelude.{
  ℕ, ◌≤◌, ◌≡◌, ◌≢◌, ◌↔◌, ◌⊎◌, inl, inr, refl, sym, ap, ◌∙◌, Bool, true, false, not, List, [], ◌∷◌,
  String, Option, none, some, arith, str_eq, str_eq_iff, ◌&&◌, ◌||◌,
}
use pro_thesis.Prelude.{if◌then◌else◌, Bool-cases, In, All, filter, leb}
use pro_thesis.Prelude.Int.{ℤ, eq_of_parts}
use pro_thesis.Shrink.Identity.{
  Identity, Strictness, Mismatch, rank, match_at, missing_ops, sort_ids, insert_id, ops_mismatch,
  has_id, same_id,
}

-- The candidate reproduces the original at the level of that rank.
pub record IsMatch (level : ℕ) (orig cand : Identity) : Type 0 where
  pub named : orig.oracle ≢ ""
  pub same_oracle : cand.oracle ≡ orig.oracle
  pub same_class : 2 ≤ level → cand.cls ≡ orig.cls
  pub same_key : 3 ≤ level → (orig.key ≡ "") ⊎ ((cand.key ≡ "") ⊎ (cand.key ≡ orig.key))
  pub covers_ops : 4 ≤ level → All (λ a. In a cand.op_ids) orig.op_ids

same_id_left : (b : ℤ) (c : Bool) → (same_id b b || c) ≡ true
same_id_left b c = ground arith

or-right : (b c : Bool) → c ≡ true → (b || c) ≡ true
or-right true c e = refl
or-right false c e = e

has_id_iff : (ids : List ℤ) (a : ℤ) → (has_id ids a ≡ true) ↔ In a ids
has_id_iff [] a = (λ e. absurd (ground arith), λ m. elim m [ ])
has_id_iff (b ∷ bs) a = (
  λ e. elim (Bool-cases (same_id a b)) [
    | inl q ↦ inl (eq_of_parts a b (ground arith))
    | inr q ↦ inr ((has_id_iff bs a).0 (ground arith))
  ],
  λ m. elim m [
    | inl e ↦ rw e (same_id_left b (has_id bs b))
    | inr m ↦ or-right (same_id a b) _ ((has_id_iff bs a).1 m)
  ],
)

insert-some : (a : ℤ) (ids : List ℤ) → insert_id a ids ≢ []
insert-some a [] e = absurd (ground arith)
insert-some a (b ∷ bs) e = absurd (ground arith)

sort-empty : (ids : List ℤ) → sort_ids ids ≡ [] → ids ≡ []
sort-empty [] e = refl
sort-empty (a ∷ ids) e = absurd (insert-some a (sort_ids ids) e)

-- Nothing is missing when every wanted id is there.
filter-none :
    (want have : List ℤ) → (filter (λ a. not (has_id have a)) want ≡ []) ↔ All (λ a. In a have) want
filter-none [] have = (λ _. tt, λ _. refl)
filter-none (a ∷ want) have = (
  λ e. elim (Bool-cases (has_id have a)) [
    | inl q ↦ ((has_id_iff have a).0 q, (filter-none want have).0 (ground arith))
    | inr q ↦ absurd (ground arith)
  ],
  λ h. rw ((has_id_iff have a).1 h.0) ((filter-none want have).1 h.1),
)

ops_mismatch_iff : (ids : List ℤ) → (ops_mismatch ids ≡ none) ↔ (ids ≡ [])
ops_mismatch_iff [] = (λ _. refl, λ _. refl)
ops_mismatch_iff (a ∷ ids) = (λ e. absurd (ground arith), λ e. absurd (ground arith))

missing_ops_iff : (want have : List ℤ) → (missing_ops want have ≡ []) ↔ All (λ a. In a have) want
unfolding missing_ops
missing_ops_iff want have = (
  λ e. (filter-none want have).0 (sort-empty _ e),
  λ h. ap sort_ids ((filter-none want have).1 h),
)

and_false : (b : Bool) → (not b && false) ≡ false
and_false b = ground arith

and_false2 : (b c : Bool) → (not b && (not c && false)) ≡ false
and_false2 b c = ground arith

false-true : false ≢ true
false-true e = ground arith

not_true : (b : Bool) → b ≢ true → b ≡ false
not_true b h = ground arith

-- A guard that reports a mismatch has to fail.
guard_iff :
    (b : Bool) (x : Mismatch) (rest : Option Mismatch)
    → ((if b then some x else rest) ≡ none) ↔ ((b ≡ false) × (rest ≡ none))
guard_iff true x rest = (λ e. absurd (ground arith), λ h. absurd (ground (arith, h.0)))
guard_iff false x rest = (λ e. (refl, e), λ h. h.1)

str_differs_iff : (a b : String) → (not (str_eq a b) ≡ false) ↔ (a ≡ b)
str_differs_iff a b = (λ e. (str_eq_iff a b).0 (ground arith), λ e. rw ((str_eq_iff a b).1 e) refl)

-- A guard that only counts from a level on.
from_level_iff :
    (least level : ℕ) (b : Bool) → ((leb least level && b) ≡ false) ↔ (least ≤ level → b ≡ false)
from_level_iff least level b = elim (Bool-cases (leb least level)) [
  | inl e ↦ (λ q _. ground arith, λ h. rw (e, h (ground arith)) refl)
  | inr e ↦ (λ q le. absurd (ground arith), λ h. rw e refl)
]

-- The guard on the witness keys.
keys_iff :
    (o c : String)
    → ((not (str_eq o "") && (not (str_eq c "") && not (str_eq c o))) ≡ false)
      ↔ ((o ≡ "") ⊎ ((c ≡ "") ⊎ (c ≡ o)))
keys_iff o c = (
  λ e. elim (Bool-cases (str_eq o "")) [
    | inl q ↦ inl ((str_eq_iff o "").0 q)
    | inr q ↦ elim (Bool-cases (str_eq c "")) [
      | inl p ↦ inr (inl ((str_eq_iff c "").0 p))
      | inr p ↦ inr (
          inr (
            (str_differs_iff c o).0 (
              ap (λ b. not b && not (str_eq c o)) (sym p)
              ∙ (ap (λ b. not b && (not (str_eq c "") && not (str_eq c o))) (sym q) ∙ e))))
    ]
  ],
  λ h. elim h [
    | inl e ↦ rw ((str_eq_iff o "").1 e) refl
    | inr (inl e) ↦ rw ((str_eq_iff c "").1 e) (and_false _)
    | inr (inr e) ↦ rw ((str_eq_iff c o).1 e) (and_false2 _ _)
  ],
)

-- The last guard, which only counts from its level on.
last_iff :
    (level : ℕ) (want have : List ℤ)
    → ((if leb 4 level then ops_mismatch (missing_ops want have) else none) ≡ none)
      ↔ (4 ≤ level → All (λ a. In a have) want)
last_iff level want have =
    let m = missing_ops_iff want have in
    let o = ops_mismatch_iff (missing_ops want have) in
    elim (Bool-cases (leb 4 level)) [
      | inl e ↦ (
        λ q _.
            m.0 (
              o.0 (ap (λ b. if b then ops_mismatch (missing_ops want have) else none) (sym e) ∙ q)),
        λ h. rw e (o.1 (m.1 (h (ground arith)))),
      )
      | inr e ↦ (λ q le. absurd (ground arith), λ h. rw e refl)
    ]

-- `Match` accepts a candidate exactly where the original names an oracle, the candidate names the same
-- one, and, from the level of each on: the classes are equal; the witness keys are equal or one is empty;
-- the candidate's op ids include the original's.
pub match_at_iff :
    (s : Strictness) (orig cand : Identity)
    → (match_at s orig cand ≡ none) ↔ IsMatch (rank s) orig cand
unfolding match_at
match_at_iff s orig cand = (
  λ e.
      let (a, e1) = (guard_iff _ _ _).0 e in
      let (b, e2) = (guard_iff _ _ _).0 e1 in
      let (c, e3) = (guard_iff _ _ _).0 e2 in
      let (d, e4) = (guard_iff _ _ _).0 e3 in
      record {
        named = λ z. absurd (false-true (sym a ∙ (str_eq_iff orig.oracle "").1 z));
        same_oracle = (str_differs_iff _ _).0 b;
        same_class = λ le. (str_differs_iff _ _).0 ((from_level_iff 2 (rank s) _).0 c le);
        same_key = λ le. (keys_iff orig.key cand.key).0 ((from_level_iff 3 (rank s) _).0 d le);
        covers_ops = (last_iff (rank s) orig.op_ids cand.op_ids).0 e4;
      },
  λ m. (guard_iff _ _ _).1 (
    not_true _ (λ z. m.named ((str_eq_iff orig.oracle "").0 z)),
    (guard_iff _ _ _).1 (
      (str_differs_iff _ _).1 m.same_oracle,
      (guard_iff _ _ _).1 (
        (from_level_iff 2 (rank s) _).1 (λ le. (str_differs_iff _ _).1 (m.same_class le)),
        (guard_iff _ _ _).1 (
          (from_level_iff 3 (rank s) _).1 (λ le. (keys_iff orig.key cand.key).1 (m.same_key le)),
          (last_iff (rank s) orig.op_ids cand.op_ids).1 m.covers_ops,
        ),
      ),
    ),
  ),
)

-- A candidate that a level accepts is accepted by every laxer one.
pub match_at-relaxed :
    (s t : Strictness) (orig cand : Identity)
    → rank s ≤ rank t
    → match_at t orig cand ≡ none
    → match_at s orig cand ≡ none
match_at-relaxed s t orig cand le e =
    let m = (match_at_iff t orig cand).0 e in
    (match_at_iff s orig cand).1 (record {
      named = m.named;
      same_oracle = m.same_oracle;
      same_class = λ q. m.same_class (omega arith);
      same_key = λ q. m.same_key (omega arith);
      covers_ops = λ q. m.covers_ops (omega arith);
    })
