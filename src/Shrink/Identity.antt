-- ===== src/Shrink/Identity.antt =====
-- What makes two violations the same (internal/shrink/identity.go). The class is the string that it is
-- on the wire; the text of a mismatch is a value of `Mismatch`.
pub mod Levels
use pro_thesis.Prelude.{
  ℕ, ◌+◌, List, [], ◌∷◌, Bool, true, false, not, ◌&&◌, ◌||◌, Option, none, some, String, str_eq,
}
use pro_thesis.Prelude.{if◌then◌else◌, ◌==◌, leb, filter}
use pro_thesis.Prelude.Int.{ℤ, pos_part, neg_part, ltb_ℤ}

pub record Identity : Type 0 where
  pub oracle : String
  pub cls : String
  pub severity : String
  pub key : String
  pub op_ids : List ℤ

abbrev pub is_zero : Identity → Bool
is_zero i = str_eq i.oracle ""

pub data Strictness : Type 0 where
  match_unset match_oracle match_oracle_class match_witness_key match_witness_ops : Strictness

-- The value of the constant.
abbrev pub rank : Strictness → ℕ
rank match_unset = 0
rank match_oracle = 1
rank match_oracle_class = 2
rank match_witness_key = 3
rank match_witness_ops = 4

pub data Mismatch : Type 0 where
  no_oracle other_oracle other_class other_key : Mismatch
  missing_ids : List ℤ → Mismatch

abbrev pub same_id : ℤ → ℤ → Bool
same_id a b = pos_part a + neg_part b == pos_part b + neg_part a

abbrev pub has_id : List ℤ → ℤ → Bool
has_id [] a = false
has_id (b ∷ bs) a = same_id a b || has_id bs a

abbrev insert_id : ℤ → List ℤ → List ℤ
insert_id a [] = a ∷ []
insert_id a (b ∷ bs) = let rest = insert_id a bs in if ltb_ℤ b a then b ∷ rest else a ∷ b ∷ bs

-- `sort.Slice` by the order of the ids.
abbrev pub sort_ids : List ℤ → List ℤ
sort_ids [] = []
sort_ids (a ∷ ids) = insert_id a (sort_ids ids)

unfoldable pub missing_ops : List ℤ → List ℤ → List ℤ
missing_ops want have = sort_ids (filter (λ a. not (has_id have a)) want)

-- The last guard of `Match`.
abbrev ops_mismatch : List ℤ → Option Mismatch
ops_mismatch [] = none
ops_mismatch (a ∷ ids) = some (missing_ids (a ∷ ids))

-- `Match`: `none`, where the candidate reproduces the original.
unfoldable pub match_at : Strictness → Identity → Identity → Option Mismatch
unfolding missing_ops
match_at s orig cand =
    if is_zero orig
    then some no_oracle
    else if not (str_eq cand.oracle orig.oracle)
    then some other_oracle
    else if leb (rank match_oracle_class) (rank s) && not (str_eq cand.cls orig.cls)
    then some other_class
    else if leb (rank match_witness_key) (rank s)
        && (not (str_eq orig.key "")
            && (not (str_eq cand.key "") && not (str_eq cand.key orig.key)))
    then some other_key
    else if leb (rank match_witness_ops) (rank s)
    then ops_mismatch (missing_ops orig.op_ids cand.op_ids)
    else none
