-- ===== src/Linear/History.antt =====
-- `check` of cmd/thesis-oracle-linearizable/check.go as a whole: from the lines of a history to the
-- reported status.
use pro_thesis.Prelude.{ℕ, ◌≡◌, refl, ap, ◌∙◌, List, Option, some, Bool, String}
use pro_thesis.Prelude.Int.{ℤ}
use pro_thesis.Linear.Value.{Value}
use pro_thesis.Linear.Memo.{Bits}
use pro_thesis.Linear.Budget.{Allowance}
use pro_thesis.Linear.Check.{KeyOps, Status, ok, inconclusive, violation, check}
use pro_thesis.Linear.Check.Sound.{check-IsJust, IsJust}
use pro_thesis.Linear.Load.{Line, Result, refused, loaded}
use pro_thesis.Linear.Load.Keys.{load_history}
use pro_thesis.Linear.Load.Sound.{load_history-IsForward}

-- A history that is refused is inconclusive.
unfoldable pub status_or_refusal :
    (List KeyOps → Option Status) → Result (List KeyOps) → Option Status
status_or_refusal search (refused r) = some inconclusive
status_or_refusal search (loaded keys) = search keys

module _ (micro_keys : String → List String) (canonical_value : String → Option Value)
    (sort_strings : List String → List String) (hash : Value → Bits → ℕ) (max_memo_bytes : ℕ)
    (wall_left : ℕ → ℤ) (expired : ℕ → ℕ → Bool) where
  unfoldable pub check_history : Allowance → List Line → Option Status
  unfolding status_or_refusal load_history check
  check_history b lines =
      status_or_refusal (check hash max_memo_bytes wall_left expired b)
        (load_history micro_keys canonical_value sort_strings lines)

  -- What a status that is not `inconclusive` claims: the history was loaded, and the status is just
  -- of its keys.
  abbrev pub IsEarned : Status → List Line → Type 0
  IsEarned inconclusive lines = Unit
  IsEarned ok lines =
      (keys : List KeyOps) × (load_history micro_keys canonical_value sort_strings lines
        ≡ loaded keys)
      × IsJust ok keys
  IsEarned (violation key) lines =
      (keys : List KeyOps) × (load_history micro_keys canonical_value sort_strings lines
        ≡ loaded keys)
      × IsJust (violation key) keys

  earned :
      (status : Status) (lines : List Line) (keys : List KeyOps)
      → load_history micro_keys canonical_value sort_strings lines ≡ loaded keys
      → IsJust status keys
      → IsEarned status lines
  earned ok lines keys e j = (keys, e, j)
  earned inconclusive lines keys e j = tt
  earned (violation key) lines keys e j = (keys, e, j)

  by_result :
      (b : Allowance) (lines : List Line) (x : Result (List KeyOps))
      → load_history micro_keys canonical_value sort_strings lines ≡ x
      → (status : Status) × (check_history b lines ≡ some status) × IsEarned status lines
  unfolding check_history
  by_result b lines (refused r) e = (inconclusive, ap (status_or_refusal _) e, tt)
  by_result b lines (loaded keys) e =
      let (status, h, j) =
        check-IsJust hash max_memo_bytes wall_left expired b keys
          (load_history-IsForward micro_keys canonical_value sort_strings lines e) in
      (status, ap (status_or_refusal _) e ∙ h, earned status lines keys e j)

  -- The check of any history reports a status, and it is earned: `violated` and `ok` are reported
  -- only of a history that loads, `violated` names one of its keys that no order linearizes, and
  -- `ok` says that every key of it can be linearized.
  pub check_history-IsEarned :
      (b : Allowance) (lines : List Line)
      → (status : Status) × (check_history b lines ≡ some status) × IsEarned status lines
  check_history-IsEarned b lines = by_result b lines _ refl
