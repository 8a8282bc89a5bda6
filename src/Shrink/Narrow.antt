-- ===== src/Shrink/Narrow.antt =====
-- Narrowing of fault windows (internal/shrink/narrow.go). A fault is its window and the rest of it; the
-- text of a fault, its validation and the execution of a candidate are parameters. The granularity and the
-- number of probes are those of a policy with its defaults, which are positive.
pub mod Windows
pub mod Schedule
use pro_thesis.Prelude.{
  ℕ, zero, suc, ◌+◌, Bool, true, false, not, ◌&&◌, Option, none, some, List, [], ◌∷◌, String,
}
use pro_thesis.Prelude.{if◌then◌else◌, set, get_or, length}
use pro_thesis.Prelude.Int.{ℤ, pos, ltb_ℤ, leb_ℤ, ◌+ℤ◌, ◌-ℤ◌, half}
use pro_thesis.Shrink.Budget.{StopReason, stop_complete, truncated}

-- The fields of `schema.FaultSpec` that narrowing reads; `what` is the rest.
pub record FaultSpec (K : Type 0) : Type 0 where
  pub what : K
  pub start_ms : ℤ
  pub end_ms : ℤ

-- What a probe says: a reason to stop, or whether the candidate was accepted.
pub data Probe : Type 0 where
  stopped : StopReason → Probe
  judged : Bool → Probe

module _ {K : Type 0} (validates : FaultSpec K → Bool) where
  -- `none`: an error.
  unfoldable pub narrowed_to : FaultSpec K → ℤ → ℤ → Option (FaultSpec K)
  narrowed_to f start end =
      let out = record f { start_ms = start; end_ms = end } in
      if ltb_ℤ start f.start_ms
      then none
      else if ltb_ℤ f.end_ms end
      then none
      else if ltb_ℤ end start
      then none
      else if validates out
      then some out
      else none

  unfoldable pub with_window : FaultSpec K → ℤ → ℤ → FaultSpec K
  unfolding narrowed_to
  with_window spec start end = elim (narrowed_to spec start end) [ none ↦ spec | some f ↦ f ]

  module _ {W : Type 0} (probe : W → FaultSpec K → W × Probe) (gran : ℕ) (spec : FaultSpec K) where
    -- Phase A, with `probes` left: the state, the end that was reached, and why it stopped.
    unfoldable pub pull_end : ℕ → W → ℤ → ℤ → W × ℤ × StopReason
    unfolding narrowed_to
    pull_end zero w lo hi = (w, hi, stop_complete)
    pull_end (suc probes) w lo hi =
        let mid = lo +ℤ half (hi -ℤ lo) in
        if ltb_ℤ (pos gran) (hi -ℤ lo)
        then elim (narrowed_to spec spec.start_ms mid) [
          | none ↦ (w, hi, stop_complete)
          | some cand ↦
              let (w', p) = probe w cand in
              elim p [
                | stopped s ↦ (w', hi, s)
                | judged ok ↦
                    if ok then pull_end probes w' lo mid else pull_end probes w' (mid +ℤ pos 1) hi
              ]
        ]
        else (w, hi, stop_complete)

    -- Phase B: the start that was reached.
    unfoldable pub push_start : ℕ → W → ℤ → ℤ → ℤ → W × ℤ × StopReason
    unfolding narrowed_to
    push_start zero w end lo hi = (w, lo, stop_complete)
    push_start (suc probes) w end lo hi =
        let mid = lo +ℤ half (hi -ℤ lo +ℤ pos 1) in
        if ltb_ℤ (pos gran) (hi -ℤ lo)
        then elim (narrowed_to spec mid end) [
          | none ↦ (w, lo, stop_complete)
          | some cand ↦
              let (w', p) = probe w cand in
              elim p [
                | stopped s ↦ (w', lo, s)
                | judged ok ↦
                    if ok
                    then push_start probes w' end mid hi
                    else push_start probes w' end lo (mid -ℤ pos 1)
              ]
        ]
        else (w, lo, stop_complete)

  module _ {W : Type 0} (parse_fault : String → Option (FaultSpec K))
      (fault_string : FaultSpec K → String) (test : W → List String → W × Bool × StopReason)
      (gran max_probes : ℕ) where
    -- The closure `probe` of `narrowOne`.
    unfoldable pub probe_window : List String → ℕ → W → FaultSpec K → W × Probe
    probe_window cur idx w f =
        let (w', ok, stop) = test w (set cur idx (fault_string f)) in
        (w', if truncated stop then stopped stop else judged ok)

    -- `narrowOne` on a fault that parses.
    unfoldable pub narrow_spec : W → List String → ℕ → FaultSpec K → W × String × StopReason
    unfolding with_window pull_end push_start probe_window
    narrow_spec w cur idx spec =
        let probe = probe_window cur idx in
        let (w1, end, stop1) = pull_end probe gran spec max_probes w spec.start_ms spec.end_ms in
        let (w2, start, stop2) = push_start probe gran spec max_probes w1 end spec.start_ms end in
        if leb_ℤ (spec.end_ms -ℤ spec.start_ms) (pos gran)
        then (w, fault_string spec, stop_complete)
        else if truncated stop1
        then (w1, fault_string (with_window spec spec.start_ms end), stop1)
        else (w2, fault_string (with_window spec start end), stop2)

    unfoldable pub narrow_one : W → List String → ℕ → W × String × StopReason
    unfolding narrow_spec
    narrow_one w cur idx = elim (parse_fault (get_or cur idx "")) [
      | none ↦ (w, get_or cur idx "", stop_complete)
      | some spec ↦ narrow_spec w cur idx spec
    ]

    -- The loop of `narrowAll`: `left` faults more, from the index `i` on.
    unfoldable pub narrow_from : ℕ → W → List String → ℕ → W × List String × StopReason
    unfolding narrow_one
    narrow_from zero w cur i = (w, cur, stop_complete)
    narrow_from (suc left) w cur i =
        let (w', narrowed, stop) = narrow_one w cur i in
        let cur' = set cur i narrowed in
        let rest = narrow_from left w' cur' (i + 1) in
        if truncated stop then (w', cur', stop) else rest

    unfoldable pub narrow_all : W → List String → W × List String × StopReason
    unfolding narrow_from
    narrow_all w faults = narrow_from (length faults) w faults 0
