-- ===== src/Shrink/Narrow/Schedule.antt =====
-- What narrowing a schedule leaves (internal/shrink/narrow.go, `narrowOne` and `narrowAll`).
use pro_thesis.Prelude.{
  ℕ, zero, suc, ◌+◌, ◌≤◌, ◌<◌, ◌≡◌, refl, sym, ◌∙◌, subst, Bool, true, false, Option, none, some,
  arith, List, String,
}
use pro_thesis.Prelude.{
  if_intro, if◌then◌else◌, set, get_or, length, set_same, length-set, get_or-set_ne,
  get_or-set_self, ℕ_discrete,
}
use pro_thesis.Prelude.Int.{ℤ, pos, negsuc, ◌≤ℤ◌, leb_ℤ, ◌-ℤ◌, -ℤ_parts}
use pro_thesis.Shrink.Budget.{
  StopReason, stop_complete, stop_wall_budget, stop_world_budget, stop_canceled,
  stop_executor_error, stop_baseline_not_reproduced, stop_baseline_unjudgeable, truncated,
}
use pro_thesis.Shrink.Narrow.{
  FaultSpec, stopped, judged, with_window, pull_end, push_start, probe_window, narrow_spec,
  narrow_one, narrow_from, narrow_all,
}
use pro_thesis.Shrink.Narrow.Windows.{
  IsWithin, with_window-IsWithin, pull_end-IsEnd, push_start-IsStart,
}

above : (gran : ℕ) (z : ℤ) → leb_ℤ z (pos gran) ≡ false → pos 0 ≤ℤ z
above gran (pos n) e = omega arith
above gran (negsuc n) e = absurd (ground arith)

-- A window that is longer than the granularity does not end before it starts.
longer : (gran : ℕ) (a b : ℤ) → leb_ℤ (b -ℤ a) (pos gran) ≡ false → a ≤ℤ b
longer gran a b e = omega (arith, -ℤ_parts b a, above gran (b -ℤ a) e)

module _ {K : Type 0} (parse_fault : String → Option (FaultSpec K))
    (fault_string : FaultSpec K → String) where
  -- The text is the canonical one of the fault that it parses to, where it parses.
  abbrev pub IsCanonical : String → Type 0
  IsCanonical s = (f : FaultSpec K) → parse_fault s ≡ some f → fault_string f ≡ s

  -- The same fault text, or the text of a fault in a window inside.
  pub data IsNarrowed (old new : String) : Type 0 where
    kept : new ≡ old → IsNarrowed old new
    within :
        (f g : FaultSpec K)
        → parse_fault old ≡ some f
        → IsWithin f g
        → new ≡ fault_string g
        → IsNarrowed old new

  module _ {W : Type 0} (validates : FaultSpec K → Bool)
      (test : W → List String → W × Bool × StopReason) (gran max_probes : ℕ)
      (Q : List String → Type 0)
      (honest : (w : W) (cur : List String)
        → (test w cur).1 ≡ true
        → (test w cur).2 ≡ stop_complete
        → Q cur) where
    judged-accepted :
        (stop : StopReason) (ok : Bool)
        → (if truncated stop then stopped stop else judged ok) ≡ judged true
        → (ok ≡ true) × (stop ≡ stop_complete)
    judged-accepted stop_complete true e = (refl, refl)
    judged-accepted stop_complete false e = absurd (ground arith)
    judged-accepted stop_wall_budget ok e = absurd (ground arith)
    judged-accepted stop_world_budget ok e = absurd (ground arith)
    judged-accepted stop_canceled ok e = absurd (ground arith)
    judged-accepted stop_executor_error ok e = absurd (ground arith)
    judged-accepted stop_baseline_not_reproduced ok e = absurd (ground arith)
    judged-accepted stop_baseline_unjudgeable ok e = absurd (ground arith)

    -- What narrowing one fault has to give.
    abbrev IsOne : List String → ℕ → W × String × StopReason → Type 0
    IsOne cur idx (w, s, stop) = Q (set cur idx s) × IsNarrowed (get_or cur idx "") s

    probe_window-honest :
        (cur : List String) (idx : ℕ) (w : W) (f : FaultSpec K)
        → (probe_window validates parse_fault fault_string test gran max_probes cur idx w f).1
          ≡ judged true
        → Q (set cur idx (fault_string f))
    unfolding probe_window
    probe_window-honest cur idx w f e =
        let next = set cur idx (fault_string f) in
        let (a, b) = judged-accepted (test w next).2 (test w next).1 e in honest w next a b

    narrow_spec-IsOne :
        (w : W) (cur : List String) (idx : ℕ) (spec : FaultSpec K)
        → Q (set cur idx (fault_string spec))
        → IsCanonical (get_or cur idx "")
        → parse_fault (get_or cur idx "") ≡ some spec
        → IsOne cur idx
            (narrow_spec validates parse_fault fault_string test gran max_probes w cur idx spec)
    unfolding narrow_spec
    narrow_spec-IsOne w cur idx spec q canonical e =
        let P : FaultSpec K → Type 0 = λ f. Q (set cur idx (fault_string f)) in
        let probe = probe_window validates parse_fault fault_string test gran max_probes cur idx in
        let good = probe_window-honest cur idx in
        let (w1, end, stop1) =
          pull_end validates probe gran spec max_probes w spec.start_ms spec.end_ms in
        let (w2, start, stop2) =
          push_start validates probe gran spec max_probes w1 end spec.start_ms end in
        if_intro (IsOne cur idx) (leb_ℤ (spec.end_ms -ℤ spec.start_ms) (pos gran))
          (w, fault_string spec, stop_complete) _ (λ _. (q, kept (canonical spec e)))
          (λ wide.
            let le = longer gran spec.start_ms spec.end_ms wide in
            let a =
              pull_end-IsEnd validates probe gran spec P good max_probes w spec.start_ms spec.end_ms
                q (omega arith) le in
            let b =
              push_start-IsStart validates probe gran spec P good max_probes w1 end spec.start_ms
                end a.0 a.1 (omega arith) in
            let (in1, p1) = with_window-IsWithin validates P spec spec.start_ms end q a.0 in
            let (in2, p2) = with_window-IsWithin validates P spec start end q b.0 in
            if_intro (IsOne cur idx) (truncated stop1)
              (w1, fault_string (with_window validates spec spec.start_ms end), stop1)
              (w2, fault_string (with_window validates spec start end), stop2)
              (λ _. (p1, within spec _ e in1 refl)) (λ _. (p2, within spec _ e in2 refl)))

    parsed-IsOne :
        (w : W) (cur : List String) (idx : ℕ)
        → Q cur
        → IsCanonical (get_or cur idx "")
        → idx < length cur
        → (x : Option (FaultSpec K)) → parse_fault (get_or cur idx "") ≡ x
        → IsOne cur idx (elim x as (λ _. W × String × StopReason) [
          | none ↦ (w, get_or cur idx "", stop_complete)
          | some spec ↦
              narrow_spec validates parse_fault fault_string test gran max_probes w cur idx spec
        ])
    parsed-IsOne w cur idx q canonical lt none e =
        (subst Q (sym (set_same cur idx _ "" refl lt)) q, kept refl)
    parsed-IsOne w cur idx q canonical lt (some spec) e =
        narrow_spec-IsOne w cur idx spec
          (subst Q (sym (set_same cur idx _ "" (sym (canonical spec e)) lt)) q) canonical e

    narrow_one-IsOne :
        (w : W) (cur : List String) (idx : ℕ)
        → Q cur
        → IsCanonical (get_or cur idx "")
        → idx < length cur
        → IsOne cur idx
            (narrow_one validates parse_fault fault_string test gran max_probes w cur idx)
    unfolding narrow_one
    narrow_one-IsOne w cur idx q canonical lt =
        parsed-IsOne w cur idx q canonical lt (parse_fault (get_or cur idx "")) refl

    -- What narrowing from the index `i` on makes of a schedule.
    record IsSweep (i : ℕ) (cur : List String) (x : W × List String × StopReason) : Type 0 where
      reproduces : Q x.1
      same_length : length x.1 ≡ length cur
      untouched : (j : ℕ) → j < i → get_or x.1 j "" ≡ get_or cur j ""
      narrowed : (j : ℕ) → IsNarrowed (get_or cur j "") (get_or x.1 j "")

    IsSweep-step :
        (i : ℕ) (cur : List String) (s : String) (x : W × List String × StopReason)
        → i < length cur
        → IsNarrowed (get_or cur i "") s
        → IsSweep (i + 1) (set cur i s) x
        → IsSweep i cur x
    IsSweep-step i cur s x lt one rest = record {
      reproduces = rest.reproduces;
      same_length = rest.same_length ∙ length-set cur i s;
      untouched = λ j h.
          rest.untouched j (omega arith) ∙ get_or-set_ne cur s "" (λ e. absurd (omega arith));
      narrowed = λ j. elim (ℕ_discrete i j) [
        | no ne ↦
            subst (λ z. IsNarrowed z (get_or x.1 j "")) (get_or-set_ne cur s "" ne)
              (rest.narrowed j)
        | yes e ↦
            subst (λ k. IsNarrowed (get_or cur k "") (get_or x.1 k "")) e
              (subst (IsNarrowed (get_or cur i ""))
                (sym (rest.untouched i (omega arith) ∙ get_or-set_self cur i s "" lt)) one)
      ];
    }

    unswept :
        (i : ℕ) (w : W) (cur : List String) (stop : StopReason)
        → Q cur
        → IsSweep i cur (w, cur, stop)
    unswept i w cur stop q = record {
      reproduces = q;
      same_length = refl;
      untouched = λ j h. refl;
      narrowed = λ j. kept refl;
    }

    narrow_from-IsSweep :
        (left : ℕ) (w : W) (cur : List String) (i : ℕ)
        → Q cur
        → ((j : ℕ) → i ≤ j → IsCanonical (get_or cur j ""))
        → i + left ≤ length cur
        → IsSweep i cur
            (narrow_from validates parse_fault fault_string test gran max_probes left w cur i)
    unfolding narrow_from
    narrow_from-IsSweep zero w cur i q canonical room = unswept i w cur stop_complete q
    narrow_from-IsSweep (suc left) w cur i q canonical room =
        let lt : i < length cur = omega arith in
        let (w', s, stop) =
          narrow_one validates parse_fault fault_string test gran max_probes w cur i in
        let one = narrow_one-IsOne w cur i q (canonical i (omega arith)) lt in
        if_intro (IsSweep i cur) (truncated stop) (w', set cur i s, stop)
          (narrow_from validates parse_fault fault_string test gran max_probes left w' (set cur i s)
            (i + 1))
          (λ _. IsSweep-step i cur s _ lt one.1 (unswept (i + 1) w' (set cur i s) stop one.0))
          (λ _. IsSweep-step i cur s _ lt one.1 (
            narrow_from-IsSweep left w' (set cur i s) (i + 1) one.0
              (λ j le.
                subst IsCanonical (sym (get_or-set_ne cur s "" (λ z. absurd (omega arith))))
                  (canonical j (omega arith)))
              (omega (arith, length-set cur i s))))

    -- Where the schedule to start with reproduces, each of its texts that parses is the canonical text of the
    -- fault that it parses to, and every schedule that the test accepts reproduces: the narrowed schedule
    -- reproduces, whatever stopped the search, it is as long, and each of its faults is the old text, or
    -- the text of the old fault in a window inside the old window.
    pub narrow_all-IsNarrowed :
        (w : W) (faults : List String)
        → Q faults
        → ((j : ℕ) → IsCanonical (get_or faults j ""))
        → let x = narrow_all validates parse_fault fault_string test gran max_probes w faults in
          Q x.1
          × (length x.1 ≡ length faults)
          × ((j : ℕ) → IsNarrowed (get_or faults j "") (get_or x.1 j ""))
    unfolding narrow_all
    narrow_all-IsNarrowed w faults q canonical =
        let s =
          narrow_from-IsSweep (length faults) w faults 0 q (λ j _. canonical j) (omega arith) in
        (s.reproduces, s.same_length, s.narrowed)
