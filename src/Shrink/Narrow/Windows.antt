-- ===== src/Shrink/Narrow/Windows.antt =====
-- The windows that the searches of internal/shrink/narrow.go end at.
use pro_thesis.Prelude.{
  ℕ, zero, suc, ◌≡◌, refl, sym, ap, subst, Bool, true, false, Option, none, some, arith,
}
use pro_thesis.Prelude.{if_intro, if◌then◌else◌}
use pro_thesis.Prelude.Int.{
  ℤ, pos, negsuc, ◌≤ℤ◌, ◌<ℤ◌, ltb_ℤ, ◌+ℤ◌, ◌-ℤ◌, half, +ℤ_parts, -ℤ_parts, half_parts,
}
use pro_thesis.Shrink.Budget.{StopReason, stop_complete}
use pro_thesis.Shrink.Narrow.{
  FaultSpec, Probe, stopped, judged, narrowed_to, with_window, pull_end, push_start,
}

positive : (gran : ℕ) (z : ℤ) → ltb_ℤ (pos gran) z ≡ true → pos 1 ≤ℤ z
positive gran (pos n) e = ground arith
positive gran (negsuc n) e = absurd (ground arith)

-- The middle of a window that is longer than nothing, rounded down, and rounded up.
mid_below :
    (lo hi : ℤ) → pos 1 ≤ℤ hi -ℤ lo → (lo ≤ℤ lo +ℤ half (hi -ℤ lo)) × (lo +ℤ half (hi -ℤ lo) <ℤ hi)
mid_below lo hi h =
    omega
      (arith, +ℤ_parts lo (half (hi -ℤ lo)), -ℤ_parts hi lo, half_parts (hi -ℤ lo) (omega arith))

mid_above :
    (lo hi : ℤ)
    → pos 1 ≤ℤ hi -ℤ lo
    → (lo <ℤ lo +ℤ half (hi -ℤ lo +ℤ pos 1)) × (lo +ℤ half (hi -ℤ lo +ℤ pos 1) ≤ℤ hi)
mid_above lo hi h =
    let d = +ℤ_parts (hi -ℤ lo) (pos 1) in
    omega (
      arith,
      +ℤ_parts lo (half (hi -ℤ lo +ℤ pos 1)),
      -ℤ_parts hi lo,
      d,
      half_parts (hi -ℤ lo +ℤ pos 1) (omega (arith, d)),
    )

-- A fault with another window.
abbrev pub windowed : {K : Type 0} → FaultSpec K → ℤ → ℤ → FaultSpec K
windowed f start end = record f { start_ms = start; end_ms = end }

-- The same fault, in a window inside.
pub record IsWithin {K : Type 0} (f g : FaultSpec K) : Type 0 where
  pub same : g.what ≡ f.what
  pub later : f.start_ms ≤ℤ g.start_ms
  pub earlier : g.end_ms ≤ℤ f.end_ms

module _ {K : Type 0} (validates : FaultSpec K → Bool) where
  -- What may come of a request for a window.
  abbrev pub IsRequest : FaultSpec K → ℤ → ℤ → Option (FaultSpec K) → Type 0
  IsRequest f start end none = Unit
  IsRequest f start end (some g) =
      (g ≡ windowed f start end) × (f.start_ms ≤ℤ start) × (end ≤ℤ f.end_ms) × (start ≤ℤ end)

  pub narrowed_to-IsRequest :
      (f : FaultSpec K) (start end : ℤ) → IsRequest f start end (narrowed_to validates f start end)
  unfolding narrowed_to
  narrowed_to-IsRequest f start end =
      let R = IsRequest f start end in
      if_intro R (ltb_ℤ start f.start_ms) none _ (λ _. tt)
        (λ a.
          if_intro R (ltb_ℤ f.end_ms end) none _ (λ _. tt)
            (λ b.
              if_intro R (ltb_ℤ end start) none _ (λ _. tt)
                (λ c.
                  if_intro R (validates (windowed f start end)) (some (windowed f start end)) none
                    (λ _. (refl, ground arith, ground arith, ground arith)) (λ _. tt))))

  -- The rendered window is the asked for or the old one, and inside the old one.
  pub with_window-IsWithin :
      (P : FaultSpec K → Type 0) (f : FaultSpec K) (start end : ℤ)
      → P f
      → P (windowed f start end)
      → IsWithin f (with_window validates f start end) × P (with_window validates f start end)
  unfolding with_window
  with_window-IsWithin P f start end p q =
      either (narrowed_to validates f start end) (narrowed_to-IsRequest f start end)
    where
      either :
          (x : Option (FaultSpec K))
          → IsRequest f start end x
          → IsWithin f (elim x as (λ _. FaultSpec K) [ none ↦ f | some g ↦ g ])
            × P (elim x as (λ _. FaultSpec K) [ none ↦ f | some g ↦ g ])
      either none h = (record { same = refl; later = omega arith; earlier = omega arith }, p)
      either (some g) (e, a, b, c) = (
        record {
          same = ap (λ z. z.what) e;
          later = subst (λ z. f.start_ms ≤ℤ z.start_ms) (sym e) a;
          earlier = subst (λ z. z.end_ms ≤ℤ f.end_ms) (sym e) b;
        },
        subst P (sym e) q,
      )

  module _ {W : Type 0} (probe : W → FaultSpec K → W × Probe) (gran : ℕ) (spec : FaultSpec K)
      (P : FaultSpec K → Type 0)
      (honest : (w : W) (f : FaultSpec K) → (probe w f).1 ≡ judged true → P f) where
    -- The end that a search from the end `hi` may give.
    abbrev pub IsEnd : ℤ → W × ℤ × StopReason → Type 0
    IsEnd hi (w, e, s) = P (windowed spec spec.start_ms e) × (spec.start_ms ≤ℤ e) × (e ≤ℤ hi)

    -- The start that a search from the start `lo` may give.
    abbrev pub IsStart : ℤ → ℤ → W × ℤ × StopReason → Type 0
    IsStart lo end (w, b, s) = P (windowed spec b end) × (lo ≤ℤ b) × (b ≤ℤ end)

    after-IsEnd :
        (cont : W → ℤ → ℤ → W × ℤ × StopReason) (w : W) (lo mid hi : ℤ)
        → P (windowed spec spec.start_ms hi)
        → spec.start_ms ≤ℤ lo
        → lo ≤ℤ mid
        → mid <ℤ hi
        → ((w' : W) (lo' hi' : ℤ)
            → P (windowed spec spec.start_ms hi')
            → spec.start_ms ≤ℤ lo'
            → lo' ≤ℤ hi'
            → hi' ≤ℤ hi
            → IsEnd hi (cont w' lo' hi'))
        → (x : Option (FaultSpec K)) → IsRequest spec spec.start_ms mid x
        → IsEnd hi (elim x as (λ _. W × ℤ × StopReason) [
          | none ↦ (w, hi, stop_complete)
          | some cand ↦
              let (w', p) = probe w cand in
              elim p [
                | stopped s ↦ (w', hi, s)
                | judged ok ↦ if ok then cont w' lo mid else cont w' (mid +ℤ pos 1) hi
              ]
        ])
    after-IsEnd cont w lo mid hi p a b c ih none h = (p, omega arith, omega arith)
    after-IsEnd cont w lo mid hi p a b c ih (some cand) (e, _, _, _) =
        judge (probe w cand).0 (probe w cand).1 (λ q. subst P e (honest w cand q))
      where
        judge :
            (w' : W) (r : Probe)
            → (r ≡ judged true → P (windowed spec spec.start_ms mid))
            → IsEnd hi (elim r as (λ _. W × ℤ × StopReason) [
              | stopped s ↦ (w', hi, s)
              | judged ok ↦ if ok then cont w' lo mid else cont w' (mid +ℤ pos 1) hi
            ])
        judge w' (stopped s) good = (p, omega arith, omega arith)
        judge w' (judged true) good = ih w' lo mid (good refl) a b (omega arith)
        judge w' (judged false) good =
            ih w' (mid +ℤ pos 1) hi p (omega (arith, +ℤ_parts mid (pos 1)))
              (omega (arith, +ℤ_parts mid (pos 1))) (omega arith)

    pub pull_end-IsEnd :
        (probes : ℕ) (w : W) (lo hi : ℤ)
        → P (windowed spec spec.start_ms hi)
        → spec.start_ms ≤ℤ lo
        → lo ≤ℤ hi
        → IsEnd hi (pull_end validates probe gran spec probes w lo hi)
    unfolding pull_end
    pull_end-IsEnd zero w lo hi p a b = (p, omega arith, omega arith)
    pull_end-IsEnd (suc probes) w lo hi p a b =
        if_intro (IsEnd hi) (ltb_ℤ (pos gran) (hi -ℤ lo)) _ (w, hi, stop_complete)
          (λ q.
            let m = mid_below lo hi (positive gran _ q) in
            after-IsEnd (pull_end validates probe gran spec probes) w lo (lo +ℤ half (hi -ℤ lo)) hi
              p a m.0 m.1
              (λ w' lo' hi' p' a' b' c'.
                let r = pull_end-IsEnd probes w' lo' hi' p' a' b' in (r.0, r.1, omega (arith, r.2)))
              _ (narrowed_to-IsRequest spec spec.start_ms (lo +ℤ half (hi -ℤ lo))))
          (λ _. (p, omega arith, omega arith))

    after-IsStart :
        (cont : W → ℤ → ℤ → W × ℤ × StopReason) (w : W) (end lo mid hi : ℤ)
        → P (windowed spec lo end)
        → hi ≤ℤ end
        → lo <ℤ mid
        → mid ≤ℤ hi
        → ((w' : W) (lo' hi' : ℤ)
            → P (windowed spec lo' end)
            → lo ≤ℤ lo'
            → lo' ≤ℤ hi'
            → hi' ≤ℤ end
            → IsStart lo end (cont w' lo' hi'))
        → (x : Option (FaultSpec K)) → IsRequest spec mid end x
        → IsStart lo end (elim x as (λ _. W × ℤ × StopReason) [
          | none ↦ (w, lo, stop_complete)
          | some cand ↦
              let (w', p) = probe w cand in
              elim p [
                | stopped s ↦ (w', lo, s)
                | judged ok ↦ if ok then cont w' mid hi else cont w' lo (mid -ℤ pos 1)
              ]
        ])
    after-IsStart cont w end lo mid hi p a b c ih none h = (p, omega arith, omega arith)
    after-IsStart cont w end lo mid hi p a b c ih (some cand) (e, _, _, _) =
        judge (probe w cand).0 (probe w cand).1 (λ q. subst P e (honest w cand q))
      where
        judge :
            (w' : W) (r : Probe)
            → (r ≡ judged true → P (windowed spec mid end))
            → IsStart lo end (elim r as (λ _. W × ℤ × StopReason) [
              | stopped s ↦ (w', lo, s)
              | judged ok ↦ if ok then cont w' mid hi else cont w' lo (mid -ℤ pos 1)
            ])
        judge w' (stopped s) good = (p, omega arith, omega arith)
        judge w' (judged true) good = ih w' mid hi (good refl) (omega arith) c a
        judge w' (judged false) good =
            ih w' lo (mid -ℤ pos 1) p (omega arith) (omega (arith, -ℤ_parts mid (pos 1)))
              (omega (arith, -ℤ_parts mid (pos 1)))

    pub push_start-IsStart :
        (probes : ℕ) (w : W) (end lo hi : ℤ)
        → P (windowed spec lo end)
        → lo ≤ℤ hi
        → hi ≤ℤ end
        → IsStart lo end (push_start validates probe gran spec probes w end lo hi)
    unfolding push_start
    push_start-IsStart zero w end lo hi p a b = (p, omega arith, omega arith)
    push_start-IsStart (suc probes) w end lo hi p a b =
        if_intro (IsStart lo end) (ltb_ℤ (pos gran) (hi -ℤ lo)) _ (w, lo, stop_complete)
          (λ q.
            let m = mid_above lo hi (positive gran _ q) in
            after-IsStart (λ v l h. push_start validates probe gran spec probes v end l h) w end lo
              (lo +ℤ half (hi -ℤ lo +ℤ pos 1)) hi p b m.0 m.1
              (λ w' lo' hi' p' a' b' c'.
                let r = push_start-IsStart probes w' end lo' hi' p' b' c' in
                (r.0, omega (arith, r.1), r.2))
              _ (narrowed_to-IsRequest spec (lo +ℤ half (hi -ℤ lo +ℤ pos 1)) end))
          (λ _. (p, omega arith, omega arith))
