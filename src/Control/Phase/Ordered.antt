-- ===== src/Control/Phase/Ordered.antt =====
-- What any sequence of calls on the phase log of internal/control/phase.go keeps.
use pro_thesis.Prelude.{
  ℕ, ◌≡◌, refl, sym, ap, ◌∙◌, subst, List, [], ◌∷◌, ◌++◌, Bool, true, false, Option, none, some,
  get_or,
}
use pro_thesis.Prelude.{◌⊎◌, inl, inr, arith, map, if◌then◌else◌}
use pro_thesis.Prelude.Int.{ℤ}
use pro_thesis.Control.Phase.{
  Phase, ordinal, PhaseLog, new_phase_log, PhaseError, no_window, close_at, behind, opened, enter,
  advance_phase, enter_nested, nest, unnest, finish, Call, call_advance, call_nest, call_unnest,
  call_finish, step, steps, is_drive, not_a_phase, out_of_order, origin_set, marked,
}
use pro_thesis.Control.Phase.Windows.{
  get_or-append_end, length-close_at, close_at-closed, close_at-phases, map-append_end,
}

-- Phases of rising ordinals, each above `low`.
abbrev pub Rising : Option ℕ → List Phase → Type 0
Rising low [] = Unit
Rising low (p ∷ ps) =
    (ord : ℕ) × (ordinal p ≡ some ord) × (behind ord low ≡ false) × Rising (some ord) ps

-- A window is closed, or it is the open one or the nested one.
abbrev pub IsTracked : PhaseLog → ℕ → Type 0
IsTracked l i =
    ((get_or l.windows i no_window).closed ≡ true) ⊎ ((l.open_idx ≡ some i) ⊎ (l.nest_idx ≡ some i))

-- The highest ordinal of rising phases.
abbrev pub last_ord : Option ℕ → List Phase → Option ℕ
last_ord low [] = low
last_ord low (p ∷ ps) = last_ord (ordinal p) ps

pub record IsOrdered (l : PhaseLog) : Type 0 where
  pub rising : Rising none l.reached
  pub highest : last_ord none l.reached ≡ l.max_ord
  pub tracked : (i : ℕ) → IsTracked l i
  pub named : map (λ w. w.phase) l.windows ≡ l.reached

Rising-append_end :
    (low : Option ℕ) (ps : List Phase) (p : Phase) (ord : ℕ)
    → Rising low ps
    → ordinal p ≡ some ord
    → behind ord (last_ord low ps) ≡ false
    → Rising low (ps ++ p ∷ [])
Rising-append_end low [] p ord r e b = (ord, e, b, tt)
Rising-append_end low (q ∷ ps) p ord (o, eq, bq, r) e b = (
  o,
  eq,
  bq,
  Rising-append_end (some o) ps p ord r e (subst (λ z. behind ord (last_ord z ps) ≡ false) eq b),
)

last_ord-append_end :
    (low : Option ℕ) (ps : List Phase) (p : Phase) → last_ord low (ps ++ p ∷ []) ≡ ordinal p
last_ord-append_end low [] p = refl
last_ord-append_end low (q ∷ ps) p = last_ord-append_end (ordinal q) ps p

-- Phase `p` of ordinal `ord` behind the ones so far.
entered-Rising :
    (l : PhaseLog) (p : Phase) (ord : ℕ)
    → IsOrdered l
    → ordinal p ≡ some ord
    → behind ord l.max_ord ≡ false
    → Rising none (l.reached ++ p ∷ [])
entered-Rising l p ord h e b =
    Rising-append_end none l.reached p ord h.rising e
      (subst (λ z. behind ord z ≡ false) (sym h.highest) b)

unnest-IsOrdered : (l : PhaseLog) (now : ℤ) → IsOrdered l → IsOrdered (unnest l now)
unfolding unnest
unnest-IsOrdered l now h = record {
  rising = h.rising;
  highest = h.highest;
  named = close_at-phases l.windows l.nest_idx now ∙ h.named;
  tracked = λ i. elim (close_at-closed l.windows l.nest_idx now i) [
    | inl e ↦ inl e
    | inr e ↦ elim (h.tracked i) [
      | inl c ↦ inl (ap (λ w. w.closed) e.0 ∙ c)
      | inr x ↦ elim x [ inl o ↦ inr (inl o) | inr n ↦ absurd (e.1 n) ]
    ]
  ];
}

finish-IsOrdered : (l : PhaseLog) (now later : ℤ) → IsOrdered l → IsOrdered (finish l now later)
unfolding finish
finish-IsOrdered l now later h =
    let l1 = unnest l now in
    let h1 = unnest-IsOrdered l now h in
    record {
      rising = h1.rising;
      highest = h1.highest;
      named = close_at-phases l1.windows l1.open_idx later ∙ h1.named;
      tracked = λ i. elim (close_at-closed l1.windows l1.open_idx later i) [
        | inl e ↦ inl e
        | inr e ↦ elim (h1.tracked i) [
          | inl c ↦ inl (ap (λ w. w.closed) e.0 ∙ c)
          | inr x ↦ elim x [ inl o ↦ absurd (e.1 o) | inr n ↦ inr (inr n) ]
        ]
      ];
    }

enter-IsOrdered :
    (l : PhaseLog) (p : Phase) (ord : ℕ) (now : ℤ)
    → IsOrdered l
    → ordinal p ≡ some ord
    → behind ord l.max_ord ≡ false
    → l.nest_idx ≡ none
    → IsOrdered (enter l p ord now)
unfolding enter
enter-IsOrdered l p ord now h e b free =
    let ws = close_at l.windows l.open_idx now in
    record {
      rising = entered-Rising l p ord h e b;
      highest = last_ord-append_end none l.reached p ∙ e;
      named =
          map-append_end ws (opened p now false)
          ∙ ap (λ ps. ps ++ p ∷ []) (close_at-phases l.windows l.open_idx now ∙ h.named);
      tracked = λ i. elim (get_or-append_end ws (opened p now false) i) [
        | inr at_end ↦ inr (inl (ap some (sym (at_end ∙ length-close_at l.windows l.open_idx now))))
        | inl same ↦ elim (close_at-closed l.windows l.open_idx now i) [
          | inl c ↦ inl (ap (λ w. w.closed) same ∙ c)
          | inr k ↦ elim (h.tracked i) [
            | inl c ↦ inl (ap (λ w. w.closed) (same ∙ k.0) ∙ c)
            | inr x ↦ elim x [ inl o ↦ absurd (k.1 o) | inr n ↦ inr (inr n) ]
          ]
        ]
      ];
    }

enter_nested-IsOrdered :
    (l : PhaseLog) (p : Phase) (ord : ℕ) (now : ℤ)
    → IsOrdered l
    → ordinal p ≡ some ord
    → behind ord l.max_ord ≡ false
    → l.nest_idx ≡ none
    → IsOrdered (enter_nested l p ord now)
unfolding enter_nested
enter_nested-IsOrdered l p ord now h e b free = record {
  rising = entered-Rising l p ord h e b;
  highest = last_ord-append_end none l.reached p ∙ e;
  named = map-append_end l.windows (opened p now true) ∙ ap (λ ps. ps ++ p ∷ []) h.named;
  tracked = λ i. elim (get_or-append_end l.windows (opened p now true) i) [
    | inr at_end ↦ inr (inr (ap some (sym at_end)))
    | inl same ↦ elim (h.tracked i) [
      | inl c ↦ inl (ap (λ w. w.closed) same ∙ c)
      | inr x ↦ elim x [
        | inl o ↦ inr (inl o)
        | inr n ↦ let q : none ≡ some i = sym free ∙ n in absurd (ground arith)
      ]
    ]
  ];
}

abbrev Answer : Type 0
Answer = PhaseLog × Option PhaseError

-- Both branches of a test keep the log in order.
if-IsOrdered :
    (b : Bool) (x y : Answer)
    → (b ≡ true → IsOrdered x.0)
    → (b ≡ false → IsOrdered y.0)
    → IsOrdered (if b then x else y).0
if-IsOrdered true x y hx hy = hx refl
if-IsOrdered false x y hx hy = hy refl

option-IsOrdered :
    {A : Type 0} (o : Option A) (x : Answer) (f : A → Answer)
    → (o ≡ none → IsOrdered x.0)
    → ((a : A) → o ≡ some a → IsOrdered (f a).0)
    → IsOrdered (elim o as (λ _. Answer) [ none ↦ x | some a ↦ f a ]).0
option-IsOrdered none x f hx hf = hx refl
option-IsOrdered (some a) x f hx hf = hf a refl

advance_phase-IsOrdered :
    (l : PhaseLog) (p : Phase) (now origin : ℤ) (sink_ok : Bool)
    → IsOrdered l
    → IsOrdered (advance_phase l p now origin sink_ok).0
unfolding advance_phase
advance_phase-IsOrdered l p now origin sink_ok h =
    option-IsOrdered (ordinal p) (l, some not_a_phase) _ (λ _. h)
      (λ ord e.
        option-IsOrdered l.nest_idx _ (λ j. (l, some out_of_order))
          (λ free.
            if-IsOrdered (behind ord l.max_ord) (l, some out_of_order) _ (λ _. h)
              (λ b.
                if-IsOrdered (is_drive p) _ (enter l p ord now, marked sink_ok)
                  (λ _.
                    option-IsOrdered l.origin
                      (enter (record l { origin = some origin }) p ord origin, marked sink_ok)
                      (λ o. (l, some origin_set))
                      (λ _.
                        enter-IsOrdered (record l { origin = some origin }) p ord origin
                          (record {
                            rising = h.rising;
                            highest = h.highest;
                            tracked = h.tracked;
                            named = h.named;
                          })
                          e b free)
                      (λ o _. h))
                  (λ _. enter-IsOrdered l p ord now h e b free)))
          (λ j _. h))

nest-IsOrdered :
    (l : PhaseLog) (p : Phase) (now : ℤ) (sink_ok : Bool)
    → IsOrdered l
    → IsOrdered (nest l p now sink_ok).0
unfolding nest
nest-IsOrdered l p now sink_ok h =
    option-IsOrdered (ordinal p) (l, some not_a_phase) _ (λ _. h)
      (λ ord e.
        option-IsOrdered l.open_idx (l, some out_of_order) _ (λ _. h)
          (λ i _.
            option-IsOrdered l.nest_idx _ (λ j. (l, some out_of_order))
              (λ free.
                if-IsOrdered (behind ord l.max_ord) (l, some out_of_order)
                  (enter_nested l p ord now, marked sink_ok) (λ _. h)
                  (λ b. enter_nested-IsOrdered l p ord now h e b free))
              (λ j _. h)))

step-IsOrdered : (l : PhaseLog) (c : Call) → IsOrdered l → IsOrdered (step l c)
unfolding step
step-IsOrdered l (call_advance p now origin sink_ok) h =
    advance_phase-IsOrdered l p now origin sink_ok h
step-IsOrdered l (call_nest p now sink_ok) h = nest-IsOrdered l p now sink_ok h
step-IsOrdered l (call_unnest now) h = unnest-IsOrdered l now h
step-IsOrdered l (call_finish now later) h = finish-IsOrdered l now later h

steps-keep : (l : PhaseLog) (calls : List Call) → IsOrdered l → IsOrdered (steps l calls)
unfolding steps
steps-keep l [] h = h
steps-keep l (c ∷ calls) h = steps-keep (step l c) calls (step-IsOrdered l c h)

-- After any calls on a new log, the phases reached are those of its windows, in lifecycle order with
-- none twice, the highest ordinal is the last one's, and a window is open only if it is the open or
-- the nested one.
pub steps-IsOrdered : (calls : List Call) → IsOrdered (steps new_phase_log calls)
steps-IsOrdered calls =
    steps-keep new_phase_log calls
      (record { rising = tt; highest = refl; tracked = λ i. inl refl; named = refl })

-- After any calls on a new log, `Finish` leaves every window closed, and the same phases reached.
pub finish-IsClosed :
    (calls : List Call) (now later : ℤ) (i : ℕ)
    → ((get_or (finish (steps new_phase_log calls) now later).windows i no_window).closed ≡ true)
      × ((finish (steps new_phase_log calls) now later).reached
          ≡ (steps new_phase_log calls).reached)
unfolding finish unnest
finish-IsClosed calls now later i =
    let h = finish-IsOrdered (steps new_phase_log calls) now later (steps-IsOrdered calls) in
    (
      elim (h.tracked i) [
        | inl c ↦ c
        | inr x ↦ elim x [ inl o ↦ absurd (ground arith) | inr n ↦ absurd (ground arith) ]
      ],
      refl,
    )
