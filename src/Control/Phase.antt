-- ===== src/Control/Phase.antt =====
-- The lifecycle phase log (internal/control/phase.go, and `Phase` of pkg/schema/phase.go). Indices and
-- ordinals that the source keeps at -1 for none are options; the readings of the clock are given, and
-- so is what the marker sink answers.
pub mod Windows
pub mod Ordered
use pro_thesis.Prelude.{
  ℕ, ◌≡◌, List, [], ◌∷◌, ◌++◌, Bool, true, false, Option, none, some, length, leb, set, get_or,
}
use pro_thesis.Prelude.{if◌then◌else◌, replicate}
use pro_thesis.Prelude.Int.{ℤ, pos}

pub data Phase : Type 0 where
  boot seed drive perturb heal quiesce assert teardown : Phase
  other_phase : ℕ → Phase

-- `none`: not a defined phase.
unfoldable pub ordinal : Phase → Option ℕ
ordinal boot = some 0
ordinal seed = some 1
ordinal drive = some 2
ordinal perturb = some 3
ordinal heal = some 4
ordinal quiesce = some 5
ordinal assert = some 6
ordinal teardown = some 7
ordinal (other_phase n) = none

abbrev pub is_drive : Phase → Bool
is_drive drive = true
is_drive _ = false

pub record PhaseWindow : Type 0 where
  pub phase : Phase
  pub start_r : ℤ
  pub end_r : ℤ
  pub closed : Bool
  pub nested : Bool

-- `origin` is the timeline's DRIVE origin.
pub record PhaseLog : Type 0 where
  pub windows : List PhaseWindow
  pub open_idx : Option ℕ
  pub nest_idx : Option ℕ
  pub max_ord : Option ℕ
  pub reached : List Phase
  pub origin : Option ℤ

abbrev pub new_phase_log : PhaseLog
new_phase_log = record {
  windows = [];
  open_idx = none;
  nest_idx = none;
  max_ord = none;
  reached = [];
  origin = none;
}

pub data PhaseError : Type 0 where
  not_a_phase out_of_order origin_set sink_failed : PhaseError

-- The error of `mark`.
abbrev pub marked : Bool → Option PhaseError
marked true = none
marked false = some sink_failed

abbrev pub no_window : PhaseWindow
no_window = record { phase = boot; start_r = pos 0; end_r = pos 0; closed = true; nested = false }

-- `l.windows[i].endR = now; l.windows[i].closed = true`
unfoldable pub close_at : List PhaseWindow → Option ℕ → ℤ → List PhaseWindow
close_at windows none now = windows
close_at windows (some i) now =
    set windows i (record (get_or windows i no_window) { end_r = now; closed = true })

-- `ord <= l.maxOrd`
unfoldable pub behind : ℕ → Option ℕ → Bool
behind ord none = false
behind ord (some m) = leb ord m

abbrev pub opened : Phase → ℤ → Bool → PhaseWindow
opened p now nested = record {
  phase = p;
  start_r = now;
  end_r = pos 0;
  closed = false;
  nested = nested;
}

-- The part of `Advance` behind its guards.
unfoldable pub enter : PhaseLog → Phase → ℕ → ℤ → PhaseLog
unfolding close_at
enter l p ord now = record l {
  windows = close_at l.windows l.open_idx now ++ opened p now false ∷ [];
  open_idx = some (length l.windows);
  max_ord = some ord;
  reached = l.reached ++ p ∷ [];
}

-- `Advance`, at a reading, the reading that stamps the origin, and whether the marker is written.
unfoldable pub advance_phase : PhaseLog → Phase → ℤ → ℤ → Bool → PhaseLog × Option PhaseError
unfolding ordinal behind enter
advance_phase l p now origin sink_ok = elim (ordinal p) [
  | none ↦ (l, some not_a_phase)
  | some ord ↦ elim l.nest_idx [
    | some j ↦ (l, some out_of_order)
    | none ↦
        if behind ord l.max_ord
        then (l, some out_of_order)
        else if is_drive p
        then elim l.origin [
          | some o ↦ (l, some origin_set)
          | none ↦ (enter (record l { origin = some origin }) p ord origin, marked sink_ok)
        ]
        else (enter l p ord now, marked sink_ok)
  ]
]

unfoldable pub enter_nested : PhaseLog → Phase → ℕ → ℤ → PhaseLog
enter_nested l p ord now = record l {
  windows = l.windows ++ opened p now true ∷ [];
  nest_idx = some (length l.windows);
  max_ord = some ord;
  reached = l.reached ++ p ∷ [];
}

-- `Nest`.
unfoldable pub nest : PhaseLog → Phase → ℤ → Bool → PhaseLog × Option PhaseError
unfolding ordinal behind enter_nested
nest l p now sink_ok = elim (ordinal p) [
  | none ↦ (l, some not_a_phase)
  | some ord ↦ elim l.open_idx [
    | none ↦ (l, some out_of_order)
    | some i ↦ elim l.nest_idx [
      | some j ↦ (l, some out_of_order)
      | none ↦
          if behind ord l.max_ord
          then (l, some out_of_order)
          else (enter_nested l p ord now, marked sink_ok)
    ]
  ]
]

-- `Unnest`.
unfoldable pub unnest : PhaseLog → ℤ → PhaseLog
unfolding close_at
unnest l now = record l { windows = close_at l.windows l.nest_idx now; nest_idx = none }

-- `Finish`.
unfoldable pub finish : PhaseLog → ℤ → ℤ → PhaseLog
unfolding unnest close_at
finish l now later =
    let l1 = unnest l now in
    record l1 { windows = close_at l1.windows l1.open_idx later; open_idx = none }

-- The calls on a log, each with what its environment answers.
pub data Call : Type 0 where
  call_advance : Phase → ℤ → ℤ → Bool → Call
  call_nest : Phase → ℤ → Bool → Call
  call_unnest : ℤ → Call
  call_finish : ℤ → ℤ → Call

unfoldable pub step : PhaseLog → Call → PhaseLog
unfolding advance_phase nest unnest finish
step l (call_advance p now origin sink_ok) = (advance_phase l p now origin sink_ok).0
step l (call_nest p now sink_ok) = (nest l p now sink_ok).0
step l (call_unnest now) = unnest l now
step l (call_finish now later) = finish l now later

unfoldable pub steps : PhaseLog → List Call → PhaseLog
unfolding step
steps l [] = l
steps l (c ∷ calls) = steps (step l c) calls
