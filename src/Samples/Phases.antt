-- ===== src/Samples/Phases.antt =====
-- A life of the phase log of internal/control/phase.go, with a call out of order.
use pro_thesis.Prelude.{◌≡◌, List, [], ◌∷◌, true, get_or}
use pro_thesis.Prelude.Int.{pos}
use pro_thesis.Control.Phase.{
  boot, drive, perturb, seed, heal, Call, call_advance, call_nest, call_unnest, finish, steps,
  new_phase_log, no_window,
}
use pro_thesis.Control.Phase.Ordered.{IsOrdered, steps-IsOrdered, finish-IsClosed}

abbrev calls : List Call
calls =
    call_advance boot (pos 1) (pos 2) true
    ∷ call_advance drive (pos 3) (pos 4) true
    ∷ call_nest perturb (pos 5) true
    ∷ call_advance heal (pos 6) (pos 7) true
    ∷ call_unnest (pos 8)
    ∷ call_advance seed (pos 9) (pos 10) true
    ∷ []

steps-IsOrdered_example : IsOrdered (steps new_phase_log calls)
steps-IsOrdered_example = steps-IsOrdered calls

finish-IsClosed_example :
    ((get_or (finish (steps new_phase_log calls) (pos 11) (pos 12)).windows 1 no_window).closed
      ≡ true)
    × ((finish (steps new_phase_log calls) (pos 11) (pos 12)).reached
        ≡ (steps new_phase_log calls).reached)
finish-IsClosed_example = finish-IsClosed calls (pos 11) (pos 12) 1
