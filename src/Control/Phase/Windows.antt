-- ===== src/Control/Phase/Windows.antt =====
-- Appending a window of the phase log (internal/control/phase.go) and closing one.
use pro_thesis.Prelude.{
  ℕ, zero, suc, ◌≡◌, ◌≢◌, refl, ap, List, [], ◌∷◌, ◌++◌, true, Option, none, some, length, set,
  get_or,
}
use pro_thesis.Prelude.{◌⊎◌, inl, inr, arith, map, length-set}
use pro_thesis.Prelude.Int.{ℤ}
use pro_thesis.Control.Phase.{PhaseWindow, no_window, close_at}

pub get_or-append_end :
    (ws : List PhaseWindow) (w : PhaseWindow) (i : ℕ)
    → (get_or (ws ++ w ∷ []) i no_window ≡ get_or ws i no_window) ⊎ (i ≡ length ws)
get_or-append_end [] w zero = inr refl
get_or-append_end [] w (suc i) = inl refl
get_or-append_end (x ∷ ws) w zero = inl refl
get_or-append_end (x ∷ ws) w (suc i) = elim (get_or-append_end ws w i) [
  | inl e ↦ inl e
  | inr e ↦ inr (ap suc e)
]

pub length-close_at :
    (ws : List PhaseWindow) (o : Option ℕ) (now : ℤ) → length (close_at ws o now) ≡ length ws
unfolding close_at
length-close_at ws none now = refl
length-close_at ws (some i) now = length-set ws i _

pub set-closed :
    (ws : List PhaseWindow) (j i : ℕ) (v : PhaseWindow)
    → v.closed ≡ true
    → ((get_or (set ws j v) i no_window).closed ≡ true)
      ⊎ ((get_or (set ws j v) i no_window ≡ get_or ws i no_window) × (j ≢ i))
set-closed [] j i v h = inl refl
set-closed (x ∷ ws) zero zero v h = inl h
set-closed (x ∷ ws) zero (suc i) v h = inr (refl, λ e. omega arith)
set-closed (x ∷ ws) (suc j) zero v h = inr (refl, λ e. omega arith)
set-closed (x ∷ ws) (suc j) (suc i) v h = elim (set-closed ws j i v h) [
  | inl e ↦ inl e
  | inr e ↦ inr (e.0, λ q. e.1 (omega (arith, q)))
]

-- Closing an index closes the window there, and leaves the others.
pub close_at-closed :
    (ws : List PhaseWindow) (o : Option ℕ) (now : ℤ) (i : ℕ)
    → ((get_or (close_at ws o now) i no_window).closed ≡ true)
      ⊎ ((get_or (close_at ws o now) i no_window ≡ get_or ws i no_window) × (o ≢ some i))
unfolding close_at
close_at-closed ws none now i = inr (refl, λ e. ground arith)
close_at-closed ws (some j) now i = elim (set-closed ws j i _ refl) [
  | inl e ↦ inl e
  | inr e ↦ inr (e.0, λ q. e.1 (ground arith))
]

pub set-phases :
    (ws : List PhaseWindow) (j : ℕ) (v : PhaseWindow)
    → v.phase ≡ (get_or ws j no_window).phase
    → map (λ w. w.phase) (set ws j v) ≡ map (λ w. w.phase) ws
set-phases [] j v h = refl
set-phases (x ∷ ws) zero v h = ap (λ p. p ∷ map (λ w. w.phase) ws) h
set-phases (x ∷ ws) (suc j) v h = ap (λ ps. x.phase ∷ ps) (set-phases ws j v h)

pub close_at-phases :
    (ws : List PhaseWindow) (o : Option ℕ) (now : ℤ)
    → map (λ w. w.phase) (close_at ws o now) ≡ map (λ w. w.phase) ws
unfolding close_at
close_at-phases ws none now = refl
close_at-phases ws (some j) now = set-phases ws j _ refl

pub map-append_end :
    (ws : List PhaseWindow) (w : PhaseWindow)
    → map (λ x. x.phase) (ws ++ w ∷ []) ≡ map (λ x. x.phase) ws ++ w.phase ∷ []
map-append_end [] w = refl
map-append_end (x ∷ ws) w = ap (λ ps. x.phase ∷ ps) (map-append_end ws w)
