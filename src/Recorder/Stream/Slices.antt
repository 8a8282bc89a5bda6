-- ===== src/Recorder/Stream/Slices.antt =====
-- The keystream of internal/recorder/prng.go as a function, and runs of its values as lists.
use pro_thesis.Prelude.{
  ℕ, zero, suc, ◌+◌, ◌/◌, ◌%◌, ◌≤◌, ◌<◌, ◌≡◌, refl, sym, ap, ◌∙◌, subst, List, [], ◌∷◌, ◌++◌, arith,
}
use pro_thesis.Prelude.{length, take, drop, get_or}
use pro_thesis.Recorder.ChaCha.{chacha_block}

-- Byte `i` of the keystream of a key and a nonce.
abbrev pub keystream : List ℕ → List ℕ → ℕ → ℕ
keystream key nonce i = get_or (chacha_block key nonce (i / 64)) (i % 64) 0

-- `k` values of `f`, from `a` on.
abbrev pub slice : (ℕ → ℕ) → ℕ → ℕ → List ℕ
slice f a zero = []
slice f a (suc k) = f a ∷ slice f (a + 1) k

pub slice-append : (f : ℕ → ℕ) (a k m : ℕ) → slice f a (k + m) ≡ slice f a k ++ slice f (a + k) m
slice-append f a zero m =
    let e : 0 + m ≡ m = omega arith in let q : a + 0 ≡ a = omega arith in rw (e, q) refl
slice-append f a (suc k) m =
    let e : suc k + m ≡ suc (k + m) = omega arith in
    let q : a + suc k ≡ a + 1 + k = omega arith in
    rw (e, q) (ap (λ xs. f a ∷ xs) (slice-append f (a + 1) k m))

pub slice-shift :
    (f g : ℕ → ℕ) (a d k : ℕ)
    → ((j : ℕ) → j < a + k → f j ≡ g (d + j))
    → slice f a k ≡ slice g (d + a) k
slice-shift f g a d zero h = refl
slice-shift f g a d (suc k) h =
    let e : d + (a + 1) ≡ d + a + 1 = omega arith in
    rw (h a (omega arith)) (
      ap (λ xs. g (d + a) ∷ xs)
        (subst (λ b. slice f (a + 1) k ≡ slice g b k) e
          (slice-shift f g (a + 1) d k (λ j lt. h j (omega arith)))))

get_or-tail :
    (x : ℕ) (xs : List ℕ) (a k : ℕ)
    → slice (λ i. get_or (x ∷ xs) i 0) (a + 1) k ≡ slice (λ i. get_or xs i 0) a k
get_or-tail x xs a zero = refl
get_or-tail x xs a (suc k) =
    let e : a + 1 ≡ suc a = omega arith in
    rw e (ap (λ ys. get_or xs a 0 ∷ ys) (get_or-tail x xs (suc a) k))

pub take-drop :
    (xs : List ℕ) (off c : ℕ)
    → off + c ≤ length xs
    → take c (drop off xs) ≡ slice (λ i. get_or xs i 0) off c
take-drop xs zero zero h = refl
take-drop [] zero (suc c) h = absurd (omega arith)
take-drop (x ∷ xs) zero (suc c) h =
    ap (λ ys. x ∷ ys) (take-drop xs 0 c (omega arith) ∙ sym (get_or-tail x xs 0 c))
take-drop [] (suc off) zero h = refl
take-drop [] (suc off) (suc c) h = absurd (omega arith)
take-drop (x ∷ xs) (suc off) c h =
    let e : suc off ≡ off + 1 = omega arith in
    take-drop xs off c (omega arith)
    ∙ sym (
        subst (λ b. slice (λ i. get_or (x ∷ xs) i 0) b c ≡ slice (λ i. get_or xs i 0) off c) (sym e)
          (get_or-tail x xs off c))
