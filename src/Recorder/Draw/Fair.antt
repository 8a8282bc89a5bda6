-- ===== src/Recorder/Draw/Fair.antt =====
-- That a bounded draw of internal/recorder/prng.go favours no value.
use pro_thesis.Prelude.{
  ℕ, ◌+◌, ◌-◌, ◌*◌, ◌/◌, ◌%◌, ◌^◌, ◌≤◌, ◌<◌, ◌≡◌, ◌↔◌, refl, sym, ap, ◌∙◌, subst, true, false, not,
  arith,
}
use pro_thesis.Prelude.{if◌then◌else◌, ltb, ltb→lt, Bool-cases, inl, inr}
use pro_thesis.Recorder.Draw.{mul64_hi, mul64_lo, threshold, keeps}

-- Least number of which the `n`-fold is at least `a`.
abbrev pub ceil_div : ℕ → ℕ → ℕ
ceil_div a n = (a + n - 1) / n

div_rest : (a n : ℕ) → 1 ≤ n → (a / n * n ≤ a) × (a < a / n * n + n)
div_rest a n h = (grind arith, grind arith)

le_mul : (q x n : ℕ) → q ≤ x → q * n ≤ x * n
le_mul q x n h = grind arith

lt_mul : (q x n : ℕ) → q < x → q * n + n ≤ x * n
lt_mul q x n h = grind arith

ceil-le : (a n x : ℕ) → 1 ≤ n → a ≤ x * n → ceil_div a n ≤ x
ceil-le a n x h le = elim (Bool-cases (ltb x (ceil_div a n))) [
  | inl e ↦
      absurd (omega (arith, (div_rest (a + n - 1) n h).0, lt_mul x (ceil_div a n) n (ltb→lt _ _ e)))
  | inr e ↦ ground arith
]

le-ceil : (a n x : ℕ) → 1 ≤ n → ceil_div a n ≤ x → a ≤ x * n
le-ceil a n x h le = omega (arith, (div_rest (a + n - 1) n h).1, le_mul (ceil_div a n) x n le)

ceil_iff : (a n x : ℕ) → 1 ≤ n → (a ≤ x * n) ↔ (ceil_div a n ≤ x)
ceil_iff a n x h = (λ le. ceil-le a n x h le, λ le. le-ceil a n x h le)

mod_add : (a n : ℕ) → 1 ≤ n → (a + n) % n ≡ a % n
mod_add a n h = grind arith

threshold-mod : (n : ℕ) → 1 ≤ n → n ≤ 2 ^ 64 → threshold n ≡ 2 ^ 64 % n
threshold-mod n h le =
    let e : 2 ^ 64 - n + n ≡ 2 ^ 64 = omega arith in
    sym (mod_add (2 ^ 64 - n) n h) ∙ ap (λ k. k % n) e

mod_lt : (a n : ℕ) → 1 ≤ n → a % n < n
mod_lt a n h = grind arith

keeps_low :
    (lo n t : ℕ) → ltb lo n ≡ true → (if ltb lo n then not (ltb lo t) else true) ≡ true → t ≤ lo
keeps_low lo n t e q = ground arith

keeps_high : (lo n t : ℕ) → ltb lo n ≡ false → t < n → t ≤ lo
keeps_high lo n t e h = ground arith

keeps_iff : (n x : ℕ) → 1 ≤ n → (keeps n x ≡ true) ↔ (threshold n ≤ mul64_lo x n)
unfolding keeps
keeps_iff n x h = elim (Bool-cases (ltb (mul64_lo x n) n)) [
  | inl e ↦ (λ q. keeps_low _ _ _ e q, λ le. rw e (ground arith))
  | inr e ↦ (λ q. keeps_high _ _ _ e (mod_lt (2 ^ 64 - n) n h), λ le. rw e refl)
]

div_eq : (a n : ℕ) → a ≡ a / n * n + a % n
div_eq a n = grind arith

mul_split : (q x n : ℕ) → q ≤ x → x * n ≡ (x - q) * n + q * n
mul_split q x n h = grind arith

-- The draws between two multiples of the word size, less the rest `t` of a division by `n`, are `q` numbers.
inside :
    (m n q t b x : ℕ)
    → 1 ≤ n
    → m ≡ q * n + t
    → (b + t ≤ x * n)
    → (x * n < b + m)
    → (ceil_div (b + t) n ≤ x) × (x < ceil_div (b + t) n + q)
inside m n q t b x h e low high = (
  ceil-le (b + t) n x h low,
  elim (Bool-cases (ltb x (ceil_div (b + t) n + q))) [
    | inl y ↦ ltb→lt _ _ y
    | inr y ↦
        let far : ceil_div (b + t) n + q ≤ x = ground arith in
        absurd (
          omega
            (arith, e, mul_split q x n (omega arith), le-ceil (b + t) n (x - q) h (omega arith)))
  ],
)

outside :
    (m n q t b x : ℕ)
    → 1 ≤ n
    → m ≡ q * n + t
    → (ceil_div (b + t) n ≤ x)
    → (x < ceil_div (b + t) n + q)
    → (b + t ≤ x * n) × (x * n < b + m)
outside m n q t b x h e low high = (
  le-ceil (b + t) n x h low,
  elim (Bool-cases (ltb (x * n) (b + m))) [
    | inl y ↦ ltb→lt _ _ y
    | inr y ↦
        let far : b + m ≤ x * n = ground arith in
        elim (Bool-cases (ltb x q)) [
          | inl z ↦ absurd (omega (arith, e, lt_mul x q n (ltb→lt _ _ z)))
          | inr z ↦
              let below : q ≤ x = ground arith in
              let over = ceil-le (b + t) n (x - q) h (omega (arith, e, mul_split q x n below)) in
              absurd (omega arith)
        ]
  ],
)

word :
    (p v t : ℕ) → v * 2 ^ 64 + t ≤ p → p < v * 2 ^ 64 + 2 ^ 64 → (p / 2 ^ 64 ≡ v) × (t ≤ p % 2 ^ 64)
word p v t a b = (omega arith, omega arith)

unword :
    (p v t : ℕ) → p / 2 ^ 64 ≡ v → t ≤ p % 2 ^ 64 → (v * 2 ^ 64 + t ≤ p) × (p < v * 2 ^ 64 + 2 ^ 64)
unword p v t a b = (omega arith, omega arith)

-- For a bound n of at least 1 on 64 bits, the words that `Uint64n` keeps and turns into v are those of one run of
-- 2 ^ 64 / n numbers, so as many for every v.
pub draws_are_fair :
    (n x v : ℕ)
    → 1 ≤ n
    → n ≤ 2 ^ 64
    → let first = ceil_div (v * 2 ^ 64 + 2 ^ 64 % n) n in
      ((keeps n x ≡ true) × (mul64_hi x n ≡ v)) ↔ ((first ≤ x) × (x < first + 2 ^ 64 / n))
draws_are_fair n x v h le =
    let t = 2 ^ 64 % n in
    let thr = threshold-mod n h le in
    let whole : 2 ^ 64 ≡ 2 ^ 64 / n * n + t = div_eq (2 ^ 64) n in
    (
      λ (k, e).
          let (low, high) =
            unword (x * n) v t e (subst (λ z. z ≤ mul64_lo x n) thr ((keeps_iff n x h).0 k)) in
          inside (2 ^ 64) n (2 ^ 64 / n) t (v * 2 ^ 64) x h whole low high,
      λ (a, b).
          let (low, high) = outside (2 ^ 64) n (2 ^ 64 / n) t (v * 2 ^ 64) x h whole a b in
          let (e, k) = word (x * n) v t low high in
          ((keeps_iff n x h).1 (subst (λ z. z ≤ mul64_lo x n) (sym thr) k), e),
    )
