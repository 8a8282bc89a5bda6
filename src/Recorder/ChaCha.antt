-- ===== src/Recorder/ChaCha.antt =====
-- The ChaCha20 block function of internal/recorder/prng.go. A word is a number below 2 ^ 32, a byte
-- one below 256, an array a list.
use Prim.Native.Nat.{bit_xor}
use pro_thesis.Prelude.{
  ℕ, zero, suc, ◌+◌, ◌*◌, ◌/◌, ◌%◌, ◌^◌, ◌≡◌, refl, List, [], ◌∷◌, ◌++◌, ◌∙◌, arith, length, get_or,
  set, length-set, All, ◌<◌,
}

add32 : ℕ → ℕ → ℕ
add32 a b = (a + b) % 2 ^ 32

-- `bits.RotateLeft32` by `k` of a word, with `k` from 1 to 31.
rotl32 : ℕ → ℕ → ℕ
rotl32 x k = x * 2 ^ k % 2 ^ 32 + x / (2 ^ 32 / 2 ^ k)

abbrev word : List ℕ → ℕ → ℕ
word s i = get_or s i 0

-- One line of two of `qr`: `x[i] += x[j]; x[k] ^= x[i]; x[k] = rotl(x[k], r)`.
unfoldable pub mix : List ℕ → ℕ → ℕ → ℕ → ℕ → List ℕ
unfolding add32 rotl32
mix x i j k r =
    let x1 = set x i (add32 (word x i) (word x j)) in
    set x1 k (rotl32 (bit_xor (word x1 k) (word x1 i)) r)

unfoldable pub qr : List ℕ → ℕ → ℕ → ℕ → ℕ → List ℕ
unfolding mix
qr x a b c d = mix (mix (mix (mix x a b d 16) c d b 12) a b d 8) c d b 7

unfoldable pub double_round : List ℕ → List ℕ
unfolding qr
double_round x =
    let columns = qr (qr (qr (qr x 0 4 8 12) 1 5 9 13) 2 6 10 14) 3 7 11 15 in
    qr (qr (qr (qr columns 0 5 10 15) 1 6 11 12) 2 7 8 13) 3 4 9 14

unfoldable pub rounds : ℕ → List ℕ → List ℕ
unfolding double_round
rounds zero x = x
rounds (suc n) x = rounds n (double_round x)

-- Little-endian words.
unfoldable pub le_word : List ℕ → ℕ → ℕ
le_word b i =
    get_or b (4 * i) 0
    + 256 * get_or b (4 * i + 1) 0
    + 65536 * get_or b (4 * i + 2) 0
    + 16777216 * get_or b (4 * i + 3) 0

abbrev pub le_bytes : ℕ → List ℕ
le_bytes w = w % 256 ∷ w / 256 % 256 ∷ w / 65536 % 256 ∷ w / 16777216 % 256 ∷ []

unfoldable pub chacha_start : List ℕ → List ℕ → ℕ → List ℕ
unfolding le_word
chacha_start key nonce counter =
    0x61707865
    ∷ 0x3320646e
    ∷ 0x79622d32
    ∷ 0x6b206574
    ∷ le_word key 0
    ∷ le_word key 1
    ∷ le_word key 2
    ∷ le_word key 3
    ∷ le_word key 4
    ∷ le_word key 5
    ∷ le_word key 6
    ∷ le_word key 7
    ∷ counter
    ∷ le_word nonce 0
    ∷ le_word nonce 1
    ∷ le_word nonce 2
    ∷ []

unfoldable pub add_words : List ℕ → List ℕ → List ℕ
unfolding add32
add_words [] s = []
add_words (x ∷ xs) [] = []
add_words (x ∷ xs) (s ∷ ss) = le_bytes (add32 x s) ++ add_words xs ss

unfoldable pub chacha_block : List ℕ → List ℕ → ℕ → List ℕ
unfolding rounds chacha_start add_words
chacha_block key nonce counter = let s = chacha_start key nonce counter in add_words (rounds 10 s) s

length-mix : (x : List ℕ) (i j k r : ℕ) → length (mix x i j k r) ≡ length x
unfolding mix
length-mix x i j k r = length-set (set x i _) k _ ∙ length-set x i _

length-qr : (x : List ℕ) (a b c d : ℕ) → length (qr x a b c d) ≡ length x
unfolding qr
length-qr x a b c d =
    length-mix _ c d b 7 ∙ length-mix _ a b d 8 ∙ length-mix _ c d b 12 ∙ length-mix x a b d 16

length-double_round : (x : List ℕ) → length (double_round x) ≡ length x
unfolding double_round
length-double_round x =
    length-qr _ 3 4 9 14
    ∙ length-qr _ 2 7 8 13
    ∙ length-qr _ 1 6 11 12
    ∙ length-qr _ 0 5 10 15
    ∙ length-qr _ 3 7 11 15
    ∙ length-qr _ 2 6 10 14
    ∙ length-qr _ 1 5 9 13
    ∙ length-qr x 0 4 8 12

length-rounds : (n : ℕ) (x : List ℕ) → length (rounds n x) ≡ length x
unfolding rounds
length-rounds zero x = refl
length-rounds (suc n) x = length-rounds n (double_round x) ∙ length-double_round x

length-add_words : (x s : List ℕ) → length x ≡ length s → length (add_words x s) ≡ 4 * length s
unfolding add_words
length-add_words [] [] h = refl
length-add_words [] (y ∷ s) h = absurd (omega arith)
length-add_words (x ∷ xs) [] h = absurd (omega arith)
length-add_words (x ∷ xs) (y ∷ s) h = omega (arith, length-add_words xs s (omega arith))

-- A block has 64 bytes.
pub length-chacha_block :
    (key nonce : List ℕ) (counter : ℕ) → length (chacha_block key nonce counter) ≡ 64
unfolding chacha_block chacha_start
length-chacha_block key nonce counter =
    let s = chacha_start key nonce counter in length-add_words (rounds 10 s) s (length-rounds 10 s)

All-append : (P : ℕ → Type 0) (xs ys : List ℕ) → All P xs → All P ys → All P (xs ++ ys)
All-append P [] ys h q = q
All-append P (x ∷ xs) ys h q = (h.0, All-append P xs ys h.1 q)

bytes-add_words : (x s : List ℕ) → All (λ b. b < 256) (add_words x s)
unfolding add_words
bytes-add_words [] s = tt
bytes-add_words (x ∷ xs) [] = tt
bytes-add_words (x ∷ xs) (y ∷ s) =
    All-append (λ b. b < 256) (le_bytes (add32 x y)) (add_words xs s)
      (omega arith, (omega arith, (omega arith, (omega arith, tt)))) (bytes-add_words xs s)

-- A block is a list of bytes.
pub bytes-chacha_block :
    (key nonce : List ℕ) (counter : ℕ) → All (λ b. b < 256) (chacha_block key nonce counter)
unfolding chacha_block
bytes-chacha_block key nonce counter =
    let s = chacha_start key nonce counter in bytes-add_words (rounds 10 s) s
