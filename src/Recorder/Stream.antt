-- ===== src/Recorder/Stream.antt =====
-- A random stream of internal/recorder/prng.go: a position in a ChaCha20 keystream, with one block in
-- a buffer. A panic is `none`.
pub mod Slices
pub mod Keystream
use pro_thesis.Prelude.{
  ℕ, zero, suc, ◌+◌, ◌-◌, ◌*◌, ◌/◌, ◌%◌, ◌^◌, List, [], ◌∷◌, ◌++◌, Bool, true, false, not, Option,
  none, some,
}
use pro_thesis.Prelude.{if◌then◌else◌, ◌==◌, ltb, leb, length, take, drop, get_or, set, replicate}
use pro_thesis.Recorder.ChaCha.{chacha_block}

pub record Stream : Type 0 where
  pub key : List ℕ
  pub nonce : List ℕ
  pub block : ℕ
  pub buf : List ℕ
  pub off : ℕ
  pub valid : Bool
  pub draws : ℕ

-- Big-endian bytes of a uint64.
unfoldable pub be_bytes : ℕ → ℕ → List ℕ
be_bytes zero x = []
be_bytes (suc n) x = x / 256 ^ n % 256 ∷ be_bytes n x

unfoldable pub make_nonce : ℕ → ℕ → List ℕ
unfolding be_bytes
make_nonce kind index = kind ∷ 0 ∷ 0 ∷ 0 ∷ be_bytes 8 index

abbrev at_nonce : List ℕ → List ℕ → Stream
at_nonce key nonce = record {
  key = key;
  nonce = nonce;
  block = 0;
  buf = replicate 64 0;
  off = 0;
  valid = false;
  draws = 0;
}

unfoldable pub new_stream : List ℕ → Stream
unfolding make_nonce
new_stream key = at_nonce key (make_nonce 0 0)

-- `Stream.Index`.
unfoldable pub index : Stream → ℕ → Stream
unfolding make_nonce
index s i = at_nonce s.key (make_nonce 1 i)

abbrev pub max_stream_offset : ℕ
max_stream_offset = 2 ^ 38

-- `none`: the error of `Seek`.
unfoldable pub seek : Stream → ℕ → Option Stream
seek s n =
    if leb max_stream_offset n
    then none
    else some (record s { block = n / 64 % 2 ^ 32; off = n % 64; valid = false })

abbrev pub offset : Stream → ℕ
offset s = s.block * 64 + s.off

unfoldable pub fill : Stream → Stream
unfolding chacha_block
fill s = record s { buf = chacha_block s.key s.nonce s.block; valid = true }

-- The start of a round of the loop of `Read`: the next block, where the buffer is used up, and its
-- bytes, where they are not there yet.
unfoldable pub advance_block : Stream → Option Stream
advance_block s =
    if s.off == 64
    then if s.block == 2 ^ 32 - 1
      then none
      else some (record s { block = s.block + 1; off = 0; valid = false })
    else some s

unfoldable pub refilled : Stream → Stream
unfolding fill
refilled s = if s.valid then s else fill s

-- A round of the loop of `Read`, with `left` bytes to go: the bytes that it copies.
unfoldable pub read_round : Stream → ℕ → Option (List ℕ × Stream)
unfolding advance_block refilled
read_round s left = elim (advance_block s) [
  | none ↦ none
  | some t ↦
      let u = refilled t in
      let avail = 64 - u.off in
      let c = if ltb left avail then left else avail in
      some (take c (drop u.off u.buf), record u { off = u.off + c })
]

-- The loop of `Read`, on fuel; a round copies at least one byte.
unfoldable pub read_loop : ℕ → Stream → ℕ → Option (List ℕ × Stream)
unfolding read_round
read_loop zero s left = if left == 0 then some ([], s) else none
read_loop (suc fuel) s left = if left == 0 then some ([], s) else elim (read_round s left) [
  | none ↦ none
  | some (chunk, t) ↦ elim (read_loop fuel t (left - length chunk)) [
    | none ↦ none
    | some r ↦ some (chunk ++ r.0, r.1)
  ]
]

unfoldable pub read : Stream → ℕ → Option (List ℕ × Stream)
unfolding read_loop
read s k = read_loop k s k

unfoldable pub le_value : List ℕ → ℕ
le_value [] = 0
le_value (b ∷ bs) = b + 256 * le_value bs

unfoldable pub uint64 : Stream → Option (ℕ × Stream)
unfolding read le_value
uint64 s = elim (read s 8) [
  | none ↦ none
  | some r ↦ some (le_value r.0, record (r.1) { draws = (r.1).draws + 1 })
]
