-- ===== src/Samples/Streams.antt =====
-- Reads and draws of random streams.
use pro_thesis.Prelude.{
  ℕ, ◌+◌, ◌*◌, ◌/◌, ◌%◌, ◌^◌, ◌≤◌, ◌<◌, ◌≡◌, ◌↔◌, refl, List, [], ◌∷◌, true, false, some, replicate,
  arith,
}
use pro_thesis.Recorder.ChaCha.{chacha_block}
use pro_thesis.Recorder.Stream.{Stream, read, seek}
use pro_thesis.Recorder.Stream.Keystream.{IsReady, IsRead, read-IsRead, read-seek}
use pro_thesis.Recorder.Stream.Slices.{keystream, slice}
use pro_thesis.Recorder.Draw.{mul64_hi, keeps, total_weight, pick_weight, shuffle}
use pro_thesis.Recorder.Draw.Weights.{IsPicked, pick_weight-IsPicked}
use pro_thesis.Recorder.Draw.Shuffled.{swapped, IsShuffled, shuffle-IsShuffled}
use pro_thesis.Recorder.Draw.Fair.{ceil_div, draws_are_fair}

abbrev zero_key : List ℕ
zero_key = replicate 32 0

-- The block of the zero key, the zero nonce and the counter 0 in RFC 8439, A.1.
zero_block :
    chacha_block zero_key (replicate 12 0) 0
    ≡ 118 ∷ 184 ∷ 224 ∷ 173 ∷ 160 ∷ 241 ∷ 61 ∷ 144 ∷ 64 ∷ 93 ∷ 106 ∷ 229 ∷ 83 ∷ 134 ∷ 189 ∷ 40 ∷ 189
      ∷ 210 ∷ 25 ∷ 184 ∷ 160 ∷ 141 ∷ 237 ∷ 26 ∷ 168 ∷ 54 ∷ 239 ∷ 204 ∷ 139 ∷ 119 ∷ 13 ∷ 199 ∷ 218
      ∷ 65 ∷ 89 ∷ 124 ∷ 81 ∷ 87 ∷ 72 ∷ 141 ∷ 119 ∷ 36 ∷ 224 ∷ 63 ∷ 184 ∷ 216 ∷ 74 ∷ 55 ∷ 106 ∷ 67
      ∷ 184 ∷ 244 ∷ 21 ∷ 24 ∷ 161 ∷ 28 ∷ 195 ∷ 135 ∷ 182 ∷ 105 ∷ 178 ∷ 238 ∷ 101 ∷ 134 ∷ []
unfolding chacha_block
zero_block = refl

abbrev zero_stream : Stream
zero_stream = record {
  key = zero_key;
  nonce = replicate 12 0;
  block = 0;
  buf = replicate 64 0;
  off = 0;
  valid = false;
  draws = 0;
}

zero_stream-IsReady : IsReady zero_stream
zero_stream-IsReady = record {
  within = omega arith;
  addressable = omega arith;
  buffered = λ e. absurd (ground arith);
}

read-IsRead_example :
    (r : List ℕ × Stream) × (read zero_stream 100 ≡ some r) × IsRead zero_stream 100 r
read-IsRead_example = read-IsRead zero_stream 100 zero_stream-IsReady (omega arith)

read-seek_example :
    (t : Stream) × (r : List ℕ × Stream) × (seek zero_stream 1000 ≡ some t)
    × (read t 100 ≡ some r)
    × (r.0 ≡ slice (keystream zero_key (replicate 12 0)) 1000 100)
read-seek_example = read-seek zero_stream 1000 100 (omega arith) (omega arith)

draws_are_fair_example :
    ((keeps 3 7000000000000000000 ≡ true) × (mul64_hi 7000000000000000000 3 ≡ 1)) ↔ (
      (ceil_div (1 * 2 ^ 64 + 2 ^ 64 % 3) 3 ≤ 7000000000000000000)
      × (7000000000000000000 < ceil_div (1 * 2 ^ 64 + 2 ^ 64 % 3) 3 + 2 ^ 64 / 3))
draws_are_fair_example = draws_are_fair 3 7000000000000000000 1 (omega arith) (omega arith)

total_above : 850 < total_weight (400 ∷ 400 ∷ 200 ∷ []) 0
unfolding total_weight
total_above = omega arith

pick_weight-IsPicked_example :
    (total_weight (400 ∷ 400 ∷ 200 ∷ []) 0 ≡ 1000)
    × ((i : ℕ) × (pick_weight (400 ∷ 400 ∷ 200 ∷ []) 850 0 0 ≡ some i)
        × IsPicked (400 ∷ 400 ∷ 200 ∷ []) 850 i)
pick_weight-IsPicked_example =
    pick_weight-IsPicked (400 ∷ 400 ∷ 200 ∷ []) 850 (omega arith) total_above

shuffle-IsShuffled_example :
    IsShuffled {A = ℕ} 0 zero_stream 2 4
      (1 ∷ 2 ∷ 3 ∷ 4 ∷ [])
      (shuffle (swapped 0) 2 zero_stream 4 (1 ∷ 2 ∷ 3 ∷ 4 ∷ []))
shuffle-IsShuffled_example =
    shuffle-IsShuffled 0 2 zero_stream (1 ∷ 2 ∷ 3 ∷ 4 ∷ []) zero_stream-IsReady (omega arith)
