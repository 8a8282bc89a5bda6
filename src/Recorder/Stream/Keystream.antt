-- ===== src/Recorder/Stream/Keystream.antt =====
-- A stream of internal/recorder/prng.go against the keystream that its key and nonce determine.
use pro_thesis.Prelude.{
  ℕ, zero, suc, ◌+◌, ◌-◌, ◌*◌, ◌/◌, ◌%◌, ◌^◌, ◌≤◌, ◌<◌, ◌≡◌, ◌≢◌, refl, sym, ap, ◌∙◌, subst, List,
  [], ◌++◌, true, false, Option, none, some, arith, Bool-cases, inl, inr,
}
use pro_thesis.Prelude.{if◌then◌else◌, ◌==◌, ltb, leb, length, take, drop, get_or, if_intro}
use pro_thesis.Recorder.ChaCha.{chacha_block, length-chacha_block}
use pro_thesis.Recorder.Stream.{
  Stream, offset, fill, advance_block, refilled, read_round, read_loop, read, seek,
}
use pro_thesis.Recorder.Stream.Slices.{keystream, slice, slice-append, slice-shift, take-drop}

-- The buffer, where it is valid, is the block that the stream stands in.
pub record IsReady (s : Stream) : Type 0 where
  pub within : s.off ≤ 64
  pub addressable : s.block < 2 ^ 32
  pub buffered : s.valid ≡ true → s.buf ≡ chacha_block s.key s.nonce s.block

-- The same keystream, at the position `p`.
pub record IsAt (s t : Stream) (p : ℕ) : Type 0 where
  pub ready : IsReady t
  pub same_key : t.key ≡ s.key
  pub same_nonce : t.nonce ≡ s.nonce
  pub same_draws : t.draws ≡ s.draws
  pub position : offset t ≡ p

advance_block-step :
    (s : Stream)
    → IsReady s
    → offset s + 1 ≤ 2 ^ 38
    → (t : Stream) × (advance_block s ≡ some t) × IsAt s t (offset s) × (t.off < 64)
unfolding advance_block
advance_block-step s r lt = elim (Bool-cases (s.off == 64)) [
  | inl e ↦ elim (Bool-cases (s.block == 2 ^ 32 - 1)) [
    | inl last ↦ absurd (ground arith)
    | inr more ↦ (
      record s { block = s.block + 1; off = 0; valid = false },
      rw (e, more) refl,
      record {
        ready = record {
          within = omega arith;
          addressable = ground (arith, r.addressable);
          buffered = λ q. ground arith;
        };
        same_key = refl;
        same_nonce = refl;
        same_draws = refl;
        position = ground arith;
      },
      omega arith,
    )
  ]
  | inr e ↦ (
    s,
    rw e refl,
    record { ready = r; same_key = refl; same_nonce = refl; same_draws = refl; position = refl },
    ground (arith, r.within),
  )
]

-- A stream of which the block is in the buffer.
record IsFilled (s u : Stream) : Type 0 where
  at_same : IsAt s u (offset s)
  block_bytes : u.buf ≡ chacha_block u.key u.nonce u.block
  same_off : u.off ≡ s.off

refilled-IsFilled : (s : Stream) → IsReady s → IsFilled s (refilled s)
unfolding refilled fill
refilled-IsFilled s r =
    if_intro (IsFilled s) s.valid s (fill s)
      (λ e. record {
        at_same = record {
          ready = r;
          same_key = refl;
          same_nonce = refl;
          same_draws = refl;
          position = refl;
        };
        block_bytes = r.buffered e;
        same_off = refl;
      })
      (λ e. record {
        at_same = record {
          ready = record { within = r.within; addressable = r.addressable; buffered = λ _. refl };
          same_key = refl;
          same_nonce = refl;
          same_draws = refl;
          position = refl;
        };
        block_bytes = refl;
        same_off = refl;
      })

-- Bytes out of a block are bytes of the keystream.
block-slice :
    (key nonce : List ℕ) (block off c : ℕ)
    → off + c ≤ 64
    → take c (drop off (chacha_block key nonce block))
      ≡ slice (keystream key nonce) (block * 64 + off) c
block-slice key nonce block off c h =
    take-drop (chacha_block key nonce block) off c
      (omega (arith, length-chacha_block key nonce block))
    ∙ slice-shift (λ i. get_or (chacha_block key nonce block) i 0) (keystream key nonce) off
        (block * 64) c
        (λ j lt.
          let e : (block * 64 + j) / 64 ≡ block = omega arith in
          let q : (block * 64 + j) % 64 ≡ j = omega arith in rw (e, q) refl)

-- What reading `left` bytes has to give.
abbrev pub IsRead : Stream → ℕ → List ℕ × Stream → Type 0
IsRead s left r =
    (r.0 ≡ slice (keystream s.key s.nonce) (offset s) left) × IsAt s r.1 (offset s + left)

-- Bytes that are copied from the buffer.
copied :
    (u : Stream) (c : ℕ)
    → IsReady u
    → u.buf ≡ chacha_block u.key u.nonce u.block
    → u.off + c ≤ 64
    → IsRead u c (take c (drop u.off u.buf), record u { off = u.off + c })
copied u c r e h = (
  ap (λ b. take c (drop u.off b)) e ∙ block-slice u.key u.nonce u.block u.off c h,
  record {
    ready = record { within = h; addressable = r.addressable; buffered = r.buffered };
    same_key = refl;
    same_nonce = refl;
    same_draws = refl;
    position = omega arith;
  },
)

-- Reading from a stream at the same position gives the same.
IsRead-IsAt :
    (s u : Stream) (c : ℕ) (r : List ℕ × Stream) → IsAt s u (offset s) → IsRead u c r → IsRead s c r
IsRead-IsAt s u c r a (e, b) = (
  e
      ∙ ap (λ k. slice (keystream k u.nonce) (offset u) c) a.same_key
      ∙ ap (λ k. slice (keystream s.key k) (offset u) c) a.same_nonce
      ∙ ap (λ p. slice (keystream s.key s.nonce) p c) a.position,
  record {
    ready = b.ready;
    same_key = b.same_key ∙ a.same_key;
    same_nonce = b.same_nonce ∙ a.same_nonce;
    same_draws = b.same_draws ∙ a.same_draws;
    position = b.position ∙ ap (λ p. p + c) a.position;
  },
)

-- Reading on behind what was read.
IsRead-append :
    (s t : Stream) (c left : ℕ) (chunk : List ℕ) (r : List ℕ × Stream)
    → c ≤ left
    → IsRead s c (chunk, t)
    → IsRead t (left - c) r
    → IsRead s left (chunk ++ r.0, r.1)
IsRead-append s t c left chunk r le (e, a) (q, b) =
    let f = keystream s.key s.nonce in
    let rest : r.0 ≡ slice f (offset s + c) (left - c) =
      q
      ∙ ap (λ k. slice (keystream k t.nonce) (offset t) (left - c)) a.same_key
      ∙ ap (λ k. slice (keystream s.key k) (offset t) (left - c)) a.same_nonce
      ∙ ap (λ p. slice f p (left - c)) a.position in
    let whole : c + (left - c) ≡ left = omega arith in
    (
      ap (λ xs. xs ++ r.0) e
          ∙ ap (λ xs. slice f (offset s) c ++ xs) rest
          ∙ sym (slice-append f (offset s) c (left - c))
          ∙ ap (slice f (offset s)) whole,
      record {
        ready = b.ready;
        same_key = b.same_key ∙ a.same_key;
        same_nonce = b.same_nonce ∙ a.same_nonce;
        same_draws = b.same_draws ∙ a.same_draws;
        position = b.position ∙ omega (arith, a.position);
      },
    )

length-slice : (f : ℕ → ℕ) (a k : ℕ) → length (slice f a k) ≡ k
length-slice f a zero = refl
length-slice f a (suc k) = ap suc (length-slice f (a + 1) k)

-- The bytes that a round copies.
chunk-le : (left avail : ℕ) → (if ltb left avail then left else avail) ≤ left
chunk-le left avail = ground arith

chunk-fit : (left avail : ℕ) → (if ltb left avail then left else avail) ≤ avail
chunk-fit left avail = ground arith

chunk-pos : (left avail : ℕ) → 1 ≤ left → 1 ≤ avail → 1 ≤ (if ltb left avail then left else avail)
chunk-pos left avail h q = ground arith

fits : (c off : ℕ) → off ≤ 64 → c ≤ 64 - off → off + c ≤ 64
fits c off h q = omega arith

read_round-IsRead :
    (s : Stream) (left : ℕ)
    → IsReady s
    → 1 ≤ left
    → offset s + left ≤ 2 ^ 38
    → (r : List ℕ × Stream) × (read_round s left ≡ some r)
      × (1 ≤ length r.0)
      × (length r.0 ≤ left)
      × IsRead s (length r.0) r
unfolding read_round
read_round-IsRead s left ready h room =
    let (t, q, at_t, below) = advance_block-step s ready (omega arith) in
    let fl = refilled-IsFilled t at_t.ready in
    let u = refilled t in
    let c = if ltb left (64 - u.off) then left else 64 - u.off in
    let low : u.off < 64 = omega (arith, fl.same_off) in
    let c_fit : u.off + c ≤ 64 =
      fits c u.off fl.at_same.ready.within (chunk-fit left (64 - u.off)) in
    let r : List ℕ × Stream = (take c (drop u.off u.buf), record u { off = u.off + c }) in
    let got : IsRead s c r =
      IsRead-IsAt s t c r at_t
        (IsRead-IsAt t u c r fl.at_same (copied u c fl.at_same.ready fl.block_bytes c_fit)) in
    let len : length r.0 ≡ c = ap length got.0 ∙ length-slice _ (offset s) c in
    (
      r,
      ap
          (λ z. elim z [
            | none ↦ none
            | some t ↦
                let u = refilled t in
                let avail = 64 - u.off in
                let c = if ltb left avail then left else avail in
                some (take c (drop u.off u.buf), record u { off = u.off + c })
          ])
          q,
      subst (λ k. 1 ≤ k) (sym len) (chunk-pos left (64 - u.off) h (omega arith)),
      subst (λ k. k ≤ left) (sym len) (chunk-le left (64 - u.off)),
      subst (λ k. IsRead s k r) (sym len) got,
    )

zero_left : (n : ℕ) → (n == 0) ≡ true → n ≡ 0
zero_left n e = ground arith

is_positive : (n : ℕ) → (n == 0) ≡ false → 1 ≤ n
is_positive n e = ground arith

-- Nothing is left to read.
IsRead-none : (s : Stream) (left : ℕ) → IsReady s → left ≡ 0 → IsRead s left ([], s)
IsRead-none s zero ready e = (
  refl,
  record {
    ready = ready;
    same_key = refl;
    same_nonce = refl;
    same_draws = refl;
    position = omega arith;
  },
)
IsRead-none s (suc left) ready e = absurd (omega arith)

read_loop-IsRead :
    (fuel : ℕ) (s : Stream) (left : ℕ)
    → IsReady s
    → left ≤ fuel
    → offset s + left ≤ 2 ^ 38
    → (r : List ℕ × Stream) × (read_loop fuel s left ≡ some r) × IsRead s left r
unfolding read_loop
read_loop-IsRead zero s left ready h room =
    let e : left ≡ 0 = omega arith in (([], s), rw e refl, IsRead-none s left ready e)
read_loop-IsRead (suc fuel) s left ready h room = elim (Bool-cases (left == 0)) [
  | inl e ↦ (([], s), rw e refl, IsRead-none s left ready (zero_left left e))
  | inr e ↦
      let (r, q, low, high, got) = read_round-IsRead s left ready (is_positive left e) room in
      let rest =
        read_loop-IsRead fuel r.1 (left - length r.0) got.1.ready (omega arith)
          (omega (arith, got.1.position)) in
      (
        (r.0 ++ rest.0.0, rest.0.1),
        ap
              (λ b. if b then some ([], s) else elim (read_round s left) [
                | none ↦ none
                | some (chunk, t) ↦ elim (read_loop fuel t (left - length chunk)) [
                  | none ↦ none
                  | some r ↦ some (chunk ++ r.0, r.1)
                ]
              ])
              e
            ∙ ap
                (λ z. elim z [
                  | none ↦ none
                  | some (chunk, t) ↦ elim (read_loop fuel t (left - length chunk)) [
                    | none ↦ none
                    | some r ↦ some (chunk ++ r.0, r.1)
                  ]
                ])
                q
            ∙ ap (λ z. elim z [ none ↦ none | some w ↦ some (r.0 ++ w.0, w.1) ]) rest.1,
        IsRead-append s r.1 (length r.0) left r.0 rest.0 high got rest.2,
      )
]

-- From a stream that is at byte p of its keystream, `Read` of k bytes that end within the first 2 ^ 38 returns
-- bytes p to p + k of the keystream of the stream's key and nonce, where byte i is byte i % 64 of ChaCha20
-- block i / 64. The stream is afterwards at byte p + k, with the key, the nonce and the number of draws
-- that it had.
pub read-IsRead :
    (s : Stream) (k : ℕ)
    → IsReady s
    → offset s + k ≤ 2 ^ 38
    → (r : List ℕ × Stream) × (read s k ≡ some r) × IsRead s k r
unfolding read
read-IsRead s k ready room = read_loop-IsRead k s k ready (omega arith) room

beyond : (n : ℕ) → n < 2 ^ 38 → leb (2 ^ 38) n ≢ true
beyond n h e = ground arith

in_range : (n : ℕ) (x y : Option Stream) → n < 2 ^ 38 → (if leb (2 ^ 38) n then x else y) ≡ y
in_range n x y h =
    if_intro (λ z. z ≡ y) (leb (2 ^ 38) n) x y (λ e. absurd (beyond n h e)) (λ _. refl)

seek-IsAt : (s : Stream) (n : ℕ) → n < 2 ^ 38 → (t : Stream) × (seek s n ≡ some t) × IsAt s t n
unfolding seek
seek-IsAt s n h = (
  record s { block = n / 64 % 2 ^ 32; off = n % 64; valid = false },
  in_range n _ _ h,
  record {
    ready = record {
      within = omega arith;
      addressable = omega arith;
      buffered = λ e. absurd (ground arith);
    };
    same_key = refl;
    same_nonce = refl;
    same_draws = refl;
    position = omega arith;
  },
)

-- Whatever position a stream is at: after `Seek` to byte n, `Read` of k bytes that end within the first 2 ^ 38
-- returns bytes n to n + k of the keystream of its key and nonce.
pub read-seek :
    (s : Stream) (n k : ℕ)
    → n < 2 ^ 38
    → n + k ≤ 2 ^ 38
    → (t : Stream) × (r : List ℕ × Stream) × (seek s n ≡ some t)
      × (read t k ≡ some r)
      × (r.0 ≡ slice (keystream s.key s.nonce) n k)
read-seek s n k h room =
    let (t, e, at_n) = seek-IsAt s n h in
    let (r, q, got) = read-IsRead t k at_n.ready (omega (arith, at_n.position)) in
    (
      t,
      r,
      e,
      q,
      got.0
          ∙ ap (λ p. slice (keystream p t.nonce) (offset t) k) at_n.same_key
          ∙ ap (λ p. slice (keystream s.key p) (offset t) k) at_n.same_nonce
          ∙ ap (λ p. slice (keystream s.key s.nonce) p k) at_n.position,
    )
