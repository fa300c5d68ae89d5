-- ===== src/DataBuffer/Varint/RoundTrip.antt =====
-- An integer that is written and read back.
use recap_server.Prelude.{
  ℕ, zero, suc, ◌+◌, ◌-◌, ◌*◌, ◌/◌, ◌%◌, ◌^◌, ◌≤◌, ◌<◌, ◌≡◌, refl, ◌∙◌, ap, List, [], ◌∷◌, ◌++◌,
  Option, some, arith, ltb, leb, length, ◌>>=◌, inl, inr, Bool-cases, min, dec_lt, true, false,
  subst,
}
use native.Mathlib.Nat.{pow-suc, mod-eq_of_lt}
use recap_server.Prelude.Bytes.{u64_mod}
use recap_server.DataBuffer.Reads.{Unread, advance, impl_read-Unread, Wrote-Unread}
use recap_server.DataBuffer.{DataBuffer, set_position}
use recap_server.DataBuffer.Writes.{Wrote, impl_write-Wrote, Wrote-append}
use recap_server.DataBuffer.Varint.{
  read_u8, write_u8, encode_loop, encode_tdf_integer, decode_loop, decode_tdf_integer,
}
use recap_server.DataBuffer.Varint.Septets.{
  septets, tdf_bytes, length-septets, pow-pos, mod-pow-suc,
}

pub write_u8-Wrote :
    (b : DataBuffer) (v : ℕ)
    → v < 256
    → b.position ≤ length b.buffer
    → b.position + 1 < u64_mod
    → (b' : DataBuffer) × (write_u8 b v ≡ some b') × Wrote b (v ∷ []) b'
unfolding write_u8
write_u8-Wrote b v small inside fits =
    let e : v % 256 ≡ v = omega arith in rw e (impl_write-Wrote b (v ∷ []) inside fits)

encode_loop-Wrote :
    (f v : ℕ) (b : DataBuffer)
    → v < 128 ^ f
    → 0 < f
    → b.position ≤ length b.buffer
    → b.position + f < u64_mod
    → (b' : DataBuffer) × (encode_loop f b v ≡ some b') × Wrote b (septets f v) b'
unfolding encode_loop septets
encode_loop-Wrote zero v b h pos inside fits = absurd (omega arith)
encode_loop-Wrote (suc f) v b h pos inside fits = elim (Bool-cases (leb 0x80 v)) [
  | inr e ↦ rw e (write_u8-Wrote b v (ground arith) inside (omega arith))
  | inl e ↦
      let (c, run, w) = write_u8-Wrote b (v % 128 + 0x80) (omega arith) inside (omega arith) in
      let (d, run', w') =
        encode_loop-Wrote f (v / 128) c (omega (arith, pow-suc 128 f))
          (ground (arith, pow-suc 128 f)) w.room (omega (arith, w.cursor)) in
      (d, rw (e, run) run', rw e (Wrote-append _ _ w w'))
]

-- `encode_tdf_integer` returns, and has written the bytes of `v`.
pub encode-Wrote :
    (b : DataBuffer) (v : ℕ)
    → v < u64_mod
    → b.position ≤ length b.buffer
    → b.position + 11 < u64_mod
    → (b' : DataBuffer) × (encode_tdf_integer b v ≡ some b') × Wrote b (tdf_bytes v) b'
unfolding encode_tdf_integer tdf_bytes
encode-Wrote b v h inside fits = elim (Bool-cases (ltb v 0x40)) [
  | inl e ↦
      let m : v % 256 ≡ v = ground arith in
      rw (e, m) (write_u8-Wrote b v (ground arith) inside (omega arith))
  | inr e ↦
      let (c, run, w) = write_u8-Wrote b (v % 64 + 0x80) (omega arith) inside (omega arith) in
      let (d, run', w') =
        encode_loop-Wrote 10 (v / 64) c (omega arith) (omega arith) w.room
          (omega (arith, w.cursor)) in
      (d, rw (e, run) run', rw e (Wrote-append _ _ w w'))
]

pub read_u8-Unread :
    {b : DataBuffer} (x : ℕ) (xs : List ℕ)
    → Unread b (x ∷ xs)
    → (read_u8 b ≡ some (x, advance b 1)) × Unread (advance b 1) xs
unfolding read_u8
read_u8-Unread x xs u = let (run, u') = impl_read-Unread (x ∷ []) xs u in (ground (arith, run), u')

-- The weight of the next septet, with `left` rounds to go.
abbrev weight : ℕ → ℕ
weight left = 2 ^ ((8 - left) * 7 - 1)

weight_step : (left : ℕ) → left < 7 → weight left ≡ 128 * weight (suc left)
weight_step zero h = refl
weight_step (suc zero) h = refl
weight_step (suc (suc zero)) h = refl
weight_step (suc (suc (suc zero))) h = refl
weight_step (suc (suc (suc (suc zero)))) h = refl
weight_step (suc (suc (suc (suc (suc zero))))) h = refl
weight_step (suc (suc (suc (suc (suc (suc zero)))))) h = refl
weight_step (suc (suc (suc (suc (suc (suc (suc n))))))) h = absurd (omega arith)

decode_loop_stop :
    (left x acc : ℕ) (b : DataBuffer) (xs : List ℕ)
    → Unread b (x ∷ xs)
    → x < 0x80
    → decode_loop (suc left) b acc ≡ some (acc + x * weight (suc left), advance b 1)
unfolding decode_loop
decode_loop_stop left x acc b xs u small =
    let e : x % 128 ≡ x = omega arith in
    let t : ltb x 0x80 ≡ true = ground arith in rw ((read_u8-Unread x xs u).0, ◌>>=◌, t, e) refl

decode_loop_more :
    (left x acc : ℕ) (b : DataBuffer) (xs : List ℕ)
    → Unread b (x ∷ xs)
    → 0x80 ≤ x
    → decode_loop (suc left) b acc
      ≡ decode_loop left (advance b 1) (acc + x % 128 * weight (suc left))
unfolding decode_loop
decode_loop_more left x acc b xs u large =
    let t : ltb x 0x80 ≡ false = ground arith in rw ((read_u8-Unread x xs u).0, ◌>>=◌, t) refl

septets_last : (f v : ℕ) → v < 0x80 → septets (suc f) v ≡ v ∷ []
unfolding septets
septets_last f v h = ground arith

septets_more : (f v : ℕ) → 0x80 ≤ v → septets (suc f) v ≡ (v % 128 + 0x80) ∷ septets f (v / 128)
unfolding septets
septets_more f v h = ground arith

some_read :
    {m n : ℕ} (b : DataBuffer) (j k : ℕ)
    → m ≡ n
    → j ≡ k
    → ◌≡◌ {A = Option (ℕ × DataBuffer)} (some (m, advance b j)) (some (n, advance b k))
some_read b j k p q = cc

decode_loop_done :
    (acc n k : ℕ) (b : DataBuffer) → k ≡ 0 → n ≡ acc → decode_loop 0 b acc ≡ some (n, advance b k)
unfolding decode_loop
decode_loop_done acc n k b p q = ground arith

advance_advance :
    {m n : ℕ} (b : DataBuffer) (j k i : ℕ)
    → m ≡ n
    → j + k ≡ i
    → ◌≡◌ {A = Option (ℕ × DataBuffer)} (some (m, advance (advance b j) k)) (some (n, advance b i))
advance_advance b j k i p q = ground arith

decode_loop-septets :
    (left f v acc : ℕ) (b : DataBuffer) (rest : List ℕ)
    → left ≤ 7
    → v < 128 ^ f
    → 0 < f
    → Unread b (septets f v ++ rest)
    → decode_loop left b acc
      ≡ some (acc + weight left * (v % 128 ^ left), advance b (min left (length (septets f v))))
decode_loop-septets zero f v acc b rest l h pos u =
    decode_loop_done acc _ _ b (omega arith) (omega arith)
decode_loop-septets (suc left) zero v acc b rest l h pos u = absurd (omega arith)
decode_loop-septets (suc left) (suc f) v acc b rest l h pos u = elim (dec_lt v 0x80) [
  | yes small ↦
      let s = septets_last f v small in
      let whole : v % 128 ^ suc left ≡ v =
        mod-eq_of_lt (omega (arith, pow-suc 128 left, pow-pos left)) in
      decode_loop_stop left v acc b rest (rw s at u) small
      ∙ some_read b 1 _ (rw whole (omega arith)) (rw s (omega arith))
  | no large ↦
      let s = septets_more f v (omega arith) in
      let u' = (rw s at u) in
      let low : (v % 128 + 0x80) % 128 ≡ v % 128 = omega arith in
      let w = weight_step left (omega arith) in
      let next = (read_u8-Unread (v % 128 + 0x80) (septets f (v / 128) ++ rest) u').1 in
      decode_loop_more left (v % 128 + 0x80) acc b _ u' (omega arith)
      ∙ decode_loop-septets left f (v / 128) _ (advance b 1) rest (omega arith)
          (omega (arith, pow-suc 128 f)) (ground (arith, pow-suc 128 f)) next
      ∙ advance_advance b 1 _ _ (rw (mod-pow-suc v left, low, w) (omega arith)) (rw s (omega arith))
]

-- What `decode_tdf_integer` makes of the bytes of any `uint64_t`: its low 55 bits, and the cursor
-- past eight bytes at most.
pub decode-Unread :
    (v : ℕ) (b : DataBuffer) (rest : List ℕ)
    → v < u64_mod
    → Unread b (tdf_bytes v ++ rest)
    → decode_tdf_integer b ≡ some (v % 2 ^ 55, advance b (min 8 (length (tdf_bytes v))))
unfolding decode_tdf_integer tdf_bytes
decode-Unread v b rest h u = elim (Bool-cases (ltb v 0x40)) [
  | inl e ↦
      let u' = (rw e at u) in
      let t : leb 0x80 v ≡ false = ground arith in
      rw (e, (read_u8-Unread v rest u').0, ◌>>=◌, t) (some_read b 1 1 (ground arith) refl)
  | inr e ↦
      let u' = (rw e at u) in
      let t : leb 0x80 (v % 64 + 0x80) ≡ true = ground arith in
      let (run, next) = read_u8-Unread (v % 64 + 0x80) (septets 10 (v / 64) ++ rest) u' in
      let low : (v % 64 + 0x80) % 64 ≡ v % 64 = omega arith in
      rw (e, run, ◌>>=◌, t, low)
        (decode_loop-septets 7 10 (v / 64) (v % 64) (advance b 1) rest (omega arith) (omega arith)
            (omega arith) next
          ∙ advance_advance b 1 _ _ (omega arith) (omega arith))
]

pub length-tdf_bytes : (v : ℕ) → v < 2 ^ 55 → length (tdf_bytes v) ≤ 8
unfolding tdf_bytes
length-tdf_bytes v h = ground (arith, length-septets 10 7 (v / 64))

module _ (b b' : DataBuffer) (v : ℕ) (word : v < u64_mod) (inside : b.position ≤ length b.buffer)
    (fits : b.position + 11 < u64_mod) (run : encode_tdf_integer b v ≡ some b')
    (fits' : length b'.buffer < u64_mod) where
  encoded : Wrote b (tdf_bytes v) b'
  encoded =
      let (c, run', w) = encode-Wrote b v word inside fits in
      let same : c ≡ b' = cc in subst (Wrote b (tdf_bytes v)) same w

  rewound : set_position b' b.position ≡ record b' { position = b.position }
  unfolding set_position
  rewound = ap (λ t. record b' { position = t }) (omega (arith, encoded.cursor, encoded.extent))

  -- When encode_tdf_integer writes a uint64_t at a cursor inside the vector, with 11 bytes to go
  -- before 2 ^ 64, and returns a buffer whose vector is shorter than 2 ^ 64, then decode_tdf_integer
  -- from the place where the write began gives the low 55 bits of the value and leaves the cursor
  -- after the encoded bytes, at most eight of them.
  pub decode-encode :
      decode_tdf_integer (set_position b' b.position)
      ≡ some (v % 2 ^ 55, record b' { position = b.position + min 8 (length (tdf_bytes v)) })
  decode-encode =
      rw rewound (decode-Unread v _ _ word (Wrote-Unread (tdf_bytes v) inside fits' encoded))

  -- Under the conditions of an encode_tdf_integer that returned and for a value below 2 ^ 55,
  -- decode_tdf_integer from the place where the write began gives the value back and leaves the
  -- buffer as the write left it.
  pub decode-encode_small :
      v < 2 ^ 55 → decode_tdf_integer (set_position b' b.position) ≡ some (v, b')
  decode-encode_small small =
      decode-encode ∙ ap some (λ i. (mod-eq_of_lt small i, record b' { position = back i }))
    where
      back : b.position + min 8 (length (tdf_bytes v)) ≡ b'.position
      back = omega (arith, encoded.cursor, length-tdf_bytes v small)
