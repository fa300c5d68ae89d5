-- ===== src/DataBuffer/Writes.antt =====
-- DataBuffer::impl_write: what a write leaves in the buffer.
use recap_server.Prelude.{
  ℕ, zero, suc, ◌+◌, ◌-◌, ◌≤◌, ◌<◌, ◌≡◌, refl, sym, ap, ◌∙◌, List, [], ◌∷◌, ◌++◌, some, arith, inl,
  inr, Bool-cases, length, take, drop, replicate, max, length-append, length-take, length-replicate,
  take_all, append_assoc, leb, take-append-drop, append-nil, ◌⊎◌, take-append, take-length_append,
  drop-length_append,
}
use native.Mathlib.Nat.{zero-add}
use recap_server.Prelude.Bytes.{add64, u64_mod}
use recap_server.DataBuffer.{
  DataBuffer, can_rw, resize_vector, reserve, resize_buffer, make_room, overwrite, write_fuel,
  impl_write,
}

replicate-add {ℓ} :
    {A : Type ℓ} (j k : ℕ) (a : A) → replicate j a ++ replicate k a ≡ replicate (j + k) a
replicate-add zero k a = rw (zero-add k)
replicate-add (suc j) k a =
    let e : suc j + k ≡ suc (j + k) = omega arith in rw e (ap (λ t. a ∷ t) (replicate-add j k a))

-- `b` with `k` more zero bytes allocated.
abbrev pub padded : DataBuffer → ℕ → DataBuffer
padded b k = record b { buffer = b.buffer ++ replicate k 0 }

resize_vector_more :
    (n : ℕ) (xs : List ℕ) → length xs ≤ n → resize_vector n xs ≡ xs ++ replicate (n - length xs) 0
unfolding resize_vector
resize_vector_more n xs h = rw (take_all n xs h)

resize_buffer_cons :
    (b : DataBuffer) (x : ℕ) (xs : List ℕ) → b.buffer ≡ x ∷ xs → resize_buffer b ≡ padded b 1024
unfolding resize_buffer reserve
resize_buffer_cons b x xs e =
    let n : length b.buffer + 1024 - length b.buffer ≡ 1024 = omega arith in
    let r = resize_vector_more (length b.buffer + 1024) b.buffer (omega arith) in
    ground (arith, r, n)

resize_buffer_nil : (b : DataBuffer) → b.buffer ≡ [] → resize_buffer b ≡ padded b 64
unfolding resize_buffer reserve
resize_buffer_nil b e = let r = resize_vector_more 64 [] (omega arith) in ground (arith, r)

List-cases : (xs : List ℕ) → (xs ≡ []) ⊎ ((x : ℕ) × (r : List ℕ) × (xs ≡ x ∷ r))
List-cases [] = inl refl
List-cases (x ∷ r) = inr (x, r, refl)

resize_buffer-padded : (b : DataBuffer) → (k : ℕ) × (0 < k) × (resize_buffer b ≡ padded b k)
resize_buffer-padded b = elim (List-cases b.buffer) [
  | inl e ↦ (64, omega arith, resize_buffer_nil b e)
  | inr (x, r, e) ↦ (1024, omega arith, resize_buffer_cons b x r e)
]

padded-padded : (b : DataBuffer) (j k : ℕ) → padded (padded b j) k ≡ padded b (j + k)
padded-padded b j k =
    ap (λ t. record b { buffer = t })
      (append_assoc b.buffer (replicate j 0) (replicate k 0)
        ∙ ap (λ t. b.buffer ++ t) (replicate-add j k 0))

padded-zero : (b : DataBuffer) → padded b 0 ≡ b
padded-zero b = ap (λ t. record b { buffer = t }) (append-nil b.buffer)

-- With `fuel` above the bytes that are missing the loop ends, and has only added zeros.
pub make_room-padded :
    (fuel : ℕ) (b : DataBuffer) (n : ℕ)
    → 0 < fuel
    → b.position + n < u64_mod
    → b.position + n < fuel + length b.buffer
    → (k : ℕ) × (make_room fuel b n ≡ some (padded b k)) × (b.position + n ≤ length b.buffer + k)
unfolding make_room can_rw
make_room-padded zero b n pos fits h = absurd (omega arith)
make_room-padded (suc fuel) b n pos fits h =
    elim (Bool-cases (leb (add64 b.position n) (length b.buffer))) [
      | inl e ↦ (0, rw (e, padded-zero b), ground arith)
      | inr e ↦
          let (j, j_pos, grown) = resize_buffer-padded b in
          let wide : length (b.buffer ++ replicate j 0) ≡ length b.buffer + j =
            length-append b.buffer (replicate j 0)
            ∙ ap (λ t. length b.buffer + t) (length-replicate j 0) in
          let (k, run, room) =
            make_room-padded fuel (padded b j) n (ground arith) fits (omega arith) in
          (j + k, rw (e, grown) (run ∙ ap some (padded-padded b j k)), omega arith)
    ]

-- A write at the cursor moves it past the bytes, and leaves what stands before.
pub record Wrote (b : DataBuffer) (bytes : List ℕ) (b' : DataBuffer) : Type 0 where
  pub cursor : b'.position ≡ b.position + length bytes
  pub extent : b'.size ≡ max b.size b'.position
  pub content : take b'.position b'.buffer ≡ take b.position b.buffer ++ bytes
  pub room : b'.position ≤ length b'.buffer

overwrite-Wrote :
    (b : DataBuffer) (bytes : List ℕ) (k : ℕ)
    → b.position ≤ length b.buffer
    → b.position + length bytes ≤ length b.buffer + k
    → Wrote b bytes (overwrite (padded b k) bytes)
unfolding overwrite
overwrite-Wrote b bytes k inside roomy =
    let p = b.position in
    let front = take p (b.buffer ++ replicate k 0) in
    let rest = drop (p + length bytes) (b.buffer ++ replicate k 0) in
    let front_length : p ≡ length front =
      omega (
        arith,
        length-take p (b.buffer ++ replicate k 0),
        length-append b.buffer (replicate k 0),
      ) in
    let kept : front ≡ take p b.buffer = take-append p b.buffer (replicate k 0) inside in
    record {
      cursor = refl;
      extent = refl;
      content =
          ap (take (p + length bytes)) (sym (append_assoc front bytes rest))
          ∙ take-length_append (p + length bytes) (front ++ bytes) rest
              (omega (arith, length-append front bytes))
          ∙ ap (λ t. t ++ bytes) kept;
      room = omega (arith, length-append front (bytes ++ rest), length-append bytes rest);
    }

-- impl_write at a cursor inside the vector, with an end below 2 ^ 64, returns: the bytes stand
-- between the old and the new cursor, what was before them is unchanged, and the size is the larger
-- of the old size and the new cursor.
pub impl_write-Wrote :
    (b : DataBuffer) (bytes : List ℕ)
    → b.position ≤ length b.buffer
    → b.position + length bytes < u64_mod
    → (b' : DataBuffer) × (impl_write b bytes ≡ some b') × Wrote b bytes b'
unfolding impl_write
impl_write-Wrote b bytes inside fits =
    let (k, run, roomy) =
      make_room-padded (write_fuel b bytes) b (length bytes) (omega arith) fits (omega arith) in
    (overwrite (padded b k) bytes, rw (run, impl_write), overwrite-Wrote b bytes k inside roomy)

-- Two writes in a row.
pub Wrote-append :
    {a b c : DataBuffer} (xs ys : List ℕ) → Wrote a xs b → Wrote b ys c → Wrote a (xs ++ ys) c
Wrote-append {a} {b} {c} xs ys v w = record {
  cursor = omega (arith, v.cursor, w.cursor, length-append xs ys);
  extent = omega (arith, v.cursor, w.cursor, v.extent, w.extent);
  content = w.content ∙ ap (λ t. t ++ ys) v.content ∙ append_assoc (take a.position a.buffer) xs ys;
  room = w.room;
}

-- What a reader finds from the place where the write began.
pub Wrote-drop :
    {b b' : DataBuffer} (bytes : List ℕ)
    → b.position ≤ length b.buffer
    → Wrote b bytes b'
    → drop b.position b'.buffer ≡ bytes ++ drop b'.position b'.buffer
Wrote-drop {b} {b'} bytes inside w =
    let front = take b.position b.buffer in
    let tail = drop b'.position b'.buffer in
    let whole : b'.buffer ≡ front ++ (bytes ++ tail) =
      sym (take-append-drop b'.position b'.buffer)
      ∙ ap (λ t. t ++ tail) w.content
      ∙ append_assoc front bytes tail in
    ap (drop b.position) whole
    ∙ drop-length_append b.position front (bytes ++ tail)
        (omega (arith, length-take b.position b.buffer))
