-- ===== src/Tdf/Codec/RoundTrip.antt =====
-- A header and a text that are written and read back.
use native.Mathlib.Nat.{mod-eq_of_lt}
use recap_server.Prelude.{
  ℕ, suc, subst, ◌+◌, ◌-◌, ◌*◌, ◌/◌, ◌%◌, ◌^◌, ◌≤◌, ◌<◌, ◌≡◌, ap, ◌∙◌, Bool, true, false, List, [],
  ◌∷◌, ◌++◌, Option, none, some, ltb, if◌then◌else◌, ◌>>=◌, length, take, arith, append_assoc,
  length-append,
}
use recap_server.Prelude.Bytes.{u64_mod}
use recap_server.DataBuffer.{DataBuffer, skip}
use recap_server.DataBuffer.Writes.{Wrote, impl_write-Wrote, Wrote-append}
use recap_server.DataBuffer.Reads.{Unread, advance, impl_read-Unread, Wrote-Unread, Unread-length}
use recap_server.DataBuffer.Varint.{decode_tdf_integer}
use recap_server.DataBuffer.Varint.Septets.{tdf_bytes}
use recap_server.DataBuffer.Varint.RoundTrip.{encode-Wrote, decode-Unread, length-tdf_bytes}
use recap_server.DataBuffer.Endian.HostFree.{length-native_bytes, read_native-Unread}
use recap_server.DataBuffer.Endian.{read_native, write_native, native_bytes}
use recap_server.Tdf.Labels.{
  compress_label, decompress_label, IsLabel, decompress-compress, compress_label_small,
}
use recap_server.Tdf.Codec.{
  TdfType, Header, type_number, of_number, read_header, write_header, write_text, read_string,
  max_size,
}

-- The bytes of a text.
abbrev pub text_bytes : List ℕ → List ℕ
text_bytes text = tdf_bytes (length text + 1) ++ (text ++ 0 ∷ [])

-- The text part of WriteString, at a cursor inside the vector and with room below 2 ^ 64, returns
-- for a text of fewer than 2 ^ 55 - 1 characters, and has written the length and one, the characters
-- and a zero.
pub write_text-Wrote :
    (big : Bool) (b : DataBuffer) (text : List ℕ)
    → b.position ≤ length b.buffer
    → length text + 1 < 2 ^ 55
    → b.position + length text + 32 < u64_mod
    → (b' : DataBuffer) × (write_text big b text ≡ some b') × Wrote b (text_bytes text) b'
unfolding write_text
write_text-Wrote big b text inside small fits =
    let (c, run, w) = encode-Wrote b (length text + 1) (omega arith) inside (omega arith) in
    let short = length-tdf_bytes (length text + 1) small in
    let (d, run', w') = impl_write-Wrote c text w.room (omega (arith, w.cursor, short)) in
    let (e, run'', w'') =
      impl_write-Wrote d (0 ∷ []) w'.room (omega (arith, w.cursor, w'.cursor, short)) in
    (
      e,
      rw (run, ◌>>=◌, run') run'',
      Wrote-append (tdf_bytes (length text + 1)) (text ++ 0 ∷ []) w
          (Wrote-append text (0 ∷ []) w' w''),
    )

skip_last :
    (b : DataBuffer) (i j k n : ℕ)
    → n ≡ i + (j + k)
    → b.position + n < u64_mod
    → skip (advance (advance b i) j) k ≡ advance b n
unfolding skip
skip_last b i j k n e fits =
    let p : (b.position + i + j + k) % u64_mod ≡ b.position + n = omega arith in
    λ t. record b { position = p t }

some_read :
    {m n i j : ℕ} (b : DataBuffer)
    → m ≡ n
    → i ≡ j
    → ◌≡◌ {A = Option (ℕ × DataBuffer)} (some (m, advance b i)) (some (n, advance b j))
some_read b p q = cc

-- The end of `read_string`, past the length and the characters.
abbrev ended : DataBuffer → List ℕ → ℕ → Option (List ℕ × DataBuffer)
ended b text k =
    if ltb 0 (length text)
    then (if ltb max_size (length text)
        then none
        else some (text, skip (advance (advance b k) (length text)) 1))
    else some ([], skip (advance b k) 1)

read_end :
    (b : DataBuffer) (text : List ℕ) (k n : ℕ)
    → n ≡ k + (length text + 1)
    → length text ≤ max_size
    → b.position + n < u64_mod
    → ended b text k ≡ some (text, advance b n)
read_end b [] k n e h fits =
    let back : advance b k ≡ advance (advance b k) 0 = ground arith in
    ap some (λ i. ([], (ap (λ c. skip c 1) back ∙ skip_last b k 0 1 n e fits) i))
read_end b (c ∷ cs) k n e h fits =
    let t : ltb max_size (suc (length cs)) ≡ false = ground arith in
    let some_left : ltb 0 (suc (length cs)) ≡ true = ground arith in
    rw (some_left, t) (ap some (λ i. (c ∷ cs, skip_last b k (suc (length cs)) 1 n e fits i)))

-- On a buffer whose unread bytes begin with the encoding of a text of fewer than 2 ^ 55 - 1
-- characters, read_string gives the text and leaves the cursor after the encoding.
pub read_string-Unread :
    (b : DataBuffer) (text rest : List ℕ)
    → length text + 1 < 2 ^ 55
    → Unread b (text_bytes text ++ rest)
    → read_string b ≡ some (text, advance b (length (text_bytes text)))
unfolding read_string
read_string-Unread b text rest small u =
    let n = length text in
    let bytes = tdf_bytes (n + 1) in
    let u' : Unread b (bytes ++ (text ++ (0 ∷ rest))) =
      subst (Unread b)
        (append_assoc bytes (text ++ 0 ∷ []) rest
          ∙ ap (λ t. bytes ++ t) (append_assoc text (0 ∷ []) rest))
        u in
    let run : decode_tdf_integer b ≡ some (n + 1, advance b (length bytes)) =
      decode-Unread (n + 1) b (text ++ (0 ∷ rest)) (omega arith) u'
      ∙ some_read b (mod-eq_of_lt small) (omega (arith, length-tdf_bytes (n + 1) small)) in
    let next : Unread (advance b (length bytes)) (text ++ (0 ∷ rest)) =
      (impl_read-Unread bytes (text ++ (0 ∷ rest)) u').1 in
    let (got, last) = impl_read-Unread text (0 ∷ rest) next in
    let wrap : (n + 1 + (u64_mod - 1)) % u64_mod ≡ n = omega arith in
    rw (run, ◌>>=◌, wrap, got)
      (read_end b text (length bytes) (length (text_bytes text))
        (omega (arith, length-append bytes (text ++ 0 ∷ []), length-append text (0 ∷ [])))
        (omega arith)
        (omega (arith, Unread-length u, length-append (text_bytes text) rest, u.fits)))

module _ (big : Bool) (b : DataBuffer) (inside : b.position ≤ length b.buffer) where
  -- The four bytes of a header.
  abbrev pub header_value : List ℕ → TdfType → ℕ
  header_value label type = compress_label label + type_number type % 256 * 2 ^ 24

  pub write_header-Wrote :
      (label : List ℕ) (type : TdfType)
      → b.position + 4 < u64_mod
      → (b' : DataBuffer) × (write_header big b label type ≡ some b')
        × Wrote b (native_bytes big 4 (header_value label type)) b'
  unfolding write_header write_native
  write_header-Wrote label type fits =
      impl_write-Wrote b (native_bytes big 4 (header_value label type)) inside
        (omega (arith, length-native_bytes big 4 (header_value label type)))

  -- The header that a read gives.
  abbrev header_of : Option ℕ × DataBuffer → Option Header × DataBuffer
  header_of (got, c) = (
    got >>= λ v.
        some (record { label = decompress_label (v % 2 ^ 24); type = of_number (v / 2 ^ 24) }),
    c,
  )

  header_read :
      (c : DataBuffer) (v : ℕ)
      → read_native big 4 c ≡ (some v, advance c 4)
      → read_header big c ≡ (
        some (record { label = decompress_label (v % 2 ^ 24); type = of_number (v / 2 ^ 24) }),
        advance c 4,
      )
  unfolding read_header
  header_read c v e = ap header_of e

  -- When WriteHeader writes a label of capital letters and a type that has an enumerator, or a value
  -- from 12 to 255, at a cursor inside the vector, with four bytes to go before 2 ^ 64, and returns
  -- a buffer whose vector is shorter than 2 ^ 64, ReadHeader on the same host from the place where
  -- the write began gives the first four characters of the label and the type, and leaves the cursor
  -- after the header.
  pub read_header-write_header :
      (label : List ℕ) (type : TdfType) (b' : DataBuffer)
      → IsLabel label
      → of_number (type_number type % 256) ≡ type
      → b.position + 4 < u64_mod
      → write_header big b label type ≡ some b'
      → length b'.buffer < u64_mod
      → read_header big (record b' { position = b.position })
        ≡ (some (record { label = take 4 label; type = type }), b')
  read_header-write_header label type b' ok named fits run fits' =
      let v = header_value label type in
      let small = compress_label_small label in
      let (c, run', w') = write_header-Wrote label type fits in
      let same : c ≡ b' = cc in
      let w : Wrote b (native_bytes big 4 v) b' = subst (Wrote b (native_bytes big 4 v)) same w' in
      let u = Wrote-Unread (native_bytes big 4 v) inside fits' w in
      let back : b.position + 4 ≡ b'.position =
        omega (arith, w.cursor, length-native_bytes big 4 v) in
      let low : v % 2 ^ 24 ≡ compress_label label = omega (arith, small) in
      let high : v / 2 ^ 24 ≡ type_number type % 256 = omega (arith, small) in
      header_read (record b' { position = b.position }) v
        (read_native-Unread big 4 v (record b' { position = b.position }) _ (omega (arith, small))
          u)
      ∙ (λ i. (
        some (record {
          label = (ap decompress_label low ∙ decompress-compress label ok) i;
          type = (ap of_number high ∙ named) i;
        }),
        record b' { position = back i },
      ))
