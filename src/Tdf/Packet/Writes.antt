-- ===== src/Tdf/Packet/Writes.antt =====
-- Writes seen as lists of bytes: a function that writes some bytes wherever the cursor is, and how
-- such functions are put together.
use recap_server.Prelude.{
  ℕ, ◌+◌, ◌^◌, ◌≤◌, ◌<◌, ◌≡◌, refl, sym, ◌∙◌, List, [], ◌∷◌, ◌++◌, Option, some, arith, length,
  append-nil, length-append, ◌>>=◌, Bool,
}
use recap_server.Prelude.Bytes.{u64_mod}
use recap_server.DataBuffer.{DataBuffer, impl_write}
use recap_server.DataBuffer.Writes.{Wrote, impl_write-Wrote, Wrote-append}
use recap_server.DataBuffer.Varint.{encode_tdf_integer, write_u8}
use recap_server.DataBuffer.Varint.Septets.{tdf_bytes}
use recap_server.DataBuffer.Varint.RoundTrip.{encode-Wrote, write_u8-Wrote}
use recap_server.Tdf.Codec.{TdfType, write_header, write_text}
use recap_server.Tdf.Codec.RoundTrip.{text_bytes, write_text-Wrote, write_header-Wrote}
use recap_server.Tdf.Tree.Wire.{header_bytes}

-- With the cursor in the bytes in use, and 32 bytes more than needed before 2 ^ 64.
pub record Ready (b : DataBuffer) (n : ℕ) : Type 0 where
  pub inside : b.position ≤ length b.buffer
  pub used : b.position ≤ b.size
  pub fits : b.position + n + 32 < u64_mod

abbrev pub Writes : (DataBuffer → Option DataBuffer) → List ℕ → Type 0
Writes w xs =
    (b : DataBuffer) → Ready b (length xs) → (b' : DataBuffer) × (w b ≡ some b') × Wrote b xs b'

pub Writes-nil : Writes some []
Writes-nil b r = (
  b,
  refl,
  record {
    cursor = omega arith;
    extent = omega (arith, r.used);
    content = sym (append-nil _);
    room = r.inside;
  },
)

pub Writes->>= :
    {w w' : DataBuffer → Option DataBuffer} (xs ys : List ℕ)
    → Writes w xs
    → Writes w' ys
    → Writes (λ b. w b >>= w') (xs ++ ys)
Writes->>= xs ys p q b r =
    let sum = length-append xs ys in
    let (c, run, u) =
      p b (record { inside = r.inside; used = r.used; fits = omega (arith, r.fits, sum) }) in
    let (d, run', v) = q c (record {
      inside = u.room;
      used = omega (arith, u.extent);
      fits = omega (arith, r.fits, sum, u.cursor);
    }) in
    (d, rw (run, ◌>>=◌) run', Wrote-append xs ys u v)

pub Writes-u8 : (v : ℕ) → v < 256 → Writes (λ b. write_u8 b v) (v ∷ [])
Writes-u8 v small b r = write_u8-Wrote b v small r.inside (omega (arith, r.fits))

pub Writes-raw : (xs : List ℕ) → Writes (λ b. impl_write b xs) xs
Writes-raw xs b r = impl_write-Wrote b xs r.inside (omega (arith, r.fits))

pub Writes-integer : (v : ℕ) → v < u64_mod → Writes (λ b. encode_tdf_integer b v) (tdf_bytes v)
Writes-integer v small b r = encode-Wrote b v small r.inside (omega (arith, r.fits))

pub Writes-text :
    (big : Bool) (s : List ℕ)
    → length s + 1 < 2 ^ 55
    → Writes (λ b. write_text big b s) (text_bytes s)
Writes-text big s small b r = write_text-Wrote big b s r.inside small (
    omega (
      arith,
      r.fits,
      length-append (tdf_bytes (length s + 1)) (s ++ 0 ∷ []),
      length-append s (0 ∷ []),
    ))

pub Writes-header :
    (big : Bool) (label : List ℕ) (type : TdfType)
    → Writes (λ b. write_header big b label type) (header_bytes big label type)
Writes-header big label type b r =
    write_header-Wrote big b r.inside label type (omega (arith, r.fits))

-- A function that is the same on every buffer.
pub Writes-eq :
    {w w' : DataBuffer → Option DataBuffer} {xs : List ℕ}
    → ((b : DataBuffer) → w b ≡ w' b)
    → Writes w' xs
    → Writes w xs
Writes-eq e p b r = let (c, run, u) = p b r in (c, e b ∙ run, u)
