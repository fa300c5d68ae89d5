-- ===== src/DataBuffer/Varint.antt =====
-- DataBuffer::encode_tdf_integer and decode_tdf_integer: six bits in the first byte, then seven
-- bits a byte, the lowest first, with 0x80 for "more follows". `v & 0x3F` and `v & 0x7F` are written
-- as remainders, and `|` of values without a common bit as a sum.
pub mod Septets
pub mod RoundTrip
use recap_server.Prelude.{
  ℕ, zero, suc, ◌+◌, ◌-◌, ◌*◌, ◌/◌, ◌%◌, ◌^◌, ◌<◌, ◌≡◌, List, [], ◌∷◌, Option, none, some, ltb, leb,
  if◌then◌else◌, ◌>>=◌,
}
use recap_server.DataBuffer.{DataBuffer, impl_read, impl_write}

-- `read<uint8_t>()`: `none` where the result is an indeterminate value.
unfoldable pub read_u8 : DataBuffer → Option (ℕ × DataBuffer)
unfolding impl_read
read_u8 b =
    let (got, b') = impl_read b 1 in
    elim got [ none ↦ none | some bytes ↦ elim bytes [ [] ↦ none | x ∷ _ ↦ some (x, b') ] ]

-- `peek<uint8_t>()`, likewise.
unfoldable pub peek_u8 : DataBuffer → Option ℕ
unfolding read_u8
peek_u8 b = read_u8 b >>= λ r. some r.0

-- `write<uint8_t>(v)`: the conversion keeps the low eight bits.
unfoldable pub write_u8 : DataBuffer → ℕ → Option DataBuffer
write_u8 b v = impl_write b ((v % 256) ∷ [])

-- `while (value >= 0x80) { write; value >>= 7; } write`, with fuel.
encode_loop : ℕ → DataBuffer → ℕ → Option DataBuffer
encode_loop zero b v = none
encode_loop (suc fuel) b v =
    let more = write_u8 b (v % 128 + 0x80) >>= λ b'. encode_loop fuel b' (v / 128) in
    if leb 0x80 v then more else write_u8 b v

-- Ten septets hold a `uint64_t`.
abbrev pub septet_fuel : ℕ
septet_fuel = 10

unfoldable pub encode_tdf_integer : DataBuffer → ℕ → Option DataBuffer
unfolding encode_loop
encode_tdf_integer b v =
    if ltb v 0x40
    then write_u8 b (v % 256)
    else write_u8 b (v % 64 + 0x80) >>= λ b'. encode_loop septet_fuel b' (v / 64)

-- `for (i = 1; i < 8; i++)`, with `8 - i` rounds left.
decode_loop : ℕ → DataBuffer → ℕ → Option (ℕ × DataBuffer)
decode_loop zero b acc = some (acc, b)
decode_loop (suc left) b acc = read_u8 b >>= λ r.
    let acc' = acc + r.0 % 128 * 2 ^ ((8 - suc left) * 7 - 1) in
    let rest = decode_loop left r.1 acc' in if ltb r.0 0x80 then some (acc', r.1) else rest

unfoldable pub decode_tdf_integer : DataBuffer → Option (ℕ × DataBuffer)
unfolding decode_loop
decode_tdf_integer b =
    read_u8 b >>= λ r. if leb 0x80 r.0 then decode_loop 7 r.1 (r.0 % 64) else some (r.0, r.1)
