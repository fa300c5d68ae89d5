-- ===== src/DataBuffer.antt =====
-- Core/IO/DataBuffer: a growable byte buffer with a cursor. `buffer` is the vector with its whole
-- allocated length, `size` the bytes in use and `position` the cursor.
pub mod Writes
pub mod Reads
pub mod Varint
pub mod Endian
use recap_server.Prelude.{
  ℕ, zero, suc, ◌+◌, ◌-◌, ◌*◌, ◌%◌, ◌≡◌, Bool, true, false, List, [], ◌∷◌, ◌++◌, Option, none, some,
  leb, ltb, if◌then◌else◌, length, take, drop, replicate, min, max, not,
}
use recap_server.Prelude.Bytes.{add64, u64_mod}

pub record DataBuffer : Type 0 where
  pub buffer : List ℕ
  pub size : ℕ
  pub position : ℕ

unfoldable pub empty : DataBuffer
empty = record { buffer = []; size = 0; position = 0 }

-- The addition is on `size_t`.
unfoldable pub can_rw : DataBuffer → ℕ → Bool
can_rw b n = leb (add64 b.position n) (length b.buffer)

-- `std::vector::resize`: cut, or pad with zeros.
unfoldable pub resize_vector : ℕ → List ℕ → List ℕ
resize_vector n xs = take n xs ++ replicate (n - length xs) 0

unfoldable pub reserve : DataBuffer → ℕ → DataBuffer
unfolding resize_vector
reserve b n = record b { buffer = resize_vector n b.buffer }

unfoldable pub resize_buffer : DataBuffer → DataBuffer
unfolding reserve
resize_buffer b = elim b.buffer [ [] ↦ reserve b 64 | _ ∷ _ ↦ reserve b (length b.buffer + 1024) ]

-- A read copies `n` bytes from the cursor. Where they are not there, the variable that they should
-- go to keeps its indeterminate value: `none`.
unfoldable pub impl_peek : DataBuffer → ℕ → Option (List ℕ)
unfolding can_rw
impl_peek b n = if can_rw b n then some (take n (drop b.position b.buffer)) else none

unfoldable pub impl_read : DataBuffer → ℕ → Option (List ℕ) × DataBuffer
unfolding can_rw
impl_read b n =
    if can_rw b n
    then (some (take n (drop b.position b.buffer)), record b { position = b.position + n })
    else (none, b)

-- `while (!can_rw(length)) resize_buffer();` with fuel, `none` when it runs out.
unfoldable pub make_room : ℕ → DataBuffer → ℕ → Option DataBuffer
unfolding can_rw resize_buffer
make_room zero b n = none
make_room (suc fuel) b n =
    let rest = make_room fuel (resize_buffer b) n in if can_rw b n then some b else rest

-- `memcpy` over the cursor.
unfoldable pub overwrite : DataBuffer → List ℕ → DataBuffer
overwrite b bytes = record {
  buffer = take b.position b.buffer ++ (bytes ++ drop (b.position + length bytes) b.buffer);
  size = max b.size (b.position + length bytes);
  position = b.position + length bytes;
}

-- Rounds that suffice: each adds a byte at least.
abbrev pub write_fuel : DataBuffer → List ℕ → ℕ
write_fuel b bytes = b.position + length bytes + 1

unfoldable pub impl_write : DataBuffer → List ℕ → Option DataBuffer
unfolding make_room overwrite
impl_write b bytes = elim (make_room (write_fuel b bytes) b (length bytes)) [
  | none ↦ none
  | some b' ↦ some (overwrite b' bytes)
]

unfoldable pub skip : DataBuffer → ℕ → DataBuffer
skip b n = record b { position = add64 b.position n }

unfoldable pub set_position : DataBuffer → ℕ → DataBuffer
set_position b p = record b { position = min b.size p }

unfoldable pub resize : DataBuffer → ℕ → DataBuffer
unfolding reserve
resize b n =
    if ltb (length b.buffer) n then reserve (record b { size = n }) n else record b { size = n }

unfoldable pub capacity : DataBuffer → ℕ
capacity b = length b.buffer

unfoldable pub clear : DataBuffer → DataBuffer
clear b = record { buffer = []; size = 0; position = 0 }

unfoldable pub eof : DataBuffer → Bool
eof b = leb b.size b.position

-- The other buffer's whole vector goes in, and only its size is added.
unfoldable pub insert : DataBuffer → DataBuffer → DataBuffer
insert b other = record b {
  buffer = take b.size b.buffer ++ (other.buffer ++ drop b.size b.buffer);
  size = b.size + other.size;
}

-- A vector of `n` zeros, over which the bytes are read where they are there.
unfoldable pub read_bytes : DataBuffer → ℕ → List ℕ × DataBuffer
unfolding impl_read
read_bytes b n =
    let (got, b') = impl_read b n in
    elim got [ none ↦ (replicate n 0, b') | some bytes ↦ (bytes, b') ]
