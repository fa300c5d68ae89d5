-- ===== src/Tests/Buffers.antt =====
-- Core/IO/DataBuffer at small inputs.
use recap_server.Prelude.{◌≡◌, refl, true, [], ◌∷◌, some, arith, replicate}
use recap_server.DataBuffer.{DataBuffer, empty, impl_write, set_position}
use recap_server.DataBuffer.Writes.{Wrote, impl_write-Wrote}
use recap_server.DataBuffer.Reads.{Unread}
use recap_server.DataBuffer.Varint.{encode_tdf_integer, decode_tdf_integer, write_u8}
use recap_server.DataBuffer.Varint.Septets.{tdf_bytes}
use recap_server.DataBuffer.Varint.RoundTrip.{decode-encode}
use recap_server.DataBuffer.Endian.{le_bytes, write_le, write_be}
use recap_server.DataBuffer.Endian.HostFree.{write-host_free}

-- The buffer after 300 was written: the first write reserves 64 bytes.
abbrev with_300 : DataBuffer
with_300 = record { buffer = 172 ∷ 4 ∷ replicate 62 0; size = 2; position = 2 }

run_300 : encode_tdf_integer empty 300 ≡ some with_300
unfolding encode_tdf_integer write_u8 impl_write empty
run_300 = refl

-- The highest `uint64_t` takes ten bytes; its low 55 bits come back.
abbrev with_top : DataBuffer
with_top = record {
  buffer = 191 ∷ 255 ∷ 255 ∷ 255 ∷ 255 ∷ 255 ∷ 255 ∷ 255 ∷ 255 ∷ 3 ∷ replicate 54 0;
  size = 10;
  position = 10;
}

run_top : encode_tdf_integer empty 18446744073709551615 ≡ some with_top
unfolding encode_tdf_integer write_u8 impl_write empty
run_top = refl

decode-encode_example :
    decode_tdf_integer (set_position with_top 0)
    ≡ some (36028797018963967, record with_top { position = 8 })
unfolding empty tdf_bytes
decode-encode_example =
    decode-encode empty with_top 18446744073709551615 (omega arith) (omega arith) (omega arith)
      run_top (omega arith)

impl_write-Wrote_example :
    (b' : DataBuffer) × (impl_write empty (7 ∷ 8 ∷ []) ≡ some b') × Wrote empty (7 ∷ 8 ∷ []) b'
unfolding empty
impl_write-Wrote_example = impl_write-Wrote empty (7 ∷ 8 ∷ []) (omega arith) (omega arith)

abbrev four_bytes : DataBuffer
four_bytes = record { buffer = 1 ∷ 2 ∷ 3 ∷ 4 ∷ []; size = 4; position = 1 }

abbrev four_bytes-Unread : Unread four_bytes (2 ∷ 3 ∷ 4 ∷ [])
four_bytes-Unread = record { inside = omega arith; fits = omega arith; left = refl }

write-host_free_example :
    (write_le true 4 empty 0x1020304 ≡ impl_write empty (4 ∷ 3 ∷ 2 ∷ 1 ∷ []))
    × (write_be true 4 empty 0x1020304 ≡ impl_write empty (1 ∷ 2 ∷ 3 ∷ 4 ∷ []))
unfolding le_bytes
write-host_free_example = write-host_free true 4 empty 0x1020304
