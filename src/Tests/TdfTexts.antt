-- ===== src/Tests/TdfTexts.antt =====
-- The TDF encoding at small inputs.
use recap_server.Prelude.{◌≡◌, refl, false, [], ◌∷◌, some, arith, take, replicate}
use recap_server.DataBuffer.{DataBuffer, empty, impl_write}
use recap_server.DataBuffer.Endian.{write_native}
use recap_server.Utils.Hash.{codes}
use recap_server.Tdf.Labels.{compress_label, decompress_label, IsLabel, decompress-compress}
use recap_server.Tdf.Codec.{write_header, read_header, string}
use recap_server.Tdf.Codec.RoundTrip.{read_header-write_header}

abbrev name-IsLabel : IsLabel (codes "NAME")
name-IsLabel = (
  omega arith,
  omega arith,
  (omega arith, omega arith, (omega arith, omega arith, (omega arith, omega arith, tt))),
)

decompress-compress_example :
    decompress_label (compress_label (codes "NAME")) ≡ take 4 (codes "NAME")
decompress-compress_example = decompress-compress (codes "NAME") name-IsLabel

-- The text "hi", and one more byte.
abbrev with_hi : DataBuffer
with_hi = record { buffer = 3 ∷ 104 ∷ 105 ∷ 0 ∷ 9 ∷ []; size = 5; position = 0 }

-- The header of a string called NAME.
abbrev with_name : DataBuffer
with_name = record { buffer = 186 ∷ 27 ∷ 101 ∷ 1 ∷ replicate 60 0; size = 4; position = 4 }

run_name : write_header false empty (codes "NAME") string ≡ some with_name
unfolding write_header write_native impl_write empty
run_name = refl

read_header-write_header_example :
    read_header false (record with_name { position = 0 })
    ≡ (some (record { label = take 4 (codes "NAME"); type = string }), with_name)
unfolding empty
read_header-write_header_example =
    read_header-write_header false empty (omega arith) (codes "NAME") string with_name name-IsLabel
      refl (omega arith) run_name (omega arith)
