-- ===== src/Tdf/Codec.antt =====
-- The headers, integers and texts of Blaze/TDF.cpp. `big` says whether the host is big-endian. `|` of
-- a label below 2 ^ 24 and a type from bit 24 on is a sum.
pub mod RoundTrip
use recap_server.Prelude.{
  ℕ, ◌+◌, ◌-◌, ◌*◌, ◌/◌, ◌%◌, ◌^◌, Bool, List, [], ◌∷◌, Option, none, some, ltb, if◌then◌else◌,
  ◌>>=◌, ◌==◌, length, replicate,
}
use recap_server.Prelude.Bytes.{u64_mod}
use recap_server.DataBuffer.{DataBuffer, impl_read, impl_write, skip}
use recap_server.DataBuffer.Varint.{encode_tdf_integer, decode_tdf_integer, write_u8}
use recap_server.DataBuffer.Endian.{read_native, write_native}
use recap_server.Tdf.Labels.{compress_label, decompress_label}

-- The enumeration `Type`; a value that no enumerator has is `other`.
pub data TdfType : Type 0 where
  integer : TdfType
  string : TdfType
  binary : TdfType
  struct : TdfType
  list : TdfType
  dictionary : TdfType
  tagged_union : TdfType
  integer_list : TdfType
  object_type : TdfType
  object_id : TdfType
  float : TdfType
  time_value : TdfType
  other : ℕ → TdfType

abbrev pub type_number : TdfType → ℕ
type_number integer = 0
type_number string = 1
type_number binary = 2
type_number struct = 3
type_number list = 4
type_number dictionary = 5
type_number tagged_union = 6
type_number integer_list = 7
type_number object_type = 8
type_number object_id = 9
type_number float = 10
type_number time_value = 11
type_number (other n) = n

-- `static_cast<Type>`.
abbrev pub of_number : ℕ → TdfType
of_number n =
    if n == 0
    then integer
    else if n == 1
    then string
    else if n == 2
    then binary
    else if n == 3
    then struct
    else if n == 4
    then list
    else if n == 5
    then dictionary
    else if n == 6
    then tagged_union
    else if n == 7
    then integer_list
    else if n == 8
    then object_type
    else if n == 9
    then object_id
    else if n == 10
    then float
    else if n == 11
    then time_value
    else other n

pub record Header : Type 0 where
  pub label : List ℕ
  pub type : TdfType

module _ (big : Bool) where
  -- `none` is an indeterminate value.
  unfoldable pub read_header : DataBuffer → Option Header × DataBuffer
  unfolding read_native decompress_label
  read_header b =
      let (got, b') = read_native big 4 b in
      (
        got >>= λ v.
            some (record { label = decompress_label (v % 2 ^ 24); type = of_number (v / 2 ^ 24) }),
        b',
      )

  unfoldable pub write_header : DataBuffer → List ℕ → TdfType → Option DataBuffer
  unfolding write_native compress_label
  write_header b label type =
      write_native big 4 b (compress_label label + type_number type % 256 * 2 ^ 24)

  unfoldable pub write_union_header : DataBuffer → List ℕ → ℕ → Option DataBuffer
  unfolding write_header write_u8
  write_union_header b label member = write_header b label tagged_union >>= λ b'. write_u8 b' member

  unfoldable pub write_integer : DataBuffer → List ℕ → ℕ → Option DataBuffer
  unfolding write_header encode_tdf_integer
  write_integer b label v = write_header b label integer >>= λ b'. encode_tdf_integer b' v

  -- The text of a string: its length and one, its characters and a zero.
  unfoldable pub write_text : DataBuffer → List ℕ → Option DataBuffer
  unfolding encode_tdf_integer
  write_text b text = encode_tdf_integer b (length text + 1) >>= λ b'.
      (impl_write b' text >>= λ b''. impl_write b'' (0 ∷ []))

  unfoldable pub write_string : DataBuffer → List ℕ → List ℕ → Option DataBuffer
  unfolding write_header write_text
  write_string b label text = write_header b label string >>= λ b'. write_text b' text

unfoldable pub read_integer : DataBuffer → Option (ℕ × DataBuffer)
unfolding decode_tdf_integer
read_integer b = decode_tdf_integer b

-- `std::string::max_size()` of a 64-bit libstdc++: a longer `resize` throws.
abbrev pub max_size : ℕ
max_size = 2 ^ 63 - 1

-- The subtraction is on `uint64_t`. Where the characters are not there, the string keeps its zeros.
-- `none` where `resize` throws or the length is indeterminate.
unfoldable pub read_string : DataBuffer → Option (List ℕ × DataBuffer)
unfolding decode_tdf_integer impl_read skip
read_string b = decode_tdf_integer b >>= λ r.
    let n = (r.0 + (u64_mod - 1)) % u64_mod in
    let (got, b') = impl_read r.1 n in
    let text : List ℕ = elim got [ none ↦ replicate n 0 | some cs ↦ cs ] in
    if ltb 0 n
    then (if ltb max_size n then none else some (text, skip b' 1))
    else some ([], skip r.1 1)
