-- ===== src/Tdf/Packet/Write.antt =====
-- Packet::Write: the document of a packet on the wire. `none` is an assertion of rapidjson that
-- fails, an exception, or fuel that runs out.
use recap_server.Prelude.{
  ℕ, zero, suc, ◌+◌, ◌-◌, ◌*◌, ◌%◌, Bool, true, false, List, [], ◌∷◌, Option, none, some, ◌==◌,
  ◌&&◌, ◌||◌, leb, ltb, if◌then◌else◌, ◌>>=◌, length,
}
use recap_server.Prelude.Bytes.{u32_mod, u64_mod}
use recap_server.DataBuffer.{DataBuffer, impl_write}
use recap_server.DataBuffer.Varint.{encode_tdf_integer, write_u8}
use recap_server.Utils.CText.{c_string}
use recap_server.Json.{
  Json, boolean, number, text, array, object, Items, nil, cons, Members, end, member, Rapidjson,
  count_items, count_members,
}
use recap_server.Tdf.Codec.{
  TdfType, of_number, integer, string, binary, struct, list, dictionary, tagged_union, integer_list,
  object_type, object_id, float, time_value, other, write_header, write_text,
}
use recap_server.Tdf.Keys.{
  key_type, key_content, key_list_type, key_stub, key_key_type, key_value_type, key_address_member,
  key_x, key_y, key_z,
}

unfoldable pub get_uint64 : Json → Option ℕ
get_uint64 (number n) = some n
get_uint64 v = none

-- `GetUint` asserts that the number has 32 bits.
unfoldable pub get_uint : Json → Option ℕ
get_uint (number n) = if ltb n u32_mod then some n else none
get_uint v = none

unfoldable pub get_bool : Json → Option Bool
get_bool (boolean b) = some b
get_bool v = none

unfoldable pub get_array : Json → Option Items
get_array (array xs) = some xs
get_array v = none

unfoldable pub get_object : Json → Option Members
get_object (object ms) = some ms
get_object v = none

unfoldable pub get_string : Json → Option (List ℕ)
unfolding c_string
get_string (text s) = some (c_string s)
get_string v = none

-- A digit of `std::stoull`.
digit : ℕ → ℕ
digit c =
    if leb b'0' c && leb c b'9'
    then c - b'0'
    else if leb b'a' c && leb c b'z'
    then c - b'a' + 10
    else if leb b'A' c && leb c b'Z'
    then c - b'A' + 10
    else 99

-- The digits up to the first other character. `none` is a value out of range.
digits : ℕ → ℕ → List ℕ → Option ℕ
unfolding digit
digits base acc [] = if ltb acc u64_mod then some acc else none
digits base acc (c ∷ cs) =
    let rest = digits base (acc * base + digit c) cs in
    if ltb (digit c) base then rest else if ltb acc u64_mod then some acc else none

-- Digits of a base, of which there is one at least.
number_in : ℕ → List ℕ → Option ℕ
unfolding digit digits
number_in base [] = none
number_in base (c ∷ cs) = if ltb (digit c) base then digits base 0 (c ∷ cs) else none

is_hex : List ℕ → Bool
unfolding digit
is_hex (a ∷ x ∷ d ∷ cs) = a == b'0' && (x == b'x' || x == b'X') && ltb (digit d) 16
is_hex cs = false

after_two : List ℕ → List ℕ
after_two (a ∷ x ∷ cs) = cs
after_two cs = []

is_octal : List ℕ → Bool
is_octal (a ∷ cs) = a == b'0'
is_octal [] = false

magnitude : List ℕ → Option ℕ
unfolding is_hex after_two is_octal number_in
magnitude cs =
    if is_hex cs
    then number_in 16 (after_two cs)
    else if is_octal cs
    then number_in 8 cs
    else number_in 10 cs

-- The value under a minus sign wraps.
negated : Option ℕ → Option ℕ
negated n = n >>= λ k. some ((u64_mod - k) % u64_mod)

-- `std::stoull(text, nullptr, 0)`: spaces, a sign, and digits of the base that the prefix names.
unfoldable pub stoull : List ℕ → Option ℕ
unfolding magnitude negated
stoull [] = none
stoull (c ∷ cs) =
    let rest = stoull cs in
    if c == 32 || (leb 9 c && leb c 13)
    then rest
    else if c == b'-'
    then negated (magnitude cs)
    else if c == b'+'
    then magnitude cs
    else magnitude (c ∷ cs)

-- Each in turn, on the buffer that the one before leaves.
unfoldable pub each_member :
    (List ℕ → Json → DataBuffer → Option DataBuffer) → Members → DataBuffer → Option DataBuffer
each_member w end b = some b
each_member w (member name v ms) b = w name v b >>= λ b'. each_member w ms b'

unfoldable pub each_item :
    (Json → DataBuffer → Option DataBuffer) → Items → DataBuffer → Option DataBuffer
each_item w nil b = some b
each_item w (cons v xs) b = w v b >>= λ b'. each_item w xs b'

-- The first `n` of them, `for (uint8_t i = 0; i < n; ++i)`.
unfoldable pub first_items :
    (Json → DataBuffer → Option DataBuffer) → ℕ → Items → DataBuffer → Option DataBuffer
first_items w zero xs b = some b
first_items w (suc n) nil b = none
first_items w (suc n) (cons v xs) b = w v b >>= λ b'. first_items w n xs b'

unfoldable pub encode_item : Json → DataBuffer → Option DataBuffer
unfolding get_uint64 encode_tdf_integer
encode_item v b = get_uint64 v >>= λ n. encode_tdf_integer b n

-- A text has its number read out of it.
write_number : Json → DataBuffer → Option DataBuffer
unfolding encode_item c_string stoull
write_number (text s) b = stoull (c_string s) >>= λ n. encode_tdf_integer b n
write_number v b = encode_item v b

-- A key of a map and its value, where `t` is WriteType without a name.
unfoldable pub write_entry :
    (TdfType → Json → DataBuffer → Option DataBuffer)
    → TdfType
    → TdfType
    → List ℕ
    → Json
    → DataBuffer
    → Option DataBuffer
write_entry t key_t value_t name v b = t key_t (text name) b >>= λ b'. t value_t v b'

-- `json` is the library.
module _ (json : Rapidjson) where
  -- `value[key]`.
  unfoldable pub get_member : List ℕ → Json → Option Json
  get_member key (object ms) = json.find key ms
  get_member key v = none

  encode_field : List ℕ → Json → DataBuffer → Option DataBuffer
  unfolding encode_item get_member
  encode_field key v b = get_member key v >>= λ n. encode_item n b

  write_blob : Json → DataBuffer → Option DataBuffer
  unfolding get_member get_string encode_tdf_integer
  write_blob v b = get_member key_content v >>= λ c.
      get_string c >>= λ s. encode_tdf_integer b (length s) >>= λ b'. impl_write b' s

  write_integer_list : Json → DataBuffer → Option DataBuffer
  unfolding get_member get_array encode_item first_items
  write_integer_list v b = get_member key_content v >>= λ c. get_array c >>= λ xs.
      write_u8 b (count_items xs % 256) >>= λ b'.
      first_items encode_item (count_items xs % 256) xs b'

  write_object_type : Json → DataBuffer → Option DataBuffer
  unfolding encode_field
  write_object_type v b = encode_field key_x v b >>= λ b'. encode_field key_y v b'

  write_object_id : Json → DataBuffer → Option DataBuffer
  unfolding encode_field
  write_object_id v b =
      encode_field key_x v b >>= λ b'. encode_field key_y v b' >>= λ b''. encode_field key_z v b''

  -- `w` is Write with a name, and `t` is WriteType without one.
  module _ (w : List ℕ → Json → DataBuffer → Option DataBuffer)
      (t : TdfType → Json → DataBuffer → Option DataBuffer) where
    write_union : Json → DataBuffer → Option DataBuffer
    unfolding get_member get_uint get_object each_member
    write_union v b = get_member key_address_member v >>= λ a. get_uint a >>= λ n.
        write_u8 b (n % 256) >>= λ b'.
        (if n == 0x7F
          then some b'
          else (get_member key_content v >>= λ c. get_object c >>= λ ms. each_member w ms b'))

    write_struct : Json → DataBuffer → Option DataBuffer
    unfolding get_member get_object each_member
    write_struct v b = get_member key_content v >>= λ c.
        get_object c >>= λ ms. each_member w ms b >>= λ b'. write_u8 b' 0

    write_items : Bool → TdfType → Items → DataBuffer → Option DataBuffer
    unfolding each_item first_items
    write_items true type xs b = write_u8 b 2 >>= λ b'. each_item (t type) xs b'
    write_items false type xs b = first_items (t type) (count_items xs % 256) xs b

    write_list : Json → DataBuffer → Option DataBuffer
    unfolding get_member get_array get_uint get_bool write_items
    write_list v b = get_member key_content v >>= λ c. get_array c >>= λ xs.
        get_member key_list_type v >>= λ l. get_uint l >>= λ type. write_u8 b (type % 256) >>= λ b'.
        write_u8 b' (count_items xs % 256) >>= λ b''. get_member key_stub v >>= λ s.
        get_bool s >>= λ stub. write_items stub (of_number type) xs b''

    write_map : Json → DataBuffer → Option DataBuffer
    unfolding get_member get_object get_uint each_member write_entry
    write_map v b = get_member key_content v >>= λ c. get_object c >>= λ ms.
        get_member key_key_type v >>= λ k. get_uint k >>= λ key_t.
        write_u8 b (key_t % 256) >>= λ b'. get_member key_value_type v >>= λ l.
        get_uint l >>= λ value_t. write_u8 b' (value_t % 256) >>= λ b''.
        write_u8 b'' (count_members ms % 256) >>= λ b'''.
        each_member (write_entry t (of_number key_t) (of_number value_t)) ms b'''

module _ (big : Bool) where
  write_string_value : Json → DataBuffer → Option DataBuffer
  unfolding get_string write_text
  write_string_value v b = get_string v >>= λ s. write_text big b s

  -- A missing name is `none`.
  unfoldable pub write_name : Option (List ℕ) → TdfType → DataBuffer → Option DataBuffer
  unfolding c_string write_header
  write_name none type b = some b
  write_name (some name) type b = write_header big b (c_string name) type

module _ (json : Rapidjson) (big : Bool) where
  module _ (w : List ℕ → Json → DataBuffer → Option DataBuffer)
      (t : TdfType → Json → DataBuffer → Option DataBuffer) where
    -- The cases of WriteType. A type that it does not know writes nothing.
    unfoldable pub write_value : TdfType → Json → DataBuffer → Option DataBuffer
    unfolding write_number write_string_value write_blob write_integer_list write_union write_struct
        write_list write_map write_object_type write_object_id
    write_value integer v b = write_number v b
    write_value string v b = write_string_value big v b
    write_value binary v b = write_blob json v b
    write_value struct v b = write_struct json w t v b
    write_value list v b = write_list json w t v b
    write_value dictionary v b = write_map json w t v b
    write_value tagged_union v b = write_union json w t v b
    write_value integer_list v b = write_integer_list json v b
    write_value object_type v b = write_object_type json v b
    write_value object_id v b = write_object_id json v b
    write_value float v b = some b
    write_value time_value v b = some b
    write_value (other n) v b = some b

  -- Write: which type a value has on the wire. `t` is WriteType, and `w` is Write.
  write_by :
      (TdfType → Option (List ℕ) → Json → DataBuffer → Option DataBuffer)
      → (Option (List ℕ) → Json → DataBuffer → Option DataBuffer)
      → Option (List ℕ)
      → Json
      → DataBuffer
      → Option DataBuffer
  unfolding get_member get_uint each_item
  write_by t w name (object ms) b =
      json.find key_type ms >>= λ n. get_uint n >>= λ type. t (of_number type) name (object ms) b
  write_by t w name (array xs) b = each_item (w none) xs b
  write_by t w name (text s) b = t string name (text s) b
  write_by t w name v b = t integer name v b

  unfoldable mutual
    unfolding write_by write_value write_name

    pub write : ℕ → Option (List ℕ) → Json → DataBuffer → Option DataBuffer
    write zero name v b = none
    write (suc f) name v b = write_by (write_type f) (write f) name v b

    pub write_type : ℕ → TdfType → Option (List ℕ) → Json → DataBuffer → Option DataBuffer
    write_type zero type name v b = none
    write_type (suc f) type name v b = write_name big name type b >>= λ b'.
        write_value (λ n. write f (some n)) (λ t. write_type f t none) type v b'

  -- `Write(buffer)`: the members of the document.
  unfoldable pub write_document : ℕ → Json → DataBuffer → Option DataBuffer
  unfolding get_object each_member write
  write_document f d b = get_object d >>= λ ms. each_member (λ n. write f (some n)) ms b
