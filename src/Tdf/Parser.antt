-- ===== src/Tdf/Parser.antt =====
-- The class Parser of Blaze/TDF: bytes back to a document. `none` is a value that is indeterminate,
-- since the bytes for it are not there, an assertion of rapidjson that fails, or fuel that runs out.
-- The member `mHeader` is only logged.
pub mod Reads
mod Cases
mod Steps
pub mod Parses
use recap_server.Prelude.{
  ℕ, zero, suc, Bool, true, false, List, [], ◌∷◌, Option, none, some, ◌==◌, if◌then◌else◌, ◌>>=◌,
  replicate, ltb,
}
use recap_server.DataBuffer.{DataBuffer, impl_read, eof, skip}
use recap_server.DataBuffer.Varint.{read_u8, peek_u8}
use recap_server.Json.{
  Json, null, boolean, number, text, array, object, Items, nil, cons, Members, end, member,
  Rapidjson,
}
use recap_server.Tdf.Codec.{
  TdfType, Header, of_number, type_number, integer, string, binary, struct, list, dictionary,
  tagged_union, integer_list, object_type, object_id, float, time_value, other, read_header,
  read_integer, read_string, max_size,
}
use recap_server.Tdf.Keys.{
  key_type, key_content, key_list_type, key_list_size, key_stub, key_key_type, key_value_type,
  key_map_size, key_address_member, key_x, key_y, key_z,
}
use recap_server.Tdf.Packet.{described}
use recap_server.Utils.Numbers.{to_string}

abbrev pub Reader : Type 0 → Type 0
Reader A = DataBuffer → Option (A × DataBuffer)

-- Two reads in a row.
infixl 5 ◌>>>◌
abbrev pub ◌>>>◌ : {A B : Type 0} → Reader A → (A → Reader B) → Reader B
◌>>>◌ r s b = r b >>= λ p. s p.0 p.1

abbrev pub return : {A : Type 0} → A → Reader A
return a b = some (a, b)

unfoldable pub read_number : Reader Json
unfolding read_integer
read_number = read_integer >>> λ n. return (number n)

unfoldable pub read_text : Reader Json
unfolding read_string
read_text = read_string >>> λ s. return (text s)

-- The characters of a blob. Where they are not there, the string keeps its zeros.
unfoldable pub read_chars : ℕ → Reader (List ℕ)
unfolding impl_read
read_chars n b =
    let (got, b') = impl_read b n in
    let chars : List ℕ = elim got [ none ↦ replicate n 0 | some cs ↦ cs ] in
    if ltb 0 n then (if ltb max_size n then none else some (chars, b')) else some ([], b)

unfoldable pub read_blob : Reader Json
unfolding read_integer read_chars
read_blob = read_integer >>> λ n. read_chars n >>> λ s. return (text s)

-- The byte matters for a list of structs only.
unfoldable pub is_stub : TdfType → DataBuffer → Option Bool
unfolding peek_u8
is_stub struct b = peek_u8 b >>= λ x. some (x == 0x02)
is_stub type b = some false

-- A key of a map as a name. One that is neither an integer nor a text is no name: `AddMember` asserts.
unfoldable pub key_name : TdfType → Json → Option (List ℕ)
unfolding to_string
key_name integer (number n) = some (to_string n)
key_name type (text s) = some s
key_name type v = none

-- `json` is the library.
module _ (json : Rapidjson) where
  -- AddObject: a name that is there gets the new value.
  unfoldable pub add_object : List ℕ → Json → Json → Json
  add_object label v (object ms) = elim (json.find label ms) [
    | some w ↦ object (json.assign label v ms)
    | none ↦ object (json.add ms label v)
  ]
  add_object label v (array xs) = array (json.push xs v)
  add_object label v parent = parent

  -- `n` times, from `i = 0` on: each value goes to the end of the content.
  unfoldable pub read_each : Reader Json → ℕ → Items → Reader Items
  read_each r zero xs = return xs
  read_each r (suc n) xs = r >>> λ v. read_each r n (json.push xs v)

  unfoldable pub read_integer_list : Reader Json
  unfolding read_u8 read_each read_number described
  read_integer_list = read_u8 >>> λ n. read_each read_number n nil >>> λ xs.
      return
        (described json integer_list ((key_list_size, number n) ∷ (key_content, array xs) ∷ []))

  unfoldable pub read_object_type : Reader Json
  unfolding read_number described
  read_object_type = read_number >>> λ x.
      read_number >>> λ y. return (described json object_type ((key_x, x) ∷ (key_y, y) ∷ []))

  unfoldable pub read_object_id : Reader Json
  unfolding read_number described
  read_object_id = read_number >>> λ x. read_number >>> λ y. read_number >>> λ z.
      return (described json object_id ((key_x, x) ∷ (key_y, y) ∷ (key_z, z) ∷ []))

  -- A list with its type, its size and its items.
  unfoldable pub list_json : ℕ → ℕ → Bool → Json → Json
  unfolding described
  list_json type n stub content = described json list (
      (key_list_type, number type)
      ∷ (key_list_size, number n)
      ∷ (key_stub, boolean stub)
      ∷ (key_content, content)
      ∷ [])

  -- ReadStruct: `_Type` is in the object before the members. `loop` is the loop up to a zero byte.
  unfoldable pub read_struct : (Json → Reader Json) → Reader Json
  unfolding skip described
  read_struct loop b = loop (described json struct []) b >>= λ p. some (p.0, skip p.1 1)

  unfoldable pub union_json : ℕ → Json
  unfolding described
  union_json n = described json tagged_union ((key_address_member, number n) ∷ [])

  -- `r` is ReadStruct.
  module _ (r : Reader Json) where
    -- GetMapItem. Other types have no value.
    unfoldable pub read_map_item : TdfType → Reader Json
    unfolding read_number read_text
    read_map_item integer = read_number
    read_map_item string = read_text
    read_map_item struct = r
    read_map_item type = return null

    unfoldable pub read_entries : TdfType → TdfType → ℕ → Members → Reader Members
    unfolding read_map_item key_name
    read_entries key_t value_t zero ms = return ms
    read_entries key_t value_t (suc n) ms = read_map_item key_t >>> λ k.
        read_map_item value_t >>> λ v'.
        λ b. (key_name key_t k >>= λ name. read_entries key_t value_t n (json.add ms name v') b)

    unfoldable pub read_map : Reader Json
    unfolding read_u8 read_entries described
    read_map = read_u8 >>> λ key_t. read_u8 >>> λ value_t. read_u8 >>> λ n.
        read_entries (of_number key_t) (of_number value_t) n end >>> λ ms. return (
          described json dictionary (
            (key_key_type, number key_t)
            ∷ (key_value_type, number value_t)
            ∷ (key_map_size, number n)
            ∷ (key_content, object ms)
            ∷ []))

    -- The items of a list that is no stub. Other types have no items.
    unfoldable pub read_items : TdfType → ℕ → Reader Items
    unfolding read_each read_number read_text
    read_items integer n = read_each read_number n nil
    read_items string n = read_each read_text n nil
    read_items struct n = read_each r n nil
    read_items type n = return nil

    -- `loop` is the loop up to a zero byte, into a parent.
    module _ (loop : Json → Reader Json) where
      -- A stub is a list of structs with 0x02 at its beginning: values with headers up to a zero byte.
      unfoldable pub read_content : ℕ → ℕ → Bool → Reader Json
      unfolding read_items list_json skip
      read_content type n true b =
          loop (array nil) (skip b 1) >>= λ p. some (list_json type n true p.0, skip p.1 1)
      read_content type n false b =
          read_items (of_number type) n b >>= λ p. some (list_json type n false (array p.0), p.1)

      unfoldable pub read_list : Reader Json
      unfolding read_u8 is_stub read_content
      read_list = read_u8 >>> λ type.
          read_u8 >>> λ n. λ b. (is_stub (of_number type) b >>= λ stub. read_content type n stub b)

  -- `v` is ReadValue into a parent.
  unfoldable pub read_union : (Json → Reader Json) → Reader Json
  unfolding read_u8 union_json
  read_union v = read_u8 >>> λ n. if n == 0x7F then return (union_json n) else v (union_json n)

  module _ (r : Reader Json) (v : Json → Reader Json) (loop : Json → Reader Json) where
    -- The cases of ReadValue that read a value: `none` inside is a type that is not known.
    unfoldable pub read_case : TdfType → Reader (Option Json)
    unfolding read_number read_text read_blob read_union read_list read_map read_integer_list
        read_object_type read_object_id
    read_case integer = read_number >>> λ j. return (some j)
    read_case string = read_text >>> λ j. return (some j)
    read_case binary = read_blob >>> λ j. return (some j)
    read_case struct = r >>> λ j. return (some j)
    read_case tagged_union = read_union v >>> λ j. return (some j)
    read_case list = read_list r loop >>> λ j. return (some j)
    read_case dictionary = read_map r >>> λ j. return (some j)
    read_case integer_list = read_integer_list >>> λ j. return (some j)
    read_case object_type = read_object_type >>> λ j. return (some j)
    read_case object_id = read_object_id >>> λ j. return (some j)
    read_case float = return none
    read_case time_value = return none
    read_case (other n) = return none

  unfoldable pub add_read : List ℕ → Json → Option Json → Json
  unfolding add_object
  add_read label parent none = parent
  add_read label parent (some j) = add_object label j parent

module _ (json : Rapidjson) (big : Bool) where
  -- ReadValue after the header. At the end of the buffer the header is dropped.
  unfoldable pub after_header :
      (TdfType → Reader (Option Json))
      → Json
      → Option Header × DataBuffer
      → Option (Json × DataBuffer)
  unfolding eof add_read
  after_header cases parent (got, b) =
      if eof b
      then some (parent, b)
      else (got >>= λ h. cases h.type b >>= λ p. some (add_read json h.label parent p.0, p.1))

  unfoldable mutual
    unfolding after_header read_case read_header read_struct peek_u8

    -- ReadValue, with the parent that it adds to.
    pub read_value : ℕ → Json → Reader Json
    read_value zero parent b = none
    read_value (suc f) parent b =
        after_header (read_case json (read_struct_value f) (read_value f) (read_until_zero f))
          parent (read_header big b)

    -- `while (buffer.peek<uint8_t>() != 0x00) ReadValue(buffer, value);`
    pub read_until_zero : ℕ → Json → Reader Json
    read_until_zero zero parent b = none
    read_until_zero (suc f) parent b =
        let more = read_value f parent b >>= λ p. read_until_zero f p.0 p.1 in
        peek_u8 b >>= λ x. if x == 0 then some (parent, b) else more

    -- ReadStruct.
    pub read_struct_value : ℕ → Reader Json
    read_struct_value zero b = none
    read_struct_value (suc f) b = read_struct json (read_until_zero f) b

  -- The loop of Read, `while (!buffer.eof())`.
  unfoldable pub read_all : ℕ → Json → Reader Json
  unfolding eof read_value
  read_all zero parent b = none
  read_all (suc f) parent b =
      let more = read_value f parent b >>= λ p. read_all f p.0 p.1 in
      if eof b then some (parent, b) else more

  unfoldable pub read : ℕ → Reader Json
  unfolding read_all
  read f b = read_all f (object end) b
