-- ===== src/Tdf/Tree.antt =====
-- The values of the TDF encoding as trees, apart from any document: what the calls on a Packet
-- describe and what a Parser finds. Lists are of numbers, texts or plain structs, and maps take texts
-- to texts; lists of stubs and of object identifiers and other maps are left out.
pub mod Wire
pub mod RoundTrip
use recap_server.Prelude.{ℕ, suc, false, List, [], ◌∷◌, length}
use recap_server.Json.{
  Json, boolean, number, text, array, object, Items, nil, cons, Members, end, member,
  append_members,
}
use recap_server.Tdf.Codec.{
  TdfType, type_number, integer, string, binary, struct, list, dictionary, tagged_union,
  integer_list, object_type, object_id,
}
use recap_server.Tdf.Keys.{
  key_type, key_content, key_list_type, key_list_size, key_stub, key_key_type, key_value_type,
  key_map_size, key_address_member, key_x, key_y, key_z,
}

mutual
  pub data Tdf : Type 0 where
    num : ℕ → Tdf
    str : List ℕ → Tdf
    blob : List ℕ → Tdf
    structure : Fields → Tdf
    unset : Tdf
    choice : ℕ → List ℕ → Tdf → Tdf
    integers : List ℕ → Tdf
    pair : ℕ → ℕ → Tdf
    triple : ℕ → ℕ → ℕ → Tdf
    number_items : List ℕ → Tdf
    text_items : List (List ℕ) → Tdf
    struct_items : Structs → Tdf
    text_map : List (List ℕ × List ℕ) → Tdf

  -- Labels with their values.
  pub data Fields : Type 0 where
    last : Fields
    entry : List ℕ → Tdf → Fields → Fields

  pub data Structs : Type 0 where
    no_more : Structs
    more : Fields → Structs → Structs

abbrev pub type_of : Tdf → TdfType
type_of (num v) = integer
type_of (str s) = string
type_of (blob s) = binary
type_of (structure fs) = struct
type_of unset = tagged_union
type_of (choice n l t) = tagged_union
type_of (integers xs) = integer_list
type_of (pair x y) = object_type
type_of (triple x y z) = object_id
type_of (number_items xs) = list
type_of (text_items ss) = list
type_of (struct_items ss) = list
type_of (text_map es) = dictionary

abbrev pub count_structs : Structs → ℕ
count_structs no_more = 0
count_structs (more fs ss) = suc (count_structs ss)

abbrev pub numbers : List ℕ → Items
numbers [] = nil
numbers (x ∷ xs) = cons (number x) (numbers xs)

abbrev pub texts : List (List ℕ) → Items
texts [] = nil
texts (s ∷ ss) = cons (text s) (texts ss)

abbrev pub text_members : List (List ℕ × List ℕ) → Members
text_members [] = end
text_members ((k, s) ∷ es) = member k (text s) (text_members es)

abbrev pub type_member : TdfType → Members → Members
type_member t ms = member key_type (number (type_number t)) ms

-- A value in the document of a Packet, under `_Content`.
abbrev pub wrapped : TdfType → Members → Json → Members → Json
wrapped t front content back =
    object (type_member t (append_members front (member key_content content back)))

abbrev pub address : ℕ → Members
address n = member key_address_member (number n) end

abbrev pub list_of : TdfType → Items → Json
list_of t xs =
    wrapped list (member key_list_type (number (type_number t)) end) (array xs)
      (member key_stub (boolean false) end)

abbrev pub map_types : Members → Members
map_types ms =
    member key_key_type (number (type_number string))
      (member key_value_type (number (type_number string)) ms)

-- What a Packet holds for a value.
abbrev mutual
  pub packed : Tdf → Json
  packed (num v) = number v
  packed (str s) = text s
  packed (blob s) = wrapped binary end (text s) end
  packed (structure fs) = wrapped struct end (object (packed_fields fs)) end
  packed unset = wrapped tagged_union (address 127) (object end) end
  packed (choice n l t) = wrapped tagged_union (address n) (object (member l (packed t) end)) end
  packed (integers xs) = wrapped integer_list end (array (numbers xs)) end
  packed (pair x y) =
      object (type_member object_type (member key_x (number x) (member key_y (number y) end)))
  packed (triple x y z) = object (
      type_member object_id
        (member key_x (number x) (member key_y (number y) (member key_z (number z) end))))
  packed (number_items xs) = list_of integer (numbers xs)
  packed (text_items ss) = list_of string (texts ss)
  packed (struct_items ss) = list_of struct (packed_structs ss)
  packed (text_map es) = wrapped dictionary (map_types end) (object (text_members es)) end

  pub packed_fields : Fields → Members
  packed_fields last = end
  packed_fields (entry l t fs) = member l (packed t) (packed_fields fs)

  pub packed_structs : Structs → Items
  packed_structs no_more = nil
  packed_structs (more fs ss) =
      cons (wrapped struct end (object (packed_fields fs)) end) (packed_structs ss)

abbrev pub sized_list : TdfType → ℕ → Items → Json
sized_list t n xs = object (
    type_member list (
      member key_list_type (number (type_number t)) (
        member key_list_size (number n)
          (member key_stub (boolean false) (member key_content (array xs) end)))))

-- What a Parser makes of a value: fields stand beside `_Type`, and lists and maps have their size.
abbrev mutual
  pub parsed : Tdf → Json
  parsed (num v) = number v
  parsed (str s) = text s
  parsed (blob s) = text s
  parsed (structure fs) = object (type_member struct (parsed_fields fs))
  parsed unset = object (type_member tagged_union (address 127))
  parsed (choice n l t) =
      object
        (type_member tagged_union (member key_address_member (number n) (member l (parsed t) end)))
  parsed (integers xs) = object (
      type_member integer_list
        (member key_list_size (number (length xs)) (member key_content (array (numbers xs)) end)))
  parsed (pair x y) =
      object (type_member object_type (member key_x (number x) (member key_y (number y) end)))
  parsed (triple x y z) = object (
      type_member object_id
        (member key_x (number x) (member key_y (number y) (member key_z (number z) end))))
  parsed (number_items xs) = sized_list integer (length xs) (numbers xs)
  parsed (text_items ss) = sized_list string (length ss) (texts ss)
  parsed (struct_items ss) = sized_list struct (count_structs ss) (parsed_structs ss)
  parsed (text_map es) = object (
      type_member dictionary (
        map_types (
          member key_map_size (number (length es))
            (member key_content (object (text_members es)) end))))

  pub parsed_fields : Fields → Members
  parsed_fields last = end
  parsed_fields (entry l t fs) = member l (parsed t) (parsed_fields fs)

  pub parsed_structs : Structs → Items
  parsed_structs no_more = nil
  parsed_structs (more fs ss) =
      cons (object (type_member struct (parsed_fields fs))) (parsed_structs ss)
