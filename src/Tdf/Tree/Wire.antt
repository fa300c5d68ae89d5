-- ===== src/Tdf/Tree/Wire.antt =====
-- The bytes of a tree, and which trees the encoding can hold.
use recap_server.Prelude.{
  ℕ, ◌+◌, ◌*◌, ◌%◌, ◌^◌, ◌<◌, ◌≤◌, ◌≡◌, ◌≢◌, Bool, List, [], ◌∷◌, ◌++◌, none, length,
}
use recap_server.Prelude.Bytes.{u16_mod}
use recap_server.DataBuffer.Varint.Septets.{tdf_bytes}
use recap_server.DataBuffer.Endian.{native_bytes}
use recap_server.Json.{Members, end, find_member, append_member}
use recap_server.Tdf.Codec.{TdfType, type_number, struct}
use recap_server.Tdf.Codec.RoundTrip.{text_bytes}
use recap_server.Tdf.Labels.{compress_label, IsLabel}
use recap_server.Tdf.Tree.{
  type_member, Tdf, num, str, blob, structure, unset, choice, integers, pair, triple, number_items,
  text_items, struct_items, text_map, Fields, last, entry, Structs, no_more, more, type_of,
  count_structs, parsed,
}

abbrev pub numbers_bytes : List ℕ → List ℕ
numbers_bytes [] = []
numbers_bytes (x ∷ xs) = tdf_bytes x ++ numbers_bytes xs

abbrev pub texts_bytes : List (List ℕ) → List ℕ
texts_bytes [] = []
texts_bytes (s ∷ ss) = text_bytes s ++ texts_bytes ss

abbrev pub entries_bytes : List (List ℕ × List ℕ) → List ℕ
entries_bytes [] = []
entries_bytes ((k, s) ∷ es) = (text_bytes k ++ text_bytes s) ++ entries_bytes es

module _ (big : Bool) where
  abbrev pub header_bytes : List ℕ → TdfType → List ℕ
  header_bytes label type =
      native_bytes big 4 (compress_label label + type_number type % 256 * 2 ^ 24)

  -- A value without its header.
  abbrev mutual
    pub bytes : Tdf → List ℕ
    bytes (num v) = tdf_bytes v
    bytes (str s) = text_bytes s
    bytes (blob s) = tdf_bytes (length s) ++ s
    bytes (structure fs) = fields_bytes fs ++ 0 ∷ []
    bytes unset = 127 ∷ []
    bytes (choice n l t) = (n ∷ []) ++ (header_bytes l (type_of t) ++ bytes t)
    bytes (integers xs) = (length xs ∷ []) ++ numbers_bytes xs
    bytes (pair x y) = tdf_bytes x ++ tdf_bytes y
    bytes (triple x y z) = tdf_bytes x ++ (tdf_bytes y ++ tdf_bytes z)
    bytes (number_items xs) = (0 ∷ []) ++ ((length xs ∷ []) ++ numbers_bytes xs)
    bytes (text_items ss) = (1 ∷ []) ++ ((length ss ∷ []) ++ texts_bytes ss)
    bytes (struct_items ss) = (3 ∷ []) ++ ((count_structs ss ∷ []) ++ structs_bytes ss)
    bytes (text_map es) = (1 ∷ []) ++ ((1 ∷ []) ++ ((length es ∷ []) ++ entries_bytes es))

    -- Values with their headers.
    pub fields_bytes : Fields → List ℕ
    fields_bytes last = []
    fields_bytes (entry l t fs) = (header_bytes l (type_of t) ++ bytes t) ++ fields_bytes fs

    pub structs_bytes : Structs → List ℕ
    structs_bytes no_more = []
    structs_bytes (more fs ss) = (fields_bytes fs ++ 0 ∷ []) ++ structs_bytes ss

-- No character is zero.
abbrev pub NoZero : List ℕ → Type 0
NoZero [] = Unit {0}
NoZero (c ∷ cs) = (0 < c) × NoZero cs

abbrev pub AllSmall : List ℕ → Type 0
AllSmall [] = Unit {0}
AllSmall (x ∷ xs) = (x < 2 ^ 55) × AllSmall xs

-- A text that fits, with no zero in it.
abbrev pub IsText : List ℕ → Type 0
IsText s = (length s + 1 < 2 ^ 55) × NoZero s

abbrev pub AllTexts : List (List ℕ) → Type 0
AllTexts [] = Unit {0}
AllTexts (s ∷ ss) = IsText s × AllTexts ss

abbrev pub AllEntries : List (List ℕ × List ℕ) → Type 0
AllEntries [] = Unit {0}
AllEntries ((k, s) ∷ es) = IsText k × IsText s × AllEntries es

-- One to four characters.
abbrev pub IsName : List ℕ → Type 0
IsName l = (0 < length l) × (length l ≤ 4) × IsLabel l

-- No label of the fields is in the object, or repeats.
abbrev pub Fresh : Members → Fields → Type 0
Fresh ms last = Unit {0}
Fresh ms (entry l t fs) = (find_member l ms ≡ none) × Fresh (append_member ms l (parsed t)) fs

abbrev mutual
  pub IsEncodable : Tdf → Type 0
  IsEncodable (num v) = v < 2 ^ 55
  IsEncodable (str s) = IsText s
  IsEncodable (blob s) = IsText s
  IsEncodable (structure fs) = EachEncodable fs × Fresh (type_member struct end) fs
  IsEncodable unset = Unit {0}
  IsEncodable (choice n l t) = (n < 256) × (n ≢ 127) × IsName l × IsEncodable t
  IsEncodable (integers xs) = (length xs < 256) × AllSmall xs
  IsEncodable (pair x y) = (x < u16_mod) × (y < u16_mod)
  IsEncodable (triple x y z) = (x < u16_mod) × (y < u16_mod) × (z < 2 ^ 55)
  IsEncodable (number_items xs) = (length xs < 256) × AllSmall xs
  IsEncodable (text_items ss) = (length ss < 256) × AllTexts ss
  IsEncodable (struct_items ss) = (0 < count_structs ss) × (count_structs ss < 256) × AllStructs ss
  IsEncodable (text_map es) = (length es < 256) × AllEntries es

  pub EachEncodable : Fields → Type 0
  EachEncodable last = Unit {0}
  EachEncodable (entry l t fs) = IsName l × IsEncodable t × EachEncodable fs

  pub AllStructs : Structs → Type 0
  AllStructs no_more = Unit {0}
  AllStructs (more fs ss) = EachEncodable fs × Fresh (type_member struct end) fs × AllStructs ss

-- Fuel that a tree needs.
abbrev mutual
  pub size : Tdf → ℕ
  size (structure fs) = 1 + size_fields fs
  size (choice n l t) = 2 + size t
  size (struct_items ss) = size_structs ss
  size t = 0

  pub size_fields : Fields → ℕ
  size_fields last = 1
  size_fields (entry l t fs) = 2 + (size t + size_fields fs)

  pub size_structs : Structs → ℕ
  size_structs no_more = 0
  size_structs (more fs ss) = 2 + (size_fields fs + size_structs ss)
