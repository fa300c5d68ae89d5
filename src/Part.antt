-- ===== src/Part.antt =====
-- SporeNet::Part and SporeNet::Parts (SporeNet/Part.h and Part.cpp): the parts that a user owns.
-- The rarity is the number of the enumerator, as it is stored.
pub mod Ids
pub mod Storage
pub mod Setters
pub mod Documents
use Prim.Native.String.{String}
use text.Mathlib.Text.{◌==◌ as str_eq}
use recap_server.Prelude.{
  ℕ, ◌+◌, ◌%◌, Bool, true, false, not, ◌&&◌, ◌||◌, List, [], ◌∷◌, ◌++◌, Option, none, some, leb,
  ltb, if◌then◌else◌, map,
}
use recap_server.Prelude.Bytes.{u8_mod, u16_mod, u32_mod, u64_mod}
use recap_server.Utils.Hash.{codes, hash_id}
use recap_server.Utils.Numbers.{to_number, to_bool, to_string, bool_to_string}
use recap_server.Utils.Xml.{Xml, Text, child, get_text, add_texts}

pub record Part : Type 0 where
  pub timestamp : ℕ
  pub rigblock_asset_hash : ℕ
  pub prefix_asset_hash : ℕ
  pub prefix_secondary_asset_hash : ℕ
  pub suffix_asset_hash : ℕ
  pub cost : ℕ
  pub equipped_to_creature_id : ℕ
  pub rigblock_asset_id : ℕ
  pub prefix_asset_id : ℕ
  pub prefix_secondary_asset_id : ℕ
  pub suffix_asset_id : ℕ
  pub level : ℕ
  pub rarity : ℕ
  pub market_status : ℕ
  pub status : ℕ
  pub usage : ℕ
  pub is_flair : Bool

-- The default member initialisers.
abbrev blank : Part
blank = record {
  timestamp = 0;
  rigblock_asset_hash = 0;
  prefix_asset_hash = 0;
  prefix_secondary_asset_hash = 0;
  suffix_asset_hash = 0;
  cost = 0;
  equipped_to_creature_id = 0;
  rigblock_asset_id = 0;
  prefix_asset_id = 0;
  prefix_secondary_asset_id = 0;
  suffix_asset_id = 0;
  level = 0;
  rarity = 0;
  market_status = 0;
  status = 0;
  usage = 0;
  is_flair = false;
}

-- The file that an asset number stands for, and its hash.
asset_hash : String → ℕ → String → ℕ
asset_hash folder id extension = hash_id (codes folder ++ (to_string id ++ codes extension))

pub rigblock_hash : ℕ → ℕ
rigblock_hash id = asset_hash "_Generated/LootRigblock" id ".LootRigblock"

pub prefix_hash : ℕ → ℕ
prefix_hash id =
    if ltb 0 id then asset_hash "_Generated/LootPrefix" id ".LootPrefix" else hash_id []

pub suffix_hash : ℕ → ℕ
suffix_hash id =
    if ltb 0 id then asset_hash "_Generated/LootSuffix" id ".LootSuffix" else hash_id []

in_range : ℕ → ℕ → ℕ → Bool
in_range lo hi n = leb lo n && leb n hi

-- The argument is a `uint16_t`.
unfoldable pub set_rigblock : Part → ℕ → Part
unfolding in_range
set_rigblock p rigblock =
    let id =
      if not (in_range 1 1573 rigblock) && not (in_range 10001 10835 rigblock)
      then 1
      else rigblock in
    record p { rigblock_asset_id = id; rigblock_asset_hash = rigblock_hash id }

unfoldable pub set_prefix : Part → ℕ → Bool → Part
unfolding in_range
set_prefix p prefix secondary =
    let id = if not (in_range 1 338 prefix) then 0 else prefix in
    if secondary
    then record p { prefix_secondary_asset_id = id; prefix_secondary_asset_hash = prefix_hash id }
    else record p { prefix_asset_id = id; prefix_asset_hash = prefix_hash id }

unfoldable pub set_suffix : Part → ℕ → Part
unfolding in_range
set_suffix p suffix =
    let id =
      if not (in_range 1 83 suffix) && not (in_range 10001 10275 suffix) then 0 else suffix in
    record p { suffix_asset_id = id; suffix_asset_hash = suffix_hash id }

-- The four calls in a row, on arguments that are narrowed to `uint16_t`.
pub set_assets : Part → ℕ → ℕ → ℕ → ℕ → Part
unfolding set_rigblock set_prefix set_suffix
set_assets p rigblock prefix secondary suffix =
    set_suffix
      (set_prefix (set_prefix (set_rigblock p (rigblock % u16_mod)) (prefix % u16_mod) false)
        (secondary % u16_mod) true)
      (suffix % u16_mod)

-- Part::Part(uint32_t).
unfoldable pub new : ℕ → Part
unfolding set_assets
new rigblock = set_assets blank rigblock 0 0 0

module _ (xml : Xml) where
  open xml use {Node, name, children, element, append_child}

  -- The assignments of Part::Read.
  read_fields : Part → Node → Part
  unfolding set_assets
  read_fields p n =
      let number = λ (modulus : ℕ) (k : String). to_number modulus (get_text xml n k) in
      set_assets
        (record p {
          is_flair = to_bool (get_text xml n "is_flair");
          cost = number u32_mod "cost";
          equipped_to_creature_id = number u32_mod "creature_id";
          level = number u16_mod "level";
          market_status = number u8_mod "market_status";
          rarity = number u8_mod "rarity";
          status = number u8_mod "status";
          usage = number u8_mod "usage";
          timestamp = number u64_mod "creation_date";
        })
        (number u32_mod "rigblock_asset_id") (number u32_mod "prefix_asset_id")
        (number u32_mod "prefix_secondary_asset_id") (number u32_mod "suffix_asset_id")

  -- Part::Read(const pugi::xml_node&).
  unfoldable pub read : Part → Node → Part × Bool
  unfolding read_fields
  read p n = if not (str_eq (name n) "part") then (p, false) else (read_fields p n, true)

  -- Part::Part(const pugi::xml_node&).
  unfoldable pub of_xml : Node → Part
  unfolding read
  of_xml n = let r = read blank n in if not r.1 then set_assets r.0 1 0 0 0 else r.0

  entries : Part → List (String × Text)
  entries p =
      ("is_flair", bool_to_string p.is_flair)
      ∷ ("cost", to_string p.cost)
      ∷ ("creature_id", to_string p.equipped_to_creature_id)
      ∷ ("level", to_string p.level)
      ∷ ("market_status", to_string p.market_status)
      ∷ ("rarity", to_string p.rarity)
      ∷ ("status", to_string p.status)
      ∷ ("usage", to_string p.usage)
      ∷ ("creation_date", to_string p.timestamp)
      ∷ ("rigblock_asset_id", to_string p.rigblock_asset_id)
      ∷ ("prefix_asset_id", to_string p.prefix_asset_id)
      ∷ ("prefix_secondary_asset_id", to_string p.prefix_secondary_asset_id)
      ∷ ("suffix_asset_id", to_string p.suffix_asset_id)
      ∷ []

  -- Part::Write(pugi::xml_node&).
  unfoldable pub write : Node → Part → Node
  unfolding entries
  write n p = append_child n (add_texts xml (element "part") (entries p))

  offer_entries : Part → ℕ → List (String × Text)
  offer_entries p index =
      ("cost", to_string p.cost)
      ∷ ("level", to_string p.level)
      ∷ ("prefix_asset_id", to_string p.prefix_asset_hash)
      ∷ ("prefix_secondary_asset_id", to_string p.prefix_secondary_asset_hash)
      ∷ ("rarity", to_string p.rarity)
      ∷ ("reference_id", to_string index)
      ∷ ("rigblock_asset_id", to_string p.rigblock_asset_hash)
      ∷ ("suffix_asset_id", to_string p.suffix_asset_hash)
      ∷ []

  owned_entries : Part → ℕ → List (String × Text)
  owned_entries p index =
      ("is_flair", bool_to_string p.is_flair)
      ∷ ("cost", to_string p.cost)
      ∷ ("creature_id", to_string p.equipped_to_creature_id)
      ∷ ("id", to_string index)
      ∷ ("level", to_string p.level)
      ∷ ("market_status", to_string p.market_status)
      ∷ ("prefix_asset_id", to_string p.prefix_asset_hash)
      ∷ ("prefix_secondary_asset_id", to_string p.prefix_secondary_asset_hash)
      ∷ ("rarity", to_string p.rarity)
      ∷ ("reference_id", to_string index)
      ∷ ("rigblock_asset_id", to_string p.rigblock_asset_hash)
      ∷ ("status", to_string p.status)
      ∷ ("suffix_asset_id", to_string p.suffix_asset_hash)
      ∷ ("usage", to_string p.usage)
      ∷ ("creation_date", to_string p.timestamp)
      ∷ []

  -- Part::WriteApi.
  unfoldable pub write_api : Node → Part → ℕ → Bool → Node
  unfolding offer_entries owned_entries
  write_api n p index offer = append_child n (
      add_texts xml (element "part")
        (if offer then offer_entries p index else owned_entries p index))

  -- The loop of Parts::Read over the children of `parts`.
  read_each : List Part → List Node → List Part
  unfolding of_xml
  read_each items [] = items
  read_each items (c ∷ cs) = read_each (items ++ of_xml c ∷ []) cs

  -- Parts::Read.
  unfoldable pub read_parts : List Part → Node → List Part
  unfolding read_each
  read_parts items n = elim (child xml n "parts") [
    | none ↦ items
    | some parts ↦ read_each items (children parts)
  ]

  -- The loop of Parts::Write.
  write_each : Node → List Part → Node
  unfolding write
  write_each parts [] = parts
  write_each parts (p ∷ ps) = write_each (write parts p) ps

  -- Parts::Write.
  unfoldable pub write_parts : Node → List Part → Node
  unfolding write_each
  write_parts n items = append_child n (write_each (element "parts") items)

  -- The loop of Parts::WriteApi: `++index` before each part, on `uint32_t`.
  write_api_each : Node → ℕ → List Part → Bool → Node
  unfolding write_api
  write_api_each parts index [] offer = parts
  write_api_each parts index (p ∷ ps) offer =
      let next = (index + 1) % u32_mod in
      write_api_each (write_api parts p next offer) next ps offer

  -- Parts::WriteApi.
  unfoldable pub write_parts_api : Node → List Part → Bool → Node
  unfolding write_api_each
  write_parts_api n items offer = append_child n (write_api_each (element "parts") 0 items offer)

-- Parts::AddPart.
unfoldable pub add_part : List Part → Part → List Part
add_part items p = items ++ p ∷ []
