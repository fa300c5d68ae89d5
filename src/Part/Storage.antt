-- ===== src/Part/Storage.antt =====
-- Parts that are written and read back.
use Prim.Native.String.{String}
use recap_server.Prelude.{
  ℕ, ◌<◌, ◌≤◌, ◌≡◌, refl, ◌∙◌, ap, [], ◌∷◌, ◌++◌, List, true, some, none, arith, append_assoc,
  append-nil, sym, map,
}
use text.Mathlib.Text.{◌==◌ as str_eq}
use recap_server.Prelude.Bytes.{u8_mod, u16_mod, u32_mod, u64_mod}
use recap_server.Utils.CText.{c_string}
use recap_server.Utils.Numbers.{to_number, to_string, to_bool}
use recap_server.Utils.Numbers.RoundTrip.{
  c_string-to_string, c_string-bool_to_string, to_number-to_string, to_bool-bool_to_string,
}
use recap_server.Utils.Xml.{
  Xml, add_texts, get_text, get_text-add_texts, find_text, name-add_texts, child, first_child,
  first_child-last,
}
use recap_server.Part.{
  Part, blank, set_assets, read_fields, read, of_xml, entries, write, read_each, read_parts,
  write_each, write_parts,
}
use recap_server.Part.Ids.{HasAssets}

-- The numbers are values of their types, and the assets are in order.
pub record IsValid (p : Part) : Type 0 where
  pub assets : HasAssets p
  pub timestamp : p.timestamp < u64_mod
  pub cost : p.cost < u32_mod
  pub creature : p.equipped_to_creature_id < u32_mod
  pub level : p.level < u16_mod
  pub rarity : p.rarity < u8_mod
  pub market_status : p.market_status < u8_mod
  pub status : p.status < u8_mod
  pub usage : p.usage < u8_mod

abbrev AllValid : List Part → Type 0
AllValid [] = Unit {0}
AllValid (p ∷ ps) = IsValid p × AllValid ps

unfoldable pub with_assets_of : Part → Part → Part
with_assets_of q p = record q {
  rigblock_asset_id = p.rigblock_asset_id;
  rigblock_asset_hash = p.rigblock_asset_hash;
  prefix_asset_id = p.prefix_asset_id;
  prefix_asset_hash = p.prefix_asset_hash;
  prefix_secondary_asset_id = p.prefix_secondary_asset_id;
  prefix_secondary_asset_hash = p.prefix_secondary_asset_hash;
  suffix_asset_id = p.suffix_asset_id;
  suffix_asset_hash = p.suffix_asset_hash;
}

-- Numbers that are in their ranges are taken over.
pub set_assets-HasAssets_of :
    (q p : Part)
    → HasAssets p
    → set_assets q p.rigblock_asset_id p.prefix_asset_id p.prefix_secondary_asset_id
        p.suffix_asset_id
      ≡ with_assets_of q p
unfolding set_assets with_assets_of
set_assets-HasAssets_of q p h = ground arith

module _ (xml : Xml) where
  open xml use {Node, name, children, element, append_child}

  abbrev written : Part → Node
  written p = add_texts xml (element "part") (entries xml p)

  module _ (p : Part) (valid : IsValid p) where
    stored : (k : String) → get_text xml (written p) k ≡ c_string (find_text k (entries xml p))
    stored k =
        get_text-add_texts xml (element "part") (entries xml p) k (xml.children-element "part")

    number :
        (modulus : ℕ) (k : String) (v : ℕ)
        → v < modulus
        → modulus ≤ u64_mod
        → find_text k (entries xml p) ≡ to_string v
        → to_number modulus (get_text xml (written p) k) ≡ v
    number modulus k v h wide e =
        ap (to_number modulus) (stored k ∙ ap c_string e ∙ c_string-to_string v)
        ∙ to_number-to_string modulus v h wide

    -- The part before the four `Set…` calls of a read.
    plain : Part → Part
    plain q = record q {
      is_flair = to_bool (get_text xml (written p) "is_flair");
      cost = to_number u32_mod (get_text xml (written p) "cost");
      equipped_to_creature_id = to_number u32_mod (get_text xml (written p) "creature_id");
      level = to_number u16_mod (get_text xml (written p) "level");
      market_status = to_number u8_mod (get_text xml (written p) "market_status");
      rarity = to_number u8_mod (get_text xml (written p) "rarity");
      status = to_number u8_mod (get_text xml (written p) "status");
      usage = to_number u8_mod (get_text xml (written p) "usage");
      timestamp = to_number u64_mod (get_text xml (written p) "creation_date");
    }

    plain-fields : (q : Part) → with_assets_of (plain q) p ≡ p
    unfolding plain with_assets_of entries
    plain-fields q = λ i. record p {
      is_flair =
          (ap to_bool (stored "is_flair" ∙ c_string-bool_to_string p.is_flair)
              ∙ to_bool-bool_to_string p.is_flair)
            i;
      cost = number u32_mod "cost" p.cost valid.cost (omega arith) refl i;
      equipped_to_creature_id =
          number u32_mod "creature_id" p.equipped_to_creature_id valid.creature (omega arith) refl
            i;
      level = number u16_mod "level" p.level valid.level (omega arith) refl i;
      market_status =
          number u8_mod "market_status" p.market_status valid.market_status (omega arith) refl i;
      rarity = number u8_mod "rarity" p.rarity valid.rarity (omega arith) refl i;
      status = number u8_mod "status" p.status valid.status (omega arith) refl i;
      usage = number u8_mod "usage" p.usage valid.usage (omega arith) refl i;
      timestamp = number u64_mod "creation_date" p.timestamp valid.timestamp (omega arith) refl i;
    }

    asset :
        (k : String) (v : ℕ)
        → v < u16_mod
        → find_text k (entries xml p) ≡ to_string v
        → to_number u32_mod (get_text xml (written p) k) ≡ v
    asset k v h e = number u32_mod k v (omega arith) (omega arith) e

    read_fields-written : (q : Part) → read_fields xml q (written p) ≡ p
    unfolding read_fields entries plain
    read_fields-written q =
        let h = valid.assets in
        let r = asset "rigblock_asset_id" p.rigblock_asset_id (ground (arith, h.rigblock)) refl in
        let f = asset "prefix_asset_id" p.prefix_asset_id (omega (arith, h.prefix)) refl in
        let s =
          asset "prefix_secondary_asset_id" p.prefix_secondary_asset_id (omega (arith, h.secondary))
            refl in
        let x = asset "suffix_asset_id" p.suffix_asset_id (ground (arith, h.suffix)) refl in
        (λ i. set_assets (plain q) (r i) (f i) (s i) (x i))
        ∙ set_assets-HasAssets_of (plain q) p h
        ∙ plain-fields q

    -- A part that is written and read back is the same part.
    of_xml-written : of_xml xml (written p) ≡ p
    unfolding of_xml read
    of_xml-written =
        let n = name-add_texts xml (entries xml p) (element "part") ∙ xml.name-element "part" in
        let t : str_eq (name (written p)) "part" ≡ true = ap (λ k. str_eq k "part") n in
        rw t (read_fields-written blank)

  abbrev written_all : List Part → List Node
  written_all = map written

  children-write_each :
      (ps : List Part) (n : Node) → children (write_each xml n ps) ≡ children n ++ written_all ps
  unfolding write_each write
  children-write_each [] n = sym (append-nil (children n))
  children-write_each (p ∷ ps) n =
      children-write_each ps (append_child n (written p))
      ∙ ap (λ t. t ++ written_all ps) (xml.children-append_child n (written p))
      ∙ append_assoc (children n) (written p ∷ []) (written_all ps)

  name-write_each : (ps : List Part) (n : Node) → name (write_each xml n ps) ≡ name n
  unfolding write_each write
  name-write_each [] n = refl
  name-write_each (p ∷ ps) n =
      name-write_each ps (append_child n (written p)) ∙ xml.name-append_child n (written p)

  read_each-written :
      (ps items : List Part) → AllValid ps → read_each xml items (written_all ps) ≡ items ++ ps
  unfolding read_each
  read_each-written [] items h = sym (append-nil items)
  read_each-written (p ∷ ps) items (v, h) =
      ap (λ t. read_each xml (items ++ t ∷ []) (written_all ps)) (of_xml-written p v)
      ∙ read_each-written ps (items ++ p ∷ []) h
      ∙ append_assoc items (p ∷ []) ps

  -- Parts::Read after Parts::Write into an element that had no child "parts" puts the written parts
  -- behind those that were there, if each written part has its numbers in their types and its assets
  -- in order.
  pub read_parts-write_parts :
      (n : Node) (items ps : List Part)
      → child xml n "parts" ≡ none
      → AllValid ps
      → read_parts xml items (write_parts xml n ps) ≡ items ++ ps
  unfolding read_parts write_parts
  read_parts-write_parts n items ps absent valid =
      let whole = write_each xml (element "parts") ps in
      let tag = name-write_each ps (element "parts") ∙ xml.name-element "parts" in
      let found : child xml (append_child n whole) "parts" ≡ some whole =
        ap (first_child xml "parts") (xml.children-append_child n whole)
        ∙ first_child-last xml "parts" (children n) whole absent (ap (λ k. str_eq k "parts") tag) in
      let inside : children whole ≡ written_all ps =
        children-write_each ps (element "parts")
        ∙ ap (λ t. t ++ written_all ps) (xml.children-element "parts") in
      rw (found, read_parts) (ap (read_each xml items) inside ∙ read_each-written ps items valid)
