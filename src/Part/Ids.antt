-- ===== src/Part/Ids.antt =====
-- The asset numbers of a part and the hashes of the files they stand for (SporeNet/Part.cpp).
use recap_server.Prelude.{ℕ, ◌≤◌, ◌≡◌, ◌⊎◌, Bool, arith, inl, inr, Bool-cases}
use text.Mathlib.Text.{◌==◌ as str_eq}
use recap_server.Prelude.Bytes.{u8_mod, u16_mod, u32_mod, u64_mod}
use recap_server.Utils.Numbers.{to_number, to_bool}
use recap_server.Utils.Xml.{Xml, get_text}
use recap_server.Part.{
  Part, blank, rigblock_hash, prefix_hash, suffix_hash, set_rigblock, set_prefix, set_suffix,
  set_assets, new, read_fields, read, of_xml,
}

pub record HasAssets (p : Part) : Type 0 where
  pub rigblock :
      ((1 ≤ p.rigblock_asset_id) × (p.rigblock_asset_id ≤ 1573))
      ⊎ ((10001 ≤ p.rigblock_asset_id) × (p.rigblock_asset_id ≤ 10835))
  pub prefix : p.prefix_asset_id ≤ 338
  pub secondary : p.prefix_secondary_asset_id ≤ 338
  pub suffix :
      (p.suffix_asset_id ≤ 83) ⊎ ((10001 ≤ p.suffix_asset_id) × (p.suffix_asset_id ≤ 10275))
  pub rigblock_hashed : p.rigblock_asset_hash ≡ rigblock_hash p.rigblock_asset_id
  pub prefix_hashed : p.prefix_asset_hash ≡ prefix_hash p.prefix_asset_id
  pub secondary_hashed : p.prefix_secondary_asset_hash ≡ prefix_hash p.prefix_secondary_asset_id
  pub suffix_hashed : p.suffix_asset_hash ≡ suffix_hash p.suffix_asset_id

-- Whatever the part was and whatever the four numbers are.
pub set_assets-HasAssets :
    (p : Part) (rigblock prefix secondary suffix : ℕ)
    → HasAssets (set_assets p rigblock prefix secondary suffix)
unfolding set_assets
set_assets-HasAssets p rigblock prefix secondary suffix = ground arith

-- SetRigblock, SetPrefix and SetSuffix keep the asset numbers of a part in their ranges and its
-- hashes those of the numbers, whatever number they are given.
setters-HasAssets :
    (p : Part) (n : ℕ) (secondary : Bool)
    → HasAssets p
    → HasAssets (set_rigblock p n)
      × HasAssets (set_prefix p n secondary)
      × HasAssets (set_suffix p n)
unfolding set_rigblock set_prefix set_suffix
setters-HasAssets p n secondary h = (ground arith, ground arith, ground arith)

read_fields-HasAssets : (xml : Xml) (p : Part) (n : xml.Node) → HasAssets (read_fields xml p n)
unfolding read_fields
read_fields-HasAssets xml p n =
    set_assets-HasAssets
      (record p {
        is_flair = to_bool (get_text xml n "is_flair");
        cost = to_number u32_mod (get_text xml n "cost");
        equipped_to_creature_id = to_number u32_mod (get_text xml n "creature_id");
        level = to_number u16_mod (get_text xml n "level");
        market_status = to_number u8_mod (get_text xml n "market_status");
        rarity = to_number u8_mod (get_text xml n "rarity");
        status = to_number u8_mod (get_text xml n "status");
        usage = to_number u8_mod (get_text xml n "usage");
        timestamp = to_number u64_mod (get_text xml n "creation_date");
      })
      (to_number u32_mod (get_text xml n "rigblock_asset_id"))
      (to_number u32_mod (get_text xml n "prefix_asset_id"))
      (to_number u32_mod (get_text xml n "prefix_secondary_asset_id"))
      (to_number u32_mod (get_text xml n "suffix_asset_id"))

-- A part that is constructed from a number or read from any XML element has its four asset numbers
-- in their ranges and the hashes of the files they stand for.
pub made-HasAssets :
    (xml : Xml) (n : xml.Node) (rigblock : ℕ) → HasAssets (new rigblock) × HasAssets (of_xml xml n)
unfolding new of_xml read
made-HasAssets xml n rigblock = (
  set_assets-HasAssets blank rigblock 0 0 0,
  elim (Bool-cases (str_eq (xml.name n) "part")) [
    | inl e ↦ rw e (read_fields-HasAssets xml blank n)
    | inr e ↦ rw e (set_assets-HasAssets blank 1 0 0 0)
  ],
)
