-- ===== src/Part/Documents.antt =====
-- A Part as a JSON object (SporeNet/Part.cpp), over the rapidjson library.
use native.Mathlib.Nat.{mod-eq_of_lt}
use recap_server.Prelude.{
  ℕ, ◌<◌, ◌≡◌, ap, subst, Bool, true, false, not, List, [], ◌∷◌, ◌++◌, Option, some, ◌>>=◌,
  if◌then◌else◌, ltb, arith,
}
use recap_server.Prelude.Bytes.{u16_mod, u32_mod}
use recap_server.Json.{
  Json, number, object, Members, end, Rapidjson, IsRapidjson, IsRapidjson-standard, standard, build,
}
use recap_server.Utils.Hash.{codes}
use recap_server.Utils.JsonFields.{uint, found_uint, get_uint, get_uint16, get_uint8}
use recap_server.Part.{Part, blank, set_assets}
use recap_server.Part.Storage.{IsValid, with_assets_of, set_assets-HasAssets_of}

module _ (json : Rapidjson) where
  -- The assignments of Part::Read.
  read_members : Part → Members → Option Part
  unfolding get_uint get_uint16 get_uint8
  read_members p ms = do
    cost ← get_uint json ms (codes "cost")
    level ← get_uint16 json ms (codes "level")
    market_status ← get_uint8 json ms (codes "market_status")
    rarity ← get_uint8 json ms (codes "rarity")
    usage ← get_uint8 json ms (codes "usage")
    rigblock ← get_uint16 json ms (codes "rigblock_asset_id")
    prefix ← get_uint16 json ms (codes "prefix_asset_id")
    secondary ← get_uint16 json ms (codes "prefix_secondary_asset_id")
    suffix ← get_uint16 json ms (codes "suffix_asset_id")
    some (
        set_assets
          (record p {
            cost = cost;
            level = level;
            market_status = market_status;
            rarity = rarity;
            usage = usage;
          })
          rigblock prefix secondary suffix)

  -- Part::Read(rapidjson::Value&).
  unfoldable pub read_json : Part → Json → Option (Part × Bool)
  unfolding read_members
  read_json p (object ms) = read_members p ms >>= λ q. some (q, true)
  read_json p other = some (p, false)

  -- Part::Part(rapidjson::Value&).
  unfoldable pub of_json : Json → Option Part
  unfolding read_json
  of_json v = read_json blank v >>= λ r. some (if not r.1 then set_assets r.0 1 0 0 0 else r.0)

  plain_entries : Part → List (List ℕ × Json)
  plain_entries p =
      (codes "cost", number p.cost)
      ∷ (codes "level", number p.level)
      ∷ (codes "market_status", number p.market_status)
      ∷ (codes "rarity", number p.rarity)
      ∷ (codes "usage", number p.usage)
      ∷ []

  api_entries : Part → ℕ → List (List ℕ × Json)
  api_entries p index =
      (codes "id", number index)
      ∷ (codes "reference_id", number index)
      ∷ (codes "rigblock_asset_id", number p.rigblock_asset_hash)
      ∷ (codes "prefix_asset_id", number p.prefix_asset_hash)
      ∷ (codes "prefix_secondary_asset_id", number p.prefix_secondary_asset_hash)
      ∷ (codes "suffix_asset_id", number p.suffix_asset_hash)
      ∷ []

  asset_entries : Part → List (List ℕ × Json)
  asset_entries p =
      (codes "rigblock_asset_id", number p.rigblock_asset_id)
      ∷ (codes "prefix_asset_id", number p.prefix_asset_id)
      ∷ (codes "prefix_secondary_asset_id", number p.prefix_secondary_asset_id)
      ∷ (codes "suffix_asset_id", number p.suffix_asset_id)
      ∷ []

  -- Part::Write(allocator, index, api).
  unfoldable pub write_json : Part → ℕ → Bool → Json
  unfolding plain_entries api_entries asset_entries build
  write_json p index api =
      object
        (build json end (plain_entries p ++ (if api then api_entries p index else asset_entries p)))

-- What is not written is as in a new part.
abbrev pub stripped : Part → Part
stripped p = record p { timestamp = 0; equipped_to_creature_id = 0; status = 0; is_flair = false }

fits : (n : ℕ) → n < u32_mod → ltb n u32_mod ≡ true
fits n h = ground (arith, h)

standard_round :
    (p : Part) (index : ℕ)
    → IsValid p
    → of_json standard (write_json standard p index false) ≡ some (stripped p)
unfolding of_json write_json read_json read_members get_uint get_uint16 get_uint8 found_uint uint
    with_assets_of
standard_round p index v =
    let h = v.assets in
    let r : p.rigblock_asset_id < u16_mod = ground (arith, h.rigblock) in
    let f : p.prefix_asset_id < u16_mod = omega (arith, h.prefix) in
    let s : p.prefix_secondary_asset_id < u16_mod = omega (arith, h.secondary) in
    let x : p.suffix_asset_id < u16_mod = ground (arith, h.suffix) in
    let cost = fits p.cost v.cost in
    let level = fits p.level (omega (arith, v.level)) in
    let market = fits p.market_status (omega (arith, v.market_status)) in
    let rarity = fits p.rarity (omega (arith, v.rarity)) in
    let usage = fits p.usage (omega (arith, v.usage)) in
    let rigblock = fits p.rigblock_asset_id (omega (arith, r)) in
    let prefix = fits p.prefix_asset_id (omega (arith, f)) in
    let secondary = fits p.prefix_secondary_asset_id (omega (arith, s)) in
    let suffix = fits p.suffix_asset_id (omega (arith, x)) in
    rw (cost, level, market, rarity, usage, rigblock, prefix, secondary, suffix)
      (rw
        (
          mod-eq_of_lt v.level,
          mod-eq_of_lt v.market_status,
          mod-eq_of_lt v.rarity,
          mod-eq_of_lt v.usage,
          mod-eq_of_lt r,
          mod-eq_of_lt f,
          mod-eq_of_lt s,
          mod-eq_of_lt x,
        )
        (ap some (
          set_assets-HasAssets_of
            (record blank {
              cost = p.cost;
              level = p.level;
              market_status = p.market_status;
              rarity = p.rarity;
              usage = p.usage;
            })
            p h)))

-- Over a JSON library that behaves as documented, a part that is constructed from the JSON object
-- that Part::Write makes of a part, not for the API, is this part without its creation date,
-- creature, status and flair, if its numbers are values of their types and its assets are in order.
pub of_json-write_json :
    (json : Rapidjson) (lib : IsRapidjson json) (p : Part) (index : ℕ)
    → IsValid p
    → of_json json (write_json json p index false) ≡ some (stripped p)
of_json-write_json json lib p index v =
    subst (λ j. of_json j (write_json j p index false) ≡ some (stripped p))
      (IsRapidjson-standard lib) (standard_round p index v)
