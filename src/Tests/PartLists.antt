-- ===== src/Tests/PartLists.antt =====
-- SporeNet::Part at small inputs.
use recap_server.Prelude.{◌≡◌, refl, false, some, [], ◌∷◌, arith}
use recap_server.Utils.Hash.{codes, hash_id}
use recap_server.Utils.Xml.{first_child}
use recap_server.Utils.XmlTree.{xml_tree}
use recap_server.Part.{new, of_xml, read_parts, write_parts}
use recap_server.Json.{standard, standard-IsRapidjson}
use recap_server.Part.Documents.{of_json, write_json, stripped, of_json-write_json}
use recap_server.Part.Ids.{HasAssets, made-HasAssets}
use recap_server.Part.Storage.{IsValid, read_parts-write_parts}

-- The file of the first rigblock, in any case.
hash_id_case :
    hash_id (codes "_Generated/LootRigblock1.LootRigblock")
    ≡ hash_id (codes "_generated/lootrigblock1.lootrigblock")
unfolding hash_id
hash_id_case = refl

made-HasAssets_example :
    HasAssets (new 4000) × HasAssets (of_xml xml_tree (xml_tree.element "junk"))
made-HasAssets_example = made-HasAssets xml_tree (xml_tree.element "junk") 4000

new-IsValid : IsValid (new 7)
unfolding new
new-IsValid = record {
  assets = (made-HasAssets xml_tree (xml_tree.element "part") 7).0;
  timestamp = omega arith;
  cost = omega arith;
  creature = omega arith;
  level = omega arith;
  rarity = omega arith;
  market_status = omega arith;
  status = omega arith;
  usage = omega arith;
}

read_parts-write_parts_example :
    read_parts xml_tree [] (write_parts xml_tree (xml_tree.element "user") (new 7 ∷ []))
    ≡ new 7 ∷ []
unfolding first_child
read_parts-write_parts_example =
    read_parts-write_parts xml_tree (xml_tree.element "user") [] (new 7 ∷ []) refl (new-IsValid, tt)

of_json-write_json_example :
    of_json standard (write_json standard (new 7) 3 false) ≡ some (stripped (new 7))
of_json-write_json_example = of_json-write_json standard standard-IsRapidjson (new 7) 3 new-IsValid
