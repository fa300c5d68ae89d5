-- ===== src/Tests/Squads.antt =====
-- The squads of a user at small inputs.
use recap_server.Prelude.{
  ℕ, ◌≡◌, refl, true, false, List, [], ◌∷◌, ◌++◌, some, arith, ◌==◌, if◌then◌else◌, ◌>>=◌,
}
use recap_server.Utils.Hash.{codes}
use recap_server.Utils.Explode.{explode_string}
use recap_server.Utils.CText.{c_string}
use recap_server.Utils.Numbers.{to_number}
use recap_server.Utils.Xml.{first_child}
use recap_server.Utils.XmlTree.{xml_tree, numbered_tree}
use recap_server.Squad.{
  wanted, Squad, update, update_squad, get_squad_by_id, load_squads, save_squads,
}
use recap_server.Squad.Storage.{IsValid, load_squads-save_squads}
use recap_server.Squad.Updates.{placed, overlay, get_squad-update_squad}

abbrev heroes : Squad
heroes = record {
  creature_ids = 7 ∷ 9 ∷ 0 ∷ [];
  name = codes "Slot 2";
  category = codes "pve";
  id = 2;
  slot = 2;
  locked = false;
}

heroes-IsValid : IsValid heroes
unfolding c_string
heroes-IsValid = record {
  places = refl;
  ids = (omega arith, (omega arith, (omega arith, tt)));
  id = omega arith;
  slot = omega arith;
  name = refl;
  category = refl;
}

load_squads-save_squads_example :
    load_squads xml_tree numbered_tree []
      (save_squads xml_tree numbered_tree (xml_tree.element "user") (heroes ∷ []))
    ≡ [] ++ heroes ∷ []
unfolding first_child
load_squads-save_squads_example =
    load_squads-save_squads xml_tree numbered_tree (xml_tree.element "user") [] (heroes ∷ []) refl
      (heroes-IsValid, tt)

abbrev list : List ℕ
list = codes "4,0,5,6"

get_squad-update_squad_example :
    get_squad_by_id (update_squad (4 ∷ 6 ∷ []) (heroes ∷ []) 2 list) 2 ≡ (
      if 2 == 2
      then (get_squad_by_id (heroes ∷ []) 2 >>= λ s. some (record s {
        creature_ids = overlay s.creature_ids 0 (placed (4 ∷ 6 ∷ []) (explode_string b',' list));
      }))
      else get_squad_by_id (heroes ∷ []) 2)
unfolding placed explode_string to_number wanted
get_squad-update_squad_example =
    get_squad-update_squad (4 ∷ 6 ∷ []) (heroes ∷ []) 2 2 list (omega arith)

-- The creature 5 is not owned, and the third place keeps its number.
updated :
    update_squad (4 ∷ 6 ∷ []) (heroes ∷ []) 2 list
    ≡ record heroes { creature_ids = 4 ∷ 6 ∷ 0 ∷ [] } ∷ []
unfolding update_squad to_number
updated = refl

-- Squad::Update takes any positive number.
taken :
    update heroes (codes "1,0,x,4") true
    ≡ record heroes { creature_ids = 1 ∷ 9 ∷ 0 ∷ []; category = codes "pvp" }
unfolding update to_number
taken = refl
