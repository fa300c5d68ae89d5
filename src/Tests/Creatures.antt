-- ===== src/Tests/Creatures.antt =====
-- Creatures and their stats at small inputs, with naturals for the floats.
use recap_server.Prelude.{
  ℕ, ◌≡◌, refl, List, [], ◌∷◌, ◌++◌, some, none, arith, if◌then◌else◌, ◌==◌, ◌>>=◌, map,
}
use recap_server.Prelude.Bytes.{u64_mod}
use recap_server.Utils.CText.{c_string}
use recap_server.Utils.Explode.{explode_string}
use recap_server.Utils.Hash.{codes}
use recap_server.Utils.Numbers.{to_number, to_string}
use recap_server.Utils.Xml.{first_child}
use recap_server.Utils.XmlTree.{xml_tree, named_tree}
use recap_server.Creature.Kinds.{bio, ravager, no_feet, no_type, type_from_string}
use recap_server.Creature.StatTexts.{Stats, parse_stats, load_stats, print_stats}
use recap_server.Creature.StatTexts.RoundTrip.{
  all_complete, parse_stats-print_stats, load_stats-parse_stats,
}
use recap_server.Creature.Template.{
  Floats, TemplateCreature, TemplateDatabase, get_by_noun, get_by_name,
}
use recap_server.Creature.{Creature, new, get, add, read_creatures, write_creatures}
use recap_server.Creature.Adds.{created, get-add}
use recap_server.Creature.Storage.{reloaded, read_creatures-write_creatures}

abbrev naturals : Floats
naturals = record {
  Float = ℕ;
  Double = ℕ;
  to_float = to_number u64_mod;
  to_double = to_number u64_mod;
  float_to_string = to_string;
  double_to_string = to_string;
}

abbrev strength : Stats
strength = record { stat_name = codes "STR"; max_value = 14; current_value = 0 }

abbrev health : Stats
health = record { stat_name = codes "HLTH"; max_value = 100; current_value = 70 }

parse_stats-print_stats_example :
    parse_stats (print_stats (strength ∷ health ∷ [])) ≡ strength ∷ health ∷ []
parse_stats-print_stats_example = parse_stats-print_stats (strength ∷ health ∷ []) (
  record {
    no_comma = (omega arith, (omega arith, (omega arith, tt)));
    no_semicolon = (omega arith, (omega arith, (omega arith, tt)));
    max_small = omega arith;
    current_small = omega arith;
  },
  (
    record {
      no_comma = (omega arith, (omega arith, (omega arith, (omega arith, tt))));
      no_semicolon = (omega arith, (omega arith, (omega arith, (omega arith, tt))));
      max_small = omega arith;
      current_small = omega arith;
    },
    tt,
  ),
)

-- The second stat has two parts.
abbrev torn : List ℕ
torn = codes "STR,14,0;HLTH,100;"

load_stats-parse_stats_example :
    load_stats torn
    ≡ (if all_complete (explode_string b';' torn) then some (parse_stats torn) else none)
load_stats-parse_stats_example = load_stats-parse_stats torn

torn_faults : load_stats torn ≡ none
unfolding load_stats
torn_faults = refl

torn_skips : parse_stats torn ≡ strength ∷ []
unfolding parse_stats to_number
torn_skips = refl

any_case : type_from_string (codes "CyBer") ≡ type_from_string (codes "cyber")
unfolding type_from_string
any_case = refl

misspelt : type_from_string (codes "cyborg") ≡ no_type
unfolding type_from_string
misspelt = refl

abbrev blitz : TemplateCreature naturals
blitz = record {
  stats = strength ∷ [];
  ability = 1 ∷ 2 ∷ 3 ∷ 4 ∷ 5 ∷ [];
  name_locale_id = codes "a";
  text_locale_id = codes "b";
  name = codes "blitz";
  base_weapon_damage_min = 1;
  base_weapon_damage_max = 2;
  gear_score = 0;
  noun = 1667741389;
  type = bio;
  class = ravager;
  equipable_parts = no_feet;
}

abbrev database : TemplateDatabase naturals
database = (codes "blitz", blitz) ∷ []

abbrev first : Creature naturals
first = created naturals 0 300 database blitz 1

get-add_example : get naturals (add naturals 0 300 database (first ∷ []) 1667741389).0 2 ≡ (
    if (add naturals 0 300 database (first ∷ []) 1667741389).1 == 2
    then some (
        created naturals 0 300 database blitz
          (add naturals 0 300 database (first ∷ []) 1667741389).1)
    else get naturals (first ∷ []) 2)
unfolding get_by_noun
get-add_example =
    get-add naturals 0 300 database (first ∷ []) 1667741389 blitz refl (omega arith, tt)
      (omega arith) 2

-- A noun without a template.
unknown : add naturals 0 300 database (first ∷ []) 7 ≡ (first ∷ [], 0)
unfolding add
unknown = refl

read_creatures-write_creatures_example :
    (write_creatures naturals 0 300 xml_tree named_tree (xml_tree.element "user") (first ∷ [])
      >>= λ e. some (read_creatures naturals 0 300 xml_tree named_tree database [] e))
    ≡ some ([] ++ map (reloaded naturals 0 300 database) (first ∷ []))
unfolding first_child get_by_name new to_number to_string c_string
read_creatures-write_creatures_example =
    read_creatures-write_creatures naturals 0 300 database xml_tree named_tree
      (xml_tree.element "user") [] (first ∷ []) refl
      (
        (
          blitz,
          record {
            template = refl;
            listed = refl;
            id = omega arith;
            version = omega arith;
            gear_score = refl;
            item_points = refl;
            png_large_url = refl;
            png_thumb_url = refl;
          },
        ),
        tt,
      )
