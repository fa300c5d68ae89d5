-- ===== src/Creature/Template.antt =====
-- SporeNet::TemplateCreature and the lookups of TemplateDatabase (SporeNet/Creature.cpp), over an
-- abstract float and double.
use Prim.Native.String.{String}
use recap_server.Prelude.{
  ℕ, zero, suc, ◌==◌, Bool, List, [], ◌∷◌, Option, none, some, ◌>>=◌, if◌then◌else◌,
}
use recap_server.Creature.Kinds.{
  CreatureType, CreatureClass, CreatureParts, type_to_string, type_from_string, class_to_string,
  class_from_string, parts_to_string, parts_from_string,
}
use recap_server.Creature.StatTexts.{Stats, load_stats, print_stats}
use recap_server.Utils.Hash.{hash_id}
use recap_server.Utils.Numbers.{to_string}
use recap_server.Utils.Strings.{same}
use recap_server.Utils.Xml.{Xml, Named, Text, get_text, add_text, add_texts}

-- `float` and `double`, with `to_number` and `std::to_string`.
pub record Floats : Type 1 where
  pub Float : Type 0
  pub Double : Type 0
  pub to_float : Text → Float
  pub to_double : Text → Double
  pub float_to_string : Float → Text
  pub double_to_string : Double → Text

-- An array at an index.
unfoldable pub at : List ℕ → ℕ → ℕ
at [] index = 0
at (a ∷ items) zero = a
at (a ∷ items) (suc index) = at items index

module _ (fl : Floats) where
  open fl use {Float, Double, to_float, to_double, float_to_string, double_to_string}

  pub record TemplateCreature : Type 0 where
    pub stats : List Stats
    pub ability : List ℕ
    pub name_locale_id : Text
    pub text_locale_id : Text
    pub name : Text
    pub base_weapon_damage_min : Double
    pub base_weapon_damage_max : Double
    pub gear_score : Float
    pub noun : ℕ
    pub type : CreatureType
    pub class : CreatureClass
    pub equipable_parts : CreatureParts

  -- TemplateCreature::GetAbility.
  unfoldable pub get_ability : TemplateCreature → ℕ → ℕ
  unfolding at
  get_ability t index = at t.ability index

  -- The first loop over the stats has no effect: the second clears them.
  unfoldable pub read :
      (xml : Xml) → Named xml → TemplateCreature → xml.Node → Option TemplateCreature
  unfolding get_text hash_id load_stats type_from_string class_from_string parts_from_string
  read xml named t n = load_stats (get_text xml n "stats_template") >>= λ stats. some (record t {
    stats = stats;
    name_locale_id = get_text xml n "name_locale_id";
    text_locale_id = get_text xml n "text_locale_id";
    name = get_text xml n "name";
    base_weapon_damage_min = to_double (get_text xml n "weapon_min_damage");
    base_weapon_damage_max = to_double (get_text xml n "weapon_max_damage");
    gear_score = to_float (get_text xml n "gear_score");
    noun = hash_id (named.string n "noun");
    type = type_from_string (get_text xml n "type_a");
    class = class_from_string (get_text xml n "class");
    equipable_parts = parts_from_string (get_text xml n "creature_parts");
  })

  entries : TemplateCreature → List (String × Text)
  unfolding type_to_string class_to_string parts_to_string print_stats
  entries t =
      ("name_locale_id", t.name_locale_id)
      ∷ ("text_locale_id", t.text_locale_id)
      ∷ ("name", t.name)
      ∷ ("type_a", type_to_string t.type)
      ∷ ("weapon_min_damage", double_to_string t.base_weapon_damage_min)
      ∷ ("weapon_max_damage", double_to_string t.base_weapon_damage_max)
      ∷ ("gear_score", float_to_string t.gear_score)
      ∷ ("class", class_to_string t.class)
      ∷ ("creature_parts", parts_to_string t.equipable_parts)
      ∷ ("stats_template", print_stats t.stats)
      ∷ []

  ability_entries : TemplateCreature → List (String × Text)
  unfolding at
  ability_entries t =
      ("ability_basic", to_string (at t.ability 0))
      ∷ ("ability_special_1", to_string (at t.ability 1))
      ∷ ("ability_special_2", to_string (at t.ability 2))
      ∷ ("ability_random", to_string (at t.ability 3))
      ∷ ("ability_passive", to_string (at t.ability 4))
      ∷ []

  module _ (xml : Xml) where
    open xml use {Node, element, append_child}

    write_ids : Node → List ℕ → Node
    unfolding add_text
    write_ids n [] = n
    write_ids n (id ∷ ids) = write_ids (add_text xml n "id" (to_string id)) ids

    -- TemplateCreature::WriteApi.
    unfoldable pub write_api : Node → TemplateCreature → Bool → Node
    unfolding entries ability_entries write_ids add_texts
    write_api n t include_abilities =
        let written = add_texts xml n (entries t) in
        if include_abilities
        then append_child (add_texts xml written (ability_entries t))
            (write_ids (element "ability") t.ability)
        else written

  -- The database, in the order in which the unordered_map is gone through.
  abbrev pub TemplateDatabase : Type 0
  TemplateDatabase = List (Text × TemplateCreature)

  unfoldable pub get_by_name : TemplateDatabase → Text → Option TemplateCreature
  get_by_name [] name = none
  get_by_name ((k, t) ∷ rest) name = if same k name then some t else get_by_name rest name

  unfoldable pub get_by_noun : TemplateDatabase → ℕ → Option TemplateCreature
  get_by_noun [] noun = none
  get_by_noun ((k, t) ∷ rest) noun = if t.noun == noun then some t else get_by_noun rest noun

  -- TemplateDatabase::List.
  unfoldable pub list : TemplateDatabase → List TemplateCreature
  list [] = []
  list ((k, t) ∷ rest) = t ∷ list rest
