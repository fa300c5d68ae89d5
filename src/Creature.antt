-- ===== src/Creature.antt =====
-- SporeNet::Creature and the creatures of a user (SporeNet/Creature.cpp), over the templates of
-- Creature/Template.
pub mod Adds
pub mod Kinds
pub mod StatTexts
pub mod Storage
pub mod Template
use Prim.Native.String.{String}
use text.Mathlib.Text.{◌==◌ as str_eq}
use recap_server.Prelude.{
  ℕ, ◌+◌, ◌%◌, ◌==◌, Bool, true, false, List, [], ◌∷◌, ◌++◌, Option, none, some, ◌>>=◌,
  if◌then◌else◌,
}
use recap_server.Prelude.Bytes.{u32_mod}
use recap_server.Prelude.Int.{ℤ, pos}
use recap_server.Creature.Kinds.{
  CreatureType, CreatureClass, CreatureParts, no_type, no_class, no_parts,
}
use recap_server.Creature.StatTexts.{Stats, parse_stats}
use recap_server.Creature.Template.{
  Floats, TemplateCreature, TemplateDatabase, get_by_name, get_by_noun, get_ability, write_api,
}
use recap_server.Utils.CText.{c_string}
use recap_server.Utils.Explode.{explode_string}
use recap_server.Utils.Hash.{codes}
use recap_server.Utils.Numbers.{to_number, to_string, int64_to_string}
use recap_server.Utils.Xml.{Xml, Named, Text, child, get_text, add_text, add_texts}

pub record AbilityStat : Type 0 where
  pub key : Text
  pub token : Text
  pub value : Text

-- The first two parts, where there are two. The key stays empty.
ability_of : List Text → Option AbilityStat
ability_of [] = none
ability_of (a ∷ []) = none
ability_of (a ∷ b ∷ rest) = some (record { key = []; token = a; value = b })

add_ability : Option AbilityStat → List AbilityStat → List AbilityStat
add_ability none abilities = abilities
add_ability (some a) abilities = abilities ++ a ∷ []

-- The second loop of Creature::Update.
parse_abilities : List AbilityStat → List Text → List AbilityStat
unfolding ability_of add_ability explode_string
parse_abilities abilities [] = abilities
parse_abilities abilities ([] ∷ pieces) = parse_abilities abilities pieces
parse_abilities abilities ((c ∷ cs) ∷ pieces) =
    parse_abilities (add_ability (ability_of (explode_string b'!' (c ∷ cs))) abilities) pieces

module _ (fl : Floats) where
  open fl use {Float, to_float, float_to_string}

  pub record Creature : Type 0 where
    pub ability_stats : List AbilityStat
    pub stats : List Stats
    pub template : Option (TemplateCreature fl)
    pub png_large_url : Text
    pub png_thumb_url : Text
    pub creator_id : ℤ
    pub gear_score : Float
    pub item_points : Float
    pub id : ℕ
    pub version : ℕ

  -- The initial values, with the floats 0 and 300.
  unfoldable pub new : Float → Float → Option (TemplateCreature fl) → Creature
  new zero_score start_points template = record {
    ability_stats = [];
    stats = [];
    template = template;
    png_large_url = [];
    png_thumb_url = [];
    creator_id = pos 0;
    gear_score = zero_score;
    item_points = start_points;
    id = 0;
    version = 0;
  }

  -- Creature::Update; the parts are not used.
  unfoldable pub update : Creature → Float → Float → Text → Text → Text → Creature
  unfolding parse_stats parse_abilities explode_string
  update c gear_score item_points parts stats ability_stats = record c {
    gear_score = gear_score;
    item_points = item_points;
    stats = parse_stats stats;
    ability_stats = parse_abilities [] (explode_string b';' ability_stats);
  }

  unfoldable pub get_name : Creature → Text
  get_name c = elim c.template [ none ↦ [] | some t ↦ t.name ]

  unfoldable pub get_noun : Creature → ℕ
  get_noun c = elim c.template [ none ↦ 0 | some t ↦ t.noun ]

  unfoldable pub get_ability_at : Creature → ℕ → ℕ
  unfolding get_ability
  get_ability_at c index = elim c.template [ none ↦ 0 | some t ↦ get_ability fl t index ]

  unfoldable pub get_type : Creature → CreatureType
  get_type c = elim c.template [ none ↦ no_type | some t ↦ t.type ]

  unfoldable pub get_class : Creature → CreatureClass
  get_class c = elim c.template [ none ↦ no_class | some t ↦ t.class ]

  unfoldable pub get_equipable_parts : Creature → CreatureParts
  get_equipable_parts c = elim c.template [ none ↦ no_parts | some t ↦ t.equipable_parts ]

  unfoldable pub set_id : Creature → ℕ → Creature
  set_id c id = record c { id = id }

  unfoldable pub set_version : Creature → ℕ → Creature
  set_version c version = record c { version = version }

  -- Creatures::Get.
  unfoldable pub get : List Creature → ℕ → Option Creature
  get [] id = none
  get (c ∷ creatures) id = if c.id == id then some c else get creatures id

  -- One above the identifier of the last creature.
  unfoldable pub next_id : List Creature → ℕ
  next_id [] = 1
  next_id (c ∷ []) = (c.id + 1) % u32_mod
  next_id (c ∷ d ∷ creatures) = next_id (d ∷ creatures)

  module _ (zero_score start_points : Float) where
    -- Creatures::Add, with the identifier that it returns.
    unfoldable pub add : TemplateDatabase fl → List Creature → ℕ → List Creature × ℕ
    unfolding get_by_noun new next_id
    add db creatures noun = elim (get_by_noun fl db noun) [
      | none ↦ (creatures, 0)
      | some t ↦
          let c = record (new zero_score start_points (some t)) {
            version = 1;
            id = next_id creatures;
          } in
          (creatures ++ c ∷ [], c.id)
    ]

    module _ (xml : Xml) (named : Named xml) where
      open xml use {Node, name, children, element, append_child}
      open named use {string, set_string, remove_child}

      unfoldable pub read : TemplateDatabase fl → Creature → Node → Creature
      unfolding get_by_name get_text to_number
      read db c n = record c {
        template = get_by_name fl db (string n "template");
        id = to_number u32_mod (get_text xml n "id");
        version = to_number u32_mod (get_text xml n "version");
        gear_score = to_float (get_text xml n "gear_score");
        item_points = to_float (get_text xml n "item_points");
        png_large_url = get_text xml n "png_large_url";
        png_thumb_url = get_text xml n "png_thumb_url";
      }

      unfoldable pub entries : Creature → List (String × Text)
      entries c =
          ("id", to_string c.id)
          ∷ ("version", to_string c.version)
          ∷ ("gear_score", float_to_string c.gear_score)
          ∷ ("item_points", float_to_string c.item_points)
          ∷ ("png_large_url", c.png_large_url)
          ∷ ("png_thumb_url", c.png_thumb_url)
          ∷ []

      -- A creature without a template is a null pointer.
      unfoldable pub write : Node → Creature → Option Node
      unfolding entries add_texts c_string
      write n c = c.template >>= λ t.
          some (add_texts xml (set_string n "template" (c_string t.name)) (entries c))

      own_entries : TemplateCreature fl → Creature → List (String × Text)
      own_entries t c =
          ("id", to_string c.id)
          ∷ ("name", t.name)
          ∷ ("png_large_url", c.png_large_url)
          ∷ ("png_thumb_url", c.png_thumb_url)
          ∷ ("noun_id", to_string t.noun)
          ∷ ("version", to_string c.version)
          ∷ ("gear_score", float_to_string c.gear_score)
          ∷ ("item_points", float_to_string c.item_points)
          ∷ []

      -- The branches on `profile_data`.
      write_data : Node → TemplateCreature fl → Creature → Bool → Bool → Node
      unfolding write_api own_entries add_texts
      write_data n t c profile_data include_abilities =
          if profile_data
          then add_texts xml
              (remove_child (write_api fl xml n t include_abilities) "stats_template")
              (("creator_id", int64_to_string c.creator_id) ∷ ("stats", codes "TODO") ∷ [])
          else add_texts xml n (own_entries t c)

      -- Creature::WriteApi.
      unfoldable pub write_creature : Node → Creature → Bool → Bool → Bool → Node
      unfolding write_data
      write_creature n c profile_data include_abilities include_parts = elim c.template [
        | none ↦ n
        | some t ↦
            let written = write_data n t c profile_data include_abilities in
            if include_parts then append_child written (element "parts") else written
      ]

      -- The loop of Creatures::Read.
      unfoldable pub read_each : TemplateDatabase fl → List Creature → List Node → List Creature
      unfolding read new
      read_each db creatures [] = creatures
      read_each db creatures (n ∷ nodes) =
          let c = read db (new zero_score start_points none) n in
          read_each db (if str_eq (name n) "creature" then creatures ++ c ∷ [] else creatures) nodes

      unfoldable pub read_from : TemplateDatabase fl → Option Node → List Creature → List Creature
      unfolding read_each
      read_from db none creatures = creatures
      read_from db (some n) creatures = read_each db creatures (children n)

      unfoldable pub read_creatures : TemplateDatabase fl → List Creature → Node → List Creature
      unfolding read_from
      read_creatures db creatures n = read_from db (child xml n "creatures") creatures

      -- The loop of Creatures::Write.
      unfoldable pub write_each : Node → List Creature → Option Node
      unfolding write
      write_each n [] = some n
      write_each n (c ∷ creatures) =
          write (element "creature") c >>= λ e. write_each (append_child n e) creatures

      unfoldable pub write_creatures : Node → List Creature → Option Node
      unfolding write_each
      write_creatures n creatures =
          write_each (element "creatures") creatures >>= λ e. some (append_child n e)

      -- The loop of Creatures::WriteApi.
      list_each : Node → List Creature → Node
      unfolding write_creature
      list_each n [] = n
      list_each n (c ∷ creatures) =
          list_each (append_child n (write_creature (element "creature") c false false false))
            creatures

      unfoldable pub list_creatures : Node → List Creature → Node
      unfolding list_each
      list_creatures n creatures = append_child n (list_each (element "creatures") creatures)
