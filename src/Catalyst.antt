-- ===== src/Catalyst.antt =====
-- Game::Catalyst (Game/Catalyst.h and Catalyst.cpp): its kinds, their names, colours and the match of
-- colours. A value of an enumeration that no enumerator has is `unnamed`.
pub mod Colors
pub mod Nouns
use Prim.Native.String.{String}
use recap_server.Prelude.{ℕ, Bool, true, false, List, [], ◌∷◌, ◌++◌, if◌then◌else◌, ◌||◌, ◌==◌}
use recap_server.Utils.Hash.{codes, hash_id}

pub data CatalystColor : Type 0 where
  no_color : CatalystColor
  blue : CatalystColor
  prismatic : CatalystColor
  gold : CatalystColor
  red : CatalystColor
  green : CatalystColor

pub data CatalystRarity : Type 0 where
  no_rarity : CatalystRarity
  common : CatalystRarity
  rare : CatalystRarity
  epic : CatalystRarity
  unnamed_rarity : ℕ → CatalystRarity

pub data CatalystType : Type 0 where
  no_type : CatalystType
  aoe_damage : CatalystType
  attack_speed : CatalystType
  buff_duration : CatalystType
  cc_reduction : CatalystType
  cooldown : CatalystType
  crit : CatalystType
  damage : CatalystType
  damage_aura : CatalystType
  debuff_duration : CatalystType
  debuff_increase : CatalystType
  defense_rating : CatalystType
  deflection_rating : CatalystType
  dexterity : CatalystType
  dodge_rating : CatalystType
  health : CatalystType
  immune_poison : CatalystType
  immune_sleep : CatalystType
  immune_slow : CatalystType
  immune_stun : CatalystType
  knockback : CatalystType
  life_leech : CatalystType
  mana : CatalystType
  mana_cost_reduction : CatalystType
  mana_leech : CatalystType
  mind : CatalystType
  move_speed : CatalystType
  orb_effectiveness : CatalystType
  overdrive_buildup : CatalystType
  pet_damage : CatalystType
  pet_health : CatalystType
  projectile_speed : CatalystType
  range_increase : CatalystType
  strength : CatalystType
  surefooted : CatalystType
  thorns : CatalystType
  unnamed_type : ℕ → CatalystType

unfoldable pub color_to_string : CatalystColor → List ℕ
color_to_string no_color = codes "unknown"
color_to_string blue = codes "blue"
color_to_string prismatic = codes "prismatic"
color_to_string gold = codes "yellow"
color_to_string red = codes "red"
color_to_string green = codes "green"

unfoldable pub rarity_to_string : CatalystRarity → List ℕ
rarity_to_string no_rarity = codes "unknown"
rarity_to_string common = codes "common"
rarity_to_string rare = codes "rare"
rarity_to_string epic = codes "epic"
rarity_to_string (unnamed_rarity n) = codes "unknown"

unfoldable pub type_to_string : CatalystType → List ℕ
type_to_string no_type = codes "unknown"
type_to_string aoe_damage = codes "aoedamage"
type_to_string attack_speed = codes "attackspeed"
type_to_string buff_duration = codes "buffduration"
type_to_string cc_reduction = codes "ccreduction"
type_to_string cooldown = codes "cooldown"
type_to_string crit = codes "crit"
type_to_string damage = codes "damage"
type_to_string damage_aura = codes "damageaura"
type_to_string debuff_duration = codes "debuffduration"
type_to_string debuff_increase = codes "debuffincrease"
type_to_string defense_rating = codes "defenserating"
type_to_string deflection_rating = codes "deflectionrating"
type_to_string dexterity = codes "dexterity"
type_to_string dodge_rating = codes "dodgerating"
type_to_string health = codes "health"
type_to_string immune_poison = codes "immunepoison"
type_to_string immune_sleep = codes "immunesleep"
type_to_string immune_slow = codes "immuneslow"
type_to_string immune_stun = codes "immunestun"
type_to_string knockback = codes "knockback"
type_to_string life_leech = codes "lifeleech"
type_to_string mana = codes "mana"
type_to_string mana_cost_reduction = codes "manacostreduction"
type_to_string mana_leech = codes "manaleech"
type_to_string mind = codes "mind"
type_to_string move_speed = codes "movespeed"
type_to_string orb_effectiveness = codes "orbeffectiveness"
type_to_string overdrive_buildup = codes "overdrivebuildup"
type_to_string pet_damage = codes "petdamage"
type_to_string pet_health = codes "pethealth"
type_to_string projectile_speed = codes "projectilespeed"
type_to_string range_increase = codes "rangeincrease"
type_to_string strength = codes "strength"
type_to_string surefooted = codes "surefooted"
type_to_string thorns = codes "thorns"
type_to_string (unnamed_type n) = codes "unknown"

pub record Catalyst : Type 0 where
  pub noun_id : ℕ
  pub type : CatalystType
  pub color : CatalystColor
  pub rarity : CatalystRarity

-- The default member initialisers.
abbrev pub empty : Catalyst
empty = record { noun_id = 0; type = no_type; color = no_color; rarity = no_rarity }

-- The switch over the rarity, in the noun.
unfoldable pub rarity_suffix : CatalystRarity → List ℕ
rarity_suffix no_rarity = []
rarity_suffix common = []
rarity_suffix rare = codes "_rare"
rarity_suffix epic = codes "_epic"
rarity_suffix (unnamed_rarity n) = []

unfoldable pub noun : CatalystType → CatalystRarity → Bool → List ℕ
unfolding type_to_string rarity_suffix
noun t r wild =
    codes "crystal_"
    ++ ((if wild then codes "wild_" else [])
        ++ (type_to_string t ++ (rarity_suffix r ++ codes ".noun")))

-- The switch over the type, for the colour.
unfoldable pub type_color : CatalystType → CatalystColor
type_color no_type = no_color
type_color aoe_damage = red
type_color attack_speed = red
type_color buff_duration = gold
type_color cc_reduction = blue
type_color cooldown = green
type_color crit = red
type_color damage = red
type_color damage_aura = red
type_color debuff_duration = gold
type_color debuff_increase = red
type_color defense_rating = blue
type_color deflection_rating = blue
type_color dexterity = gold
type_color dodge_rating = blue
type_color health = blue
type_color immune_poison = blue
type_color immune_sleep = blue
type_color immune_slow = blue
type_color immune_stun = blue
type_color knockback = red
type_color life_leech = green
type_color mana = red
type_color mana_cost_reduction = blue
type_color mana_leech = green
type_color mind = gold
type_color move_speed = green
type_color orb_effectiveness = green
type_color overdrive_buildup = green
type_color pet_damage = gold
type_color pet_health = gold
type_color projectile_speed = red
type_color range_increase = green
type_color strength = gold
type_color surefooted = blue
type_color thorns = blue
type_color (unnamed_type n) = no_color

unfoldable pub make : CatalystType → CatalystRarity → Bool → Catalyst
unfolding noun hash_id type_color
make t r wild = record {
  noun_id = hash_id (noun t r wild);
  type = t;
  color = if wild then prismatic else type_color t;
  rarity = r;
}

abbrev is_none : CatalystColor → Bool
is_none no_color = true
is_none blue = false
is_none prismatic = false
is_none gold = false
is_none red = false
is_none green = false

abbrev is_prismatic : CatalystColor → Bool
is_prismatic no_color = false
is_prismatic blue = false
is_prismatic prismatic = true
is_prismatic gold = false
is_prismatic red = false
is_prismatic green = false

-- The number of a colour, for `==`.
pub color_number : CatalystColor → ℕ
color_number no_color = 0xFF
color_number blue = 0
color_number prismatic = 1
color_number gold = 2
color_number red = 3
color_number green = 4

unfoldable pub matching_color : Catalyst → Catalyst → Bool
unfolding color_number
matching_color a b =
    if is_none a.color || is_none b.color
    then false
    else if is_prismatic a.color || is_prismatic b.color
    then true
    else color_number a.color == color_number b.color
