-- ===== src/Creature/Kinds.antt =====
-- The enumerations of a creature (SporeNet/Creature.cpp) and their names.
use recap_server.Prelude.{◌≡◌, refl, if◌then◌else◌}
use recap_server.Utils.Hash.{codes}
use recap_server.Utils.Numbers.{string_iequals}
use recap_server.Utils.Xml.{Text}

pub data CreatureType : Type 0 where
  bio : CreatureType
  cyber : CreatureType
  plasma : CreatureType
  necro : CreatureType
  chrono : CreatureType
  all_types : CreatureType
  no_type : CreatureType

unfoldable pub type_to_string : CreatureType → Text
type_to_string bio = codes "bio"
type_to_string cyber = codes "cyber"
type_to_string plasma = codes "plasma"
type_to_string necro = codes "necro"
type_to_string chrono = codes "chrono"
type_to_string all_types = codes "all"
type_to_string no_type = codes "unknown"

unfoldable pub type_from_string : Text → CreatureType
unfolding string_iequals
type_from_string text =
    if string_iequals text (codes "bio")
    then bio
    else if string_iequals text (codes "cyber")
    then cyber
    else if string_iequals text (codes "plasma")
    then plasma
    else if string_iequals text (codes "necro")
    then necro
    else if string_iequals text (codes "chrono")
    then chrono
    else if string_iequals text (codes "all")
    then all_types
    else no_type

type_from-to : (c : CreatureType) → type_from_string (type_to_string c) ≡ c
unfolding type_from_string type_to_string string_iequals
type_from-to bio = refl
type_from-to cyber = refl
type_from-to plasma = refl
type_from-to necro = refl
type_from-to chrono = refl
type_from-to all_types = refl
type_from-to no_type = refl

pub data CreatureClass : Type 0 where
  ravager : CreatureClass
  sentinel : CreatureClass
  tempest : CreatureClass
  all_classes : CreatureClass
  no_class : CreatureClass

unfoldable pub class_to_string : CreatureClass → Text
class_to_string ravager = codes "ravager"
class_to_string sentinel = codes "sentinel"
class_to_string tempest = codes "tempest"
class_to_string all_classes = codes "all"
class_to_string no_class = codes "unknown"

unfoldable pub class_from_string : Text → CreatureClass
unfolding string_iequals
class_from_string text =
    if string_iequals text (codes "ravager")
    then ravager
    else if string_iequals text (codes "sentinel")
    then sentinel
    else if string_iequals text (codes "tempest")
    then tempest
    else if string_iequals text (codes "all")
    then all_classes
    else no_class

class_from-to : (c : CreatureClass) → class_from_string (class_to_string c) ≡ c
unfolding class_from_string class_to_string string_iequals
class_from-to ravager = refl
class_from-to sentinel = refl
class_from-to tempest = refl
class_from-to all_classes = refl
class_from-to no_class = refl

pub data CreatureParts : Type 0 where
  all_parts : CreatureParts
  no_hands : CreatureParts
  no_feet : CreatureParts
  no_parts : CreatureParts

unfoldable pub parts_to_string : CreatureParts → Text
parts_to_string all_parts = codes "all"
parts_to_string no_hands = codes "no_hands"
parts_to_string no_feet = codes "no_feet"
parts_to_string no_parts = codes "unknown"

unfoldable pub parts_from_string : Text → CreatureParts
unfolding string_iequals
parts_from_string text =
    if string_iequals text (codes "no_feet")
    then no_feet
    else if string_iequals text (codes "no_hands")
    then no_hands
    else if string_iequals text (codes "all")
    then all_parts
    else no_parts

parts_from-to : (c : CreatureParts) → parts_from_string (parts_to_string c) ≡ c
unfolding parts_from_string parts_to_string string_iequals
parts_from-to all_parts = refl
parts_from-to no_hands = refl
parts_from-to no_feet = refl
parts_from-to no_parts = refl
