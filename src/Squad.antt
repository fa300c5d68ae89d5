-- ===== src/Squad.antt =====
-- SporeNet::Squad (SporeNet/Squad.cpp) and the squads of a User (SporeNet/User.cpp): three places for
-- creatures, by their identifiers.
pub mod Decks
pub mod Storage
pub mod Updates
use Prim.Native.String.{String}
use text.Mathlib.Text.{◌==◌ as str_eq}
use recap_server.Prelude.{
  ℕ, ◌+◌, ◌%◌, ◌<◌, ◌≡◌, Bool, true, false, List, [], ◌∷◌, ◌++◌, Option, none, some, ltb, ◌==◌,
  if◌then◌else◌, set,
}
use recap_server.Prelude.Bytes.{u32_mod}
use recap_server.Utils.Hash.{codes}
use recap_server.Utils.Explode.{explode_string}
use recap_server.Utils.Numbers.{to_number, to_string}
use recap_server.Utils.Xml.{Xml, Text, Numbered, child, get_text, add_texts}

pub record Squad : Type 0 where
  pub creature_ids : List ℕ
  pub name : Text
  pub category : Text
  pub id : ℕ
  pub slot : ℕ
  pub locked : Bool

-- `make_shared<Squad>()` starts from zeros.
unfoldable pub new : Squad
new = record {
  creature_ids = 0 ∷ 0 ∷ 0 ∷ [];
  name = [];
  category = [];
  id = 0;
  slot = 0;
  locked = true;
}

-- Squad::Squad(uint32_t, uint32_t), which leaves the places as the memory was.
unfoldable pub of_slot : List ℕ → ℕ → ℕ → Squad
of_slot places id slot = record {
  creature_ids = places;
  name = [];
  category = [];
  id = id;
  slot = slot;
  locked = true;
}

-- A place that is not there is left alone.
unfoldable pub set_creature_id : Squad → ℕ → ℕ → Squad
set_creature_id s index id = record s { creature_ids = set s.creature_ids index id }

unfoldable pub reset : Squad → ℕ → Squad
reset s slot = record s {
  id = slot;
  slot = slot;
  name = codes "Slot " ++ to_string slot;
  locked = false;
}

-- A positive number takes the place.
take_over : List ℕ → List Text → List ℕ
unfolding to_number
take_over [] texts = []
take_over (old ∷ ids) [] = old ∷ ids
take_over (old ∷ ids) (t ∷ texts) =
    let id = to_number u32_mod t in (if ltb 0 id then id else old) ∷ take_over ids texts

-- Squad::Update.
unfoldable pub update : Squad → Text → Bool → Squad
unfolding explode_string take_over
update s list pvp = record s {
  creature_ids = take_over s.creature_ids (explode_string b',' list);
  category = if pvp then codes "pvp" else codes "pve";
}

module _ (xml : Xml) (num : Numbered xml) where
  open xml use {Node, name, children, element, append_child}
  open num use {number, set_number}

  -- The loop of Read over the children, while there are places.
  read_ids : List ℕ → List Node → List ℕ
  read_ids [] nodes = []
  read_ids (old ∷ ids) [] = old ∷ ids
  read_ids (old ∷ ids) (n ∷ nodes) = number n "id" ∷ read_ids ids nodes

  creatures : Option Node → List ℕ → List ℕ
  unfolding read_ids
  creatures none ids = ids
  creatures (some n) ids = read_ids ids (children n)

  read_fields : Squad → Node → Squad
  unfolding creatures get_text to_number
  read_fields s n = record {
    creature_ids = creatures (child xml n "creatures") s.creature_ids;
    name = get_text xml n "name";
    category = get_text xml n "category";
    id = to_number u32_mod (get_text xml n "id");
    slot = to_number u32_mod (get_text xml n "slot");
    locked = ltb 0 (to_number u32_mod (get_text xml n "locked"));
  }

  unfoldable pub read : Squad → Node → Squad × Bool
  unfolding read_fields
  read s n = if str_eq (name n) "squad" then (read_fields s n, true) else (s, false)

  write_ids : Node → List ℕ → Node
  write_ids n [] = n
  write_ids n (id ∷ ids) = write_ids (append_child n (set_number (element "creature") "id" id)) ids

  entries : Squad → List (String × Text)
  entries s =
      ("name", s.name)
      ∷ ("id", to_string s.id)
      ∷ ("category", s.category)
      ∷ ("slot", to_string s.slot)
      ∷ ("locked", to_string (if s.locked then 1 else 0))
      ∷ []

  unfoldable pub write : Node → Squad → Node
  unfolding write_ids entries add_texts
  write n s = append_child n (
      append_child (add_texts xml (element "squad") (entries s))
        (write_ids (element "creatures") s.creature_ids))

  -- The loop of User::Load over the squads: those that are none are skipped.
  read_each : List Squad → List Node → List Squad
  unfolding read new
  read_each squads [] = squads
  read_each squads (n ∷ nodes) =
      let (s, done) = read new n in read_each (if done then squads ++ s ∷ [] else squads) nodes

  -- The squads in User::Load.
  load_from : Option Node → List Squad → List Squad
  unfolding read_each
  load_from none squads = squads
  load_from (some n) squads = read_each squads (children n)

  unfoldable pub load_squads : List Squad → Node → List Squad
  unfolding load_from
  load_squads squads n = load_from (child xml n "squads") squads

  write_each : Node → List Squad → Node
  unfolding write
  write_each n [] = n
  write_each n (s ∷ squads) = write_each (write n s) squads

  -- The squads in User::Save.
  unfoldable pub save_squads : Node → List Squad → Node
  unfolding write_each
  save_squads n squads = append_child n (write_each (element "squads") squads)

-- The squad of an identifier, of the squads of a User.
unfoldable pub get_squad_by_id : List Squad → ℕ → Option Squad
get_squad_by_id [] id = none
get_squad_by_id (s ∷ squads) id = if s.id == id then some s else get_squad_by_id squads id

unfoldable pub reset_squads : List Squad
unfolding new reset
reset_squads = reset new 1 ∷ reset new 2 ∷ reset new 3 ∷ []

-- `mCreatures.Get`, by the identifiers of the creatures.
unfoldable pub owns : List ℕ → ℕ → Bool
owns [] id = false
owns (c ∷ owned) id = if c == id then true else owns owned id

-- A text of the list is the number of a creature that the user has. Zero is passed over.
unfoldable pub wanted : List ℕ → Text → Bool
unfolding owns to_number
wanted owned t = if to_number u32_mod t == 0 then false else owns owned (to_number u32_mod t)

-- The loop of User::UpdateSquad, where `creatureIndex` has eight bits.
unfoldable pub place_creatures : List ℕ → Squad → ℕ → List Text → Squad
unfolding wanted set_creature_id to_number
place_creatures owned s index [] = s
place_creatures owned s index (t ∷ texts) = elim (wanted owned t) [
  | true ↦
      place_creatures owned (set_creature_id s index (to_number u32_mod t)) ((index + 1) % 256)
        texts
  | false ↦ place_creatures owned s index texts
]

-- The first squad of that identifier is the one that changes.
unfoldable pub update_squad : List ℕ → List Squad → ℕ → Text → List Squad
unfolding place_creatures explode_string
update_squad owned [] slot list = []
update_squad owned (s ∷ squads) slot list =
    if s.id == slot
    then place_creatures owned s 0 (explode_string b',' list) ∷ squads
    else s ∷ update_squad owned squads slot list
