-- ===== src/Account.antt =====
-- SporeNet::Account (SporeNet/User.h and User.cpp): the account of a user, and how it is stored as
-- XML. The numbers are `uint32_t`.
pub mod Storage
pub mod Upgrade
use Prim.Native.String.{String}
use recap_server.Prelude.{
  ℕ, ◌==◌, List, [], ◌∷◌, Bool, true, false, Option, none, some, if◌then◌else◌, min, ltb,
}
use recap_server.Prelude.Bytes.{u32_mod}
use recap_server.Prelude.Int.{ℤ, pos}
use recap_server.Utils.Numbers.{to_number, to_int64, to_string, int64_to_string, bool_to_string}
use recap_server.Utils.Xml.{Xml, Text, get_text, add_texts}
use text.Mathlib.Text.{◌==◌ as str_eq}

pub record Account : Type 0 where
  pub tutorial_completed : Bool
  pub grant_all_access : Bool
  pub grant_online_access : Bool
  pub id : ℤ
  pub chain_progression : ℕ
  pub creature_rewards : ℕ
  pub current_game_id : ℕ
  pub current_playgroup_id : ℕ
  pub default_deck_pve_id : ℕ
  pub default_deck_pvp_id : ℕ
  pub level : ℕ
  pub xp : ℕ
  pub dna : ℕ
  pub avatar_id : ℕ
  pub new_player_inventory : ℕ
  pub new_player_progress : ℕ
  pub cashout_bonus_time : ℕ
  pub star_level : ℕ
  pub unlock_catalysts : ℕ
  pub unlock_diagonal_catalysts : ℕ
  pub unlock_inventory : ℕ
  pub unlock_fuel_tanks : ℕ
  pub unlock_pve_decks : ℕ
  pub unlock_pvp_decks : ℕ
  pub unlock_stats : ℕ
  pub unlock_inventory_identify : ℕ
  pub unlock_editor_flair_slots : ℕ
  pub upsell : ℕ
  pub cap_level : ℕ
  pub cap_progression : ℕ

-- The default member initialisers.
abbrev pub new : Account
new = record {
  tutorial_completed = false;
  grant_all_access = false;
  grant_online_access = false;
  id = pos 1;
  chain_progression = 0;
  creature_rewards = 0;
  current_game_id = 1;
  current_playgroup_id = 1;
  default_deck_pve_id = 1;
  default_deck_pvp_id = 1;
  level = 1;
  xp = 0;
  dna = 0;
  avatar_id = 0;
  new_player_inventory = 0;
  new_player_progress = 0;
  cashout_bonus_time = 0;
  star_level = 0;
  unlock_catalysts = 0;
  unlock_diagonal_catalysts = 0;
  unlock_inventory = 0;
  unlock_fuel_tanks = 0;
  unlock_pve_decks = 0;
  unlock_pvp_decks = 0;
  unlock_stats = 0;
  unlock_inventory_identify = 0;
  unlock_editor_flair_slots = 0;
  upsell = 0;
  cap_level = 0;
  cap_progression = 0;
}

-- `utils::xml_get_text_node(account, "tutorial_completed") == "Y"`.
is_yes : Text → Bool
is_yes [] = false
is_yes (c ∷ []) = c == b'Y'
is_yes (c ∷ d ∷ cs) = false

-- The conversion of a `uint32_t` to `bool`.
to_flag : Text → Bool
to_flag text = ltb 0 (to_number u32_mod text)

module _ (xml : Xml) where
  open xml use {Node}

  -- Account::Read on the child element `account`. The text of `unlock_inventory` is assigned to
  -- `unlockInventoryIdentify`, and `unlockInventory` is not assigned.
  read_account : Account → Node → Account
  unfolding is_yes to_flag
  read_account a n =
      let number = λ (k : String). to_number u32_mod (get_text xml n k) in
      let b = record a { unlock_inventory_identify = number "unlock_inventory" } in
      record b {
        tutorial_completed = is_yes (get_text xml n "tutorial_completed");
        grant_all_access = to_flag (get_text xml n "grant_all_access");
        grant_online_access = to_flag (get_text xml n "grant_online_access");
        id = to_int64 (get_text xml n "id");
        chain_progression = number "chain_progression";
        creature_rewards = number "creature_rewards";
        current_game_id = number "current_game_id";
        current_playgroup_id = number "current_playgroup_id";
        default_deck_pve_id = number "default_deck_pve_id";
        default_deck_pvp_id = number "default_deck_pvp_id";
        level = number "level";
        xp = number "xp";
        dna = number "dna";
        avatar_id = min (number "avatar_id") 16;
        new_player_inventory = number "new_player_inventory";
        new_player_progress = number "new_player_progress";
        cashout_bonus_time = number "cashout_bonus_time";
        star_level = number "star_level";
        unlock_catalysts = number "unlock_catalysts";
        unlock_diagonal_catalysts = number "unlock_diagonal_catalysts";
        unlock_fuel_tanks = number "unlock_fuel_tanks";
        unlock_pve_decks = number "unlock_pve_decks";
        unlock_pvp_decks = number "unlock_pvp_decks";
        unlock_stats = number "unlock_stats";
        unlock_inventory_identify = number "unlock_inventory_identify";
        unlock_editor_flair_slots = number "unlock_editor_flair_slots";
        upsell = number "upsell";
        cap_level = number "cap_level";
        cap_progression = number "cap_progression";
      }

  -- The account is left alone where the element is missing.
  unfoldable pub read : Account → Option Node → Account
  unfolding read_account
  read a none = a
  read a (some n) = read_account a n

-- The texts of Account::Write in the order of the calls. That of `unlock_inventory` is
-- `unlockInventoryIdentify`.
unfoldable pub entries : Account → List (String × Text)
entries a =
    ("tutorial_completed", (if a.tutorial_completed then b'Y' ∷ [] else b'N' ∷ []))
    ∷ ("chain_progression", to_string a.chain_progression)
    ∷ ("creature_rewards", to_string a.creature_rewards)
    ∷ ("current_game_id", to_string a.current_game_id)
    ∷ ("current_playgroup_id", to_string a.current_playgroup_id)
    ∷ ("default_deck_pve_id", to_string a.default_deck_pve_id)
    ∷ ("default_deck_pvp_id", to_string a.default_deck_pvp_id)
    ∷ ("dna", to_string a.dna)
    ∷ ("level", to_string a.level)
    ∷ ("avatar_id", to_string a.avatar_id)
    ∷ ("id", int64_to_string a.id)
    ∷ ("new_player_inventory", to_string a.new_player_inventory)
    ∷ ("new_player_progress", to_string a.new_player_progress)
    ∷ ("cashout_bonus_time", to_string a.cashout_bonus_time)
    ∷ ("star_level", to_string a.star_level)
    ∷ ("unlock_catalysts", to_string a.unlock_catalysts)
    ∷ ("unlock_diagonal_catalysts", to_string a.unlock_diagonal_catalysts)
    ∷ ("unlock_fuel_tanks", to_string a.unlock_fuel_tanks)
    ∷ ("unlock_inventory", to_string a.unlock_inventory_identify)
    ∷ ("unlock_pve_decks", to_string a.unlock_pve_decks)
    ∷ ("unlock_pvp_decks", to_string a.unlock_pvp_decks)
    ∷ ("unlock_stats", to_string a.unlock_stats)
    ∷ ("unlock_inventory_identify", to_string a.unlock_inventory_identify)
    ∷ ("unlock_editor_flair_slots", to_string a.unlock_editor_flair_slots)
    ∷ ("upsell", to_string a.upsell)
    ∷ ("xp", to_string a.xp)
    ∷ ("grant_all_access", bool_to_string a.grant_all_access)
    ∷ ("cap_level", to_string a.cap_level)
    ∷ ("cap_progression", to_string a.cap_progression)
    ∷ []

-- Account::Write on a node.
unfoldable pub write : (xml : Xml) → xml.Node → Account → xml.Node
unfolding entries
write xml n a = add_texts xml n (entries a)
