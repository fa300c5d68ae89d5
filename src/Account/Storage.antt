-- ===== src/Account/Storage.antt =====
-- An account that is written and read back.
use Prim.Native.String.{String}
use recap_server.Prelude.{
  ℕ, ◌<◌, ◌≡◌, refl, ◌∙◌, ap, [], Bool, true, false, if◌then◌else◌, ◌∷◌, some, arith, min,
}
use recap_server.Prelude.Bytes.{u32_mod}
use recap_server.Utils.CText.{c_string}
use recap_server.Utils.Numbers.{to_number, to_string, bool_to_string, to_int64}
use recap_server.Utils.Numbers.RoundTrip.{
  c_string-to_string, c_string-bool_to_string, c_string-int64_to_string, to_number-to_string,
  to_int64-int64_to_string, FitsInt64,
}
use recap_server.Utils.Xml.{Xml, get_text, get_text-add_texts, find_text}
use recap_server.Account.{Account, is_yes, to_flag, read, entries, write}

-- Each number is a value of its type.
pub record IsValid (a : Account) : Type 0 where
  pub id : FitsInt64 a.id
  pub chain_progression : a.chain_progression < u32_mod
  pub creature_rewards : a.creature_rewards < u32_mod
  pub current_game_id : a.current_game_id < u32_mod
  pub current_playgroup_id : a.current_playgroup_id < u32_mod
  pub default_deck_pve_id : a.default_deck_pve_id < u32_mod
  pub default_deck_pvp_id : a.default_deck_pvp_id < u32_mod
  pub level : a.level < u32_mod
  pub xp : a.xp < u32_mod
  pub dna : a.dna < u32_mod
  pub avatar_id : a.avatar_id < u32_mod
  pub new_player_inventory : a.new_player_inventory < u32_mod
  pub new_player_progress : a.new_player_progress < u32_mod
  pub cashout_bonus_time : a.cashout_bonus_time < u32_mod
  pub star_level : a.star_level < u32_mod
  pub unlock_catalysts : a.unlock_catalysts < u32_mod
  pub unlock_diagonal_catalysts : a.unlock_diagonal_catalysts < u32_mod
  pub unlock_inventory : a.unlock_inventory < u32_mod
  pub unlock_fuel_tanks : a.unlock_fuel_tanks < u32_mod
  pub unlock_pve_decks : a.unlock_pve_decks < u32_mod
  pub unlock_pvp_decks : a.unlock_pvp_decks < u32_mod
  pub unlock_stats : a.unlock_stats < u32_mod
  pub unlock_inventory_identify : a.unlock_inventory_identify < u32_mod
  pub unlock_editor_flair_slots : a.unlock_editor_flair_slots < u32_mod
  pub upsell : a.upsell < u32_mod
  pub cap_level : a.cap_level < u32_mod
  pub cap_progression : a.cap_progression < u32_mod

to_flag-bool_to_string : (b : Bool) → to_flag (bool_to_string b) ≡ b
unfolding to_flag bool_to_string to_number
to_flag-bool_to_string true = refl
to_flag-bool_to_string false = refl

-- What comes back: two fields are not what was written, and one is clamped.
abbrev pub reloaded : Account → Account → Account
reloaded old a = record a {
  unlock_inventory = old.unlock_inventory;
  grant_online_access = false;
  avatar_id = min a.avatar_id 16;
}

module _ (xml : Xml) (n : xml.Node) (fresh : xml.children n ≡ []) (old a : Account)
    (valid : IsValid a) where
  stored : (k : String) → get_text xml (write xml n a) k ≡ c_string (find_text k (entries a))
  unfolding write
  stored k = get_text-add_texts xml n (entries a) k fresh

  number :
      (k : String) (v : ℕ)
      → v < u32_mod
      → find_text k (entries a) ≡ to_string v
      → to_number u32_mod (get_text xml (write xml n a) k) ≡ v
  number k v h e =
      ap (to_number u32_mod) (stored k ∙ ap c_string e ∙ c_string-to_string v)
      ∙ to_number-to_string u32_mod v h (omega arith)

  completed : is_yes (get_text xml (write xml n a) "tutorial_completed") ≡ a.tutorial_completed
  unfolding entries is_yes c_string
  completed = ap is_yes (stored "tutorial_completed") ∙ yes_or_no a.tutorial_completed
    where
      yes_or_no : (b : Bool) → is_yes (c_string (if b then b'Y' ∷ [] else b'N' ∷ [])) ≡ b
      yes_or_no true = refl
      yes_or_no false = refl

  online : to_flag (get_text xml (write xml n a) "grant_online_access") ≡ false
  unfolding entries to_flag to_number c_string
  online = ap to_flag (stored "grant_online_access")

  -- Account::Read after Account::Write into an element without children gives back an account whose
  -- numbers are values of their types, except that unlock_inventory is the one the object had before
  -- the read, grant_online_access is false, and avatar_id is at most 16.
  pub read-write : read xml old (some (write xml n a)) ≡ reloaded old a
  unfolding read entries
  read-write = λ i. record {
    tutorial_completed = completed i;
    grant_all_access =
        (ap to_flag (stored "grant_all_access" ∙ c_string-bool_to_string a.grant_all_access)
            ∙ to_flag-bool_to_string a.grant_all_access)
          i;
    grant_online_access = online i;
    id =
        (ap to_int64 (stored "id" ∙ c_string-int64_to_string a.id)
            ∙ to_int64-int64_to_string a.id valid.id)
          i;
    unlock_inventory = old.unlock_inventory;
    avatar_id = min (number "avatar_id" a.avatar_id valid.avatar_id refl i) 16;
    chain_progression =
        number "chain_progression" a.chain_progression valid.chain_progression refl i;
    creature_rewards = number "creature_rewards" a.creature_rewards valid.creature_rewards refl i;
    current_game_id = number "current_game_id" a.current_game_id valid.current_game_id refl i;
    current_playgroup_id =
        number "current_playgroup_id" a.current_playgroup_id valid.current_playgroup_id refl i;
    default_deck_pve_id =
        number "default_deck_pve_id" a.default_deck_pve_id valid.default_deck_pve_id refl i;
    default_deck_pvp_id =
        number "default_deck_pvp_id" a.default_deck_pvp_id valid.default_deck_pvp_id refl i;
    level = number "level" a.level valid.level refl i;
    xp = number "xp" a.xp valid.xp refl i;
    dna = number "dna" a.dna valid.dna refl i;
    new_player_inventory =
        number "new_player_inventory" a.new_player_inventory valid.new_player_inventory refl i;
    new_player_progress =
        number "new_player_progress" a.new_player_progress valid.new_player_progress refl i;
    cashout_bonus_time =
        number "cashout_bonus_time" a.cashout_bonus_time valid.cashout_bonus_time refl i;
    star_level = number "star_level" a.star_level valid.star_level refl i;
    unlock_catalysts = number "unlock_catalysts" a.unlock_catalysts valid.unlock_catalysts refl i;
    unlock_diagonal_catalysts =
        number "unlock_diagonal_catalysts" a.unlock_diagonal_catalysts
          valid.unlock_diagonal_catalysts refl i;
    unlock_fuel_tanks =
        number "unlock_fuel_tanks" a.unlock_fuel_tanks valid.unlock_fuel_tanks refl i;
    unlock_pve_decks = number "unlock_pve_decks" a.unlock_pve_decks valid.unlock_pve_decks refl i;
    unlock_pvp_decks = number "unlock_pvp_decks" a.unlock_pvp_decks valid.unlock_pvp_decks refl i;
    unlock_stats = number "unlock_stats" a.unlock_stats valid.unlock_stats refl i;
    unlock_inventory_identify =
        number "unlock_inventory_identify" a.unlock_inventory_identify
          valid.unlock_inventory_identify refl i;
    unlock_editor_flair_slots =
        number "unlock_editor_flair_slots" a.unlock_editor_flair_slots
          valid.unlock_editor_flair_slots refl i;
    upsell = number "upsell" a.upsell valid.upsell refl i;
    cap_level = number "cap_level" a.cap_level valid.cap_level refl i;
    cap_progression = number "cap_progression" a.cap_progression valid.cap_progression refl i;
  }
