-- ===== src/Tests/Accounts.antt =====
-- SporeNet::Account at small inputs.
use recap_server.Prelude.{◌+◌, ◌≡◌, ◌≤◌, ◌<◌, ◌⊎◌, refl, true, false, [], ◌∷◌, some, arith, length}
use recap_server.Prelude.Int.{pos}
use recap_server.Utils.XmlTree.{xml_tree}
use recap_server.Account.{Account, new, read, write}
use recap_server.Account.Storage.{reloaded, read-write}
use recap_server.Account.Upgrade.{
  unlock_cost, cost_of, unlock_upgrade, unlock_upgrade_lem, IsBounded, unlock_upgrade-IsBounded,
  buy_all, buy_all_conserves,
}

unlock_cost_size : length unlock_cost ≡ 64
unlock_cost_size = refl

-- An account with an inventory upgrade, online access and an avatar out of range.
abbrev rich : Account
rich = record new {
  id = pos 42;
  dna = 9000;
  unlock_inventory = 4;
  unlock_inventory_identify = 300;
  grant_online_access = true;
  avatar_id = 20;
}

read-write_example :
    read xml_tree new (some (write xml_tree (xml_tree.element "account") rich)) ≡ reloaded new rich
read-write_example = read-write xml_tree (xml_tree.element "account") refl new rich (omega arith)

unlock_upgrade_lem_example :
    ((26 < 64)
      × (cost_of 26 ≤ 9000)
      × ((unlock_upgrade rich 26).1 ≡ true)
      × ((unlock_upgrade rich 26).0.dna + cost_of 26 ≡ 9000))
    ⊎ (((64 ≤ 26) ⊎ (9000 < cost_of 26)) × (unlock_upgrade rich 26 ≡ (rich, false)))
unlock_upgrade_lem_example = unlock_upgrade_lem rich 26

unlock_upgrade-IsBounded_example : IsBounded (unlock_upgrade rich 27).0
unlock_upgrade-IsBounded_example = unlock_upgrade-IsBounded rich 27 (omega arith)

buy_all_conserves_example :
    (buy_all rich (8 ∷ 1 ∷ 4 ∷ [])).0.dna + (buy_all rich (8 ∷ 1 ∷ 4 ∷ [])).1 ≡ 9000
buy_all_conserves_example = buy_all_conserves (8 ∷ 1 ∷ 4 ∷ []) rich
