-- ===== src/Account/Upgrade.antt =====
-- User::UnlockUpgrade and User::UnlockCreature (SporeNet/User.cpp): what an account can buy.
use recap_server.Prelude.{
  ℕ, ◌+◌, ◌-◌, ◌*◌, Bool, true, false, List, [], ◌∷◌, leb, ltb, if◌then◌else◌, get_or, ◌&&◌, ◌≤◌,
  ◌<◌, ◌≡◌, arith, replicate, ◌++◌, ◌==◌, inl, inr, Bool-cases, ◌⊎◌,
}
use recap_server.Account.{Account}

-- `std::array<uint32_t, 64>`: the entries that the initialiser leaves out are 0.
abbrev pub unlock_cost : List ℕ
unlock_cost =
    (0 ∷ 2000 ∷ 6000 ∷ 16000 ∷ 30000 ∷ 80000 ∷ 150000 ∷ 300000 ∷ 200 ∷ 350 ∷ 500 ∷ 700 ∷ 900 ∷ 1200
      ∷ 1600 ∷ 4000 ∷ 8000 ∷ 13000 ∷ 19000 ∷ 29000 ∷ 42000 ∷ 57000 ∷ 76000 ∷ 100000 ∷ 160000
      ∷ 250000 ∷ 5000 ∷ 25000 ∷ 50000 ∷ 100000 ∷ 200000 ∷ 400000 ∷ 1000000 ∷ 2500000 ∷ 5000000
      ∷ 10000000 ∷ 500 ∷ 4000 ∷ 0 ∷ 0 ∷ 0 ∷ 0 ∷ 400 ∷ 1200 ∷ 4000 ∷ 0 ∷ 1000 ∷ 5000 ∷ 10000 ∷ 200
      ∷ 600 ∷ 1200 ∷ 20000000 ∷ [])
    ++ replicate 11 0

-- The cost, shut: its laws are below.
pub cost_of : ℕ → ℕ
cost_of id = get_or unlock_cost id 0

-- `case lo: … case hi:` of the switch.
between : ℕ → ℕ → ℕ → Bool
between lo hi id = leb lo id && leb id hi

-- The two assignments of the inventory cases.
with_inventory : Account → ℕ → Account
with_inventory a n = record a { unlock_inventory = n; unlock_inventory_identify = 180 + 30 * n }

-- The switch, in the order of its cases.
grant : Account → ℕ → Account
unfolding between with_inventory
grant a id =
    if between 1 6 id
    then record a { unlock_catalysts = id - 1 + 4 }
    else if id == 7
    then record a { unlock_diagonal_catalysts = 1 }
    else if between 8 25 id
    then record a { unlock_stats = id - 8 + 1 }
    else if between 26 35 id
    then with_inventory a (id - 26 + 4)
    else if between 36 37 id
    then record a { unlock_pve_decks = id - 36 + 2 }
    else if id == 38
    then record a { unlock_pvp_decks = 1 }
    else if between 42 44 id
    then record a { unlock_fuel_tanks = id - 42 + 3 }
    else if between 46 48 id
    then record a { unlock_editor_flair_slots = id - 46 + 4 }
    else if between 49 51 id
    then with_inventory a (id - 49 + 1)
    else if id == 52
    then with_inventory a (id - 52 + 14)
    else a

unfoldable pub unlock_upgrade : Account → ℕ → Account × Bool
unfolding grant cost_of
unlock_upgrade a id =
    if leb 64 id
    then (a, false)
    else if ltb a.dna (cost_of id)
    then (a, false)
    else (grant (record a { dna = a.dna - cost_of id }) id, true)

-- The account's part of User::UnlockCreature: `none` where 0 is returned with nothing added.
unfoldable pub spend_reward : Account → Account × Bool
spend_reward a =
    if ltb 0 a.creature_rewards
    then (record a { creature_rewards = a.creature_rewards - 1 }, true)
    else (a, false)

-- The limits of what upgrades can give.
pub record IsBounded (a : Account) : Type 0 where
  pub catalysts : a.unlock_catalysts ≤ 9
  pub diagonal : a.unlock_diagonal_catalysts ≤ 1
  pub stats : a.unlock_stats ≤ 18
  pub inventory : a.unlock_inventory ≤ 14
  pub pve : a.unlock_pve_decks ≤ 3
  pub pvp : a.unlock_pvp_decks ≤ 1
  pub tanks : a.unlock_fuel_tanks ≤ 5
  pub flair : a.unlock_editor_flair_slots ≤ 6

grant-IsBounded : (a : Account) (id : ℕ) → IsBounded a → IsBounded (grant a id)
unfolding grant
grant-IsBounded a id h = ground arith

-- What the account shows is fixed by the branch taken.
grant-dna : (a : Account) (id : ℕ) → (grant a id).dna ≡ a.dna
unfolding grant
grant-dna a id = ground arith

-- UnlockUpgrade either buys, where the number is below 64, the DNA covers the cost, it returns true
-- and takes exactly the cost off; or it returns false with the account unchanged, where the number
-- is 64 or more or the DNA is below the cost.
pub unlock_upgrade_lem :
    (a : Account) (id : ℕ)
    → ((id < 64)
        × (cost_of id ≤ a.dna)
        × ((unlock_upgrade a id).1 ≡ true)
        × ((unlock_upgrade a id).0.dna + cost_of id ≡ a.dna))
      ⊎ (((64 ≤ id) ⊎ (a.dna < cost_of id)) × (unlock_upgrade a id ≡ (a, false)))
unfolding unlock_upgrade
unlock_upgrade_lem a id = elim (Bool-cases (leb 64 id)) [
  | inl e ↦ inr (inl (ground arith), rw e)
  | inr e ↦ elim (Bool-cases (ltb a.dna (cost_of id))) [
    | inl f ↦ inr (inr (ground arith), rw (e, f))
    | inr f ↦ inl (
      ground arith,
      ground arith,
      rw (e, f),
      rw (e, f, grant-dna (record a { dna = a.dna - cost_of id }) id) (ground arith),
    )
  ]
]

-- UnlockUpgrade keeps an account within the limits of its upgrades.
pub unlock_upgrade-IsBounded :
    (a : Account) (id : ℕ) → IsBounded a → IsBounded (unlock_upgrade a id).0
unfolding unlock_upgrade
unlock_upgrade-IsBounded a id h =
    ground (arith, grant-IsBounded (record a { dna = a.dna - cost_of id }) id)

-- The number of parts that can be identified follows the inventory upgrade.
abbrev pub IsCoherent : Account → Type 0
IsCoherent a = a.unlock_inventory_identify ≡ 180 + 30 * a.unlock_inventory

grant-IsCoherent : (a : Account) (id : ℕ) → IsCoherent a → IsCoherent (grant a id)
unfolding grant
grant-IsCoherent a id h = ground arith

-- UnlockUpgrade keeps unlock_inventory_identify at 180 and 30 times unlock_inventory.
pub unlock_upgrade-IsCoherent :
    (a : Account) (id : ℕ) → IsCoherent a → IsCoherent (unlock_upgrade a id).0
unfolding unlock_upgrade
unlock_upgrade-IsCoherent a id h =
    ground (arith, grant-IsCoherent (record a { dna = a.dna - cost_of id }) id)

-- Purchases one after another, with what was spent.
unfoldable pub buy_all : Account → List ℕ → Account × ℕ
buy_all a [] = (a, 0)
buy_all a (id ∷ ids) =
    let r = unlock_upgrade a id in
    let s = buy_all r.0 ids in (s.0, (if r.1 then cost_of id else 0) + s.1)

-- After any sequence of calls of UnlockUpgrade, the DNA left and the costs of the purchases that
-- returned true add up to the DNA at the start.
pub buy_all_conserves :
    (ids : List ℕ) (a : Account) → (buy_all a ids).0.dna + (buy_all a ids).1 ≡ a.dna
unfolding buy_all
buy_all_conserves [] a = omega arith
buy_all_conserves (id ∷ ids) a =
    ground (arith, unlock_upgrade_lem a id, buy_all_conserves ids (unlock_upgrade a id).0)
