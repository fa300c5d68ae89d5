-- ===== src/Catalyst/Nouns.antt =====
-- The noun identifiers of the catalysts (Game/Catalyst.cpp).
use recap_server.Prelude.{
  ℕ, ◌+◌, ◌*◌, ◌<◌, ◌≡◌, refl, sym, ap, ◌∙◌, Bool, true, false, ◌&&◌, ◌==◌, List, [], ◌∷◌, ◌++◌,
  some, get_elem?, subst, some-injective, ==_iff, if◌then◌else◌, suc, zero, arith,
}
use recap_server.Catalyst.Colors.{is_named}
use recap_server.Catalyst.{
  CatalystType, CatalystRarity, make, no_rarity, common, rare, epic, unnamed_rarity, no_type,
  unnamed_type, aoe_damage, attack_speed, buff_duration, cc_reduction, cooldown, crit, damage,
  damage_aura, debuff_duration, debuff_increase, defense_rating, deflection_rating, dexterity,
  dodge_rating, health, immune_poison, immune_sleep, immune_slow, immune_stun, knockback,
  life_leech, mana, mana_cost_reduction, mana_leech, mind, move_speed, orb_effectiveness,
  overdrive_buildup, pet_damage, pet_health, projectile_speed, range_increase, strength, surefooted,
  thorns,
}

abbrev pub is_named_rarity : CatalystRarity → Bool
is_named_rarity no_rarity = false
is_named_rarity common = true
is_named_rarity rare = true
is_named_rarity epic = true
is_named_rarity (unnamed_rarity n) = false

abbrev all_types : List CatalystType
all_types =
    aoe_damage ∷ attack_speed ∷ buff_duration ∷ cc_reduction ∷ cooldown ∷ crit ∷ damage
    ∷ damage_aura ∷ debuff_duration ∷ debuff_increase ∷ defense_rating ∷ deflection_rating
    ∷ dexterity ∷ dodge_rating ∷ health ∷ immune_poison ∷ immune_sleep ∷ immune_slow ∷ immune_stun
    ∷ knockback ∷ life_leech ∷ mana ∷ mana_cost_reduction ∷ mana_leech ∷ mind ∷ move_speed
    ∷ orb_effectiveness ∷ overdrive_buildup ∷ pet_damage ∷ pet_health ∷ projectile_speed
    ∷ range_increase ∷ strength ∷ surefooted ∷ thorns ∷ []

abbrev all_rarities : List CatalystRarity
all_rarities = common ∷ rare ∷ epic ∷ []

abbrev both : List Bool
both = false ∷ true ∷ []

abbrev type_index : CatalystType → ℕ
type_index no_type = 0
type_index (unnamed_type n) = 0
type_index aoe_damage = 0
type_index attack_speed = 1
type_index buff_duration = 2
type_index cc_reduction = 3
type_index cooldown = 4
type_index crit = 5
type_index damage = 6
type_index damage_aura = 7
type_index debuff_duration = 8
type_index debuff_increase = 9
type_index defense_rating = 10
type_index deflection_rating = 11
type_index dexterity = 12
type_index dodge_rating = 13
type_index health = 14
type_index immune_poison = 15
type_index immune_sleep = 16
type_index immune_slow = 17
type_index immune_stun = 18
type_index knockback = 19
type_index life_leech = 20
type_index mana = 21
type_index mana_cost_reduction = 22
type_index mana_leech = 23
type_index mind = 24
type_index move_speed = 25
type_index orb_effectiveness = 26
type_index overdrive_buildup = 27
type_index pet_damage = 28
type_index pet_health = 29
type_index projectile_speed = 30
type_index range_increase = 31
type_index strength = 32
type_index surefooted = 33
type_index thorns = 34

abbrev rarity_index : CatalystRarity → ℕ
rarity_index no_rarity = 0
rarity_index common = 0
rarity_index rare = 1
rarity_index epic = 2
rarity_index (unnamed_rarity n) = 0

abbrev wild_index : Bool → ℕ
wild_index false = 0
wild_index true = 1

abbrev number : CatalystType → CatalystRarity → Bool → ℕ
number t r wild = (type_index t * 3 + rarity_index r) * 2 + wild_index wild

abbrev noun_id : CatalystType → CatalystRarity → Bool → ℕ
unfolding make
noun_id t r wild = (make t r wild).noun_id

all : {A : Type 0} → (A → Bool) → List A → Bool
all test [] = true
all test (x ∷ xs) = test x && all test xs

all_get :
    {A : Type 0} (test : A → Bool) (xs : List A) (i : ℕ) (x : A)
    → all test xs ≡ true
    → get_elem? xs i ≡ some x
    → test x ≡ true
unfolding all
all_get test [] i x h e = ground arith
all_get test (y ∷ ys) zero x h e = subst (λ z. test z ≡ true) (some-injective e) (ground (arith, h))
all_get test (y ∷ ys) (suc i) x h e = all_get test ys i x (ground (arith, h)) e

-- The place of a number in a list, and the length where there is none.
position : ℕ → List ℕ → ℕ
position n [] = 0
position n (k ∷ ks) = let rest = position n ks in if k == n then 0 else suc rest

check : List ℕ → Bool
unfolding all position
check keys =
    all (λ t. all (λ r. all (λ w. position (noun_id t r w) keys == number t r w) both) all_rarities)
      all_types

keys_of : CatalystType → List ℕ
keys_of t =
    noun_id t common false
    ∷ noun_id t common true
    ∷ noun_id t rare false
    ∷ noun_id t rare true
    ∷ noun_id t epic false
    ∷ noun_id t epic true
    ∷ []

keys : List CatalystType → List ℕ
unfolding keys_of
keys [] = []
keys (t ∷ ts) = keys_of t ++ keys ts

checked : check (keys all_types) ≡ true
unfolding check keys noun_id
checked = refl

get_elem?-type_index :
    (t : CatalystType) → is_named t ≡ true → get_elem? all_types (type_index t) ≡ some t
get_elem?-type_index no_type h = ground arith
get_elem?-type_index (unnamed_type n) h = ground arith
get_elem?-type_index aoe_damage h = refl
get_elem?-type_index attack_speed h = refl
get_elem?-type_index buff_duration h = refl
get_elem?-type_index cc_reduction h = refl
get_elem?-type_index cooldown h = refl
get_elem?-type_index crit h = refl
get_elem?-type_index damage h = refl
get_elem?-type_index damage_aura h = refl
get_elem?-type_index debuff_duration h = refl
get_elem?-type_index debuff_increase h = refl
get_elem?-type_index defense_rating h = refl
get_elem?-type_index deflection_rating h = refl
get_elem?-type_index dexterity h = refl
get_elem?-type_index dodge_rating h = refl
get_elem?-type_index health h = refl
get_elem?-type_index immune_poison h = refl
get_elem?-type_index immune_sleep h = refl
get_elem?-type_index immune_slow h = refl
get_elem?-type_index immune_stun h = refl
get_elem?-type_index knockback h = refl
get_elem?-type_index life_leech h = refl
get_elem?-type_index mana h = refl
get_elem?-type_index mana_cost_reduction h = refl
get_elem?-type_index mana_leech h = refl
get_elem?-type_index mind h = refl
get_elem?-type_index move_speed h = refl
get_elem?-type_index orb_effectiveness h = refl
get_elem?-type_index overdrive_buildup h = refl
get_elem?-type_index pet_damage h = refl
get_elem?-type_index pet_health h = refl
get_elem?-type_index projectile_speed h = refl
get_elem?-type_index range_increase h = refl
get_elem?-type_index strength h = refl
get_elem?-type_index surefooted h = refl
get_elem?-type_index thorns h = refl

get_elem?-rarity_index :
    (r : CatalystRarity)
    → is_named_rarity r ≡ true
    → (get_elem? all_rarities (rarity_index r) ≡ some r) × (rarity_index r < 3)
get_elem?-rarity_index no_rarity h = ground arith
get_elem?-rarity_index (unnamed_rarity n) h = ground arith
get_elem?-rarity_index common h = (refl, omega arith)
get_elem?-rarity_index rare h = (refl, omega arith)
get_elem?-rarity_index epic h = (refl, omega arith)

get_elem?-wild_index :
    (wild : Bool) → (get_elem? both (wild_index wild) ≡ some wild) × (wild_index wild < 2)
get_elem?-wild_index false = (refl, omega arith)
get_elem?-wild_index true = (refl, omega arith)

position-noun_id :
    (t : CatalystType) (r : CatalystRarity) (wild : Bool)
    → is_named t ≡ true
    → is_named_rarity r ≡ true
    → position (noun_id t r wild) (keys all_types) ≡ number t r wild
unfolding check
position-noun_id t r wild h h' =
    (==_iff (position (noun_id t r wild) (keys all_types)) (number t r wild)).0 (
      all_get (λ w. position (noun_id t r w) (keys all_types) == number t r w) both
        (wild_index wild) wild
        (all_get (λ q. all (λ w. position (noun_id t q w) (keys all_types) == number t q w) both)
          all_rarities (rarity_index r) r
          (all_get
            (λ s.
              all (λ q. all (λ w. position (noun_id s q w) (keys all_types) == number s q w) both)
                all_rarities)
            all_types (type_index t) t checked (get_elem?-type_index t h))
          (get_elem?-rarity_index r h').0)
        (get_elem?-wild_index wild).0)

same_place :
    {A : Type 0} (xs : List A) (i j : ℕ) (x y : A)
    → get_elem? xs i ≡ some x
    → get_elem? xs j ≡ some y
    → i ≡ j
    → x ≡ y
same_place xs i j x y e e' p = some-injective (sym e ∙ (ap (get_elem? xs) p ∙ e'))

-- Two catalysts constructed from types other than None and rarities Common, Rare or Epic that have
-- the same noun identifier have the same type, the same rarity and the same prismatic flag: none of
-- the 210 hashes collide.
pub noun_id-injective :
    (t t' : CatalystType) (r r' : CatalystRarity) (wild wild' : Bool)
    → is_named t ≡ true
    → is_named t' ≡ true
    → is_named_rarity r ≡ true
    → is_named_rarity r' ≡ true
    → (make t r wild).noun_id ≡ (make t' r' wild').noun_id
    → (t ≡ t') × (r ≡ r') × (wild ≡ wild')
unfolding noun_id
noun_id-injective t t' r r' wild wild' h h' k k' e =
    let (er, lr) = get_elem?-rarity_index r k in
    let (er', lr') = get_elem?-rarity_index r' k' in
    let (ew, lw) = get_elem?-wild_index wild in
    let (ew', lw') = get_elem?-wild_index wild' in
    let n : number t r wild ≡ number t' r' wild' =
      sym (position-noun_id t r wild h k)
      ∙ (ap (λ i. position i (keys all_types)) e ∙ position-noun_id t' r' wild' h' k') in
    (
      same_place all_types (type_index t) (type_index t') t t' (get_elem?-type_index t h)
          (get_elem?-type_index t' h') (omega arith),
      same_place all_rarities (rarity_index r) (rarity_index r') r r' er er' (omega arith),
      same_place both (wild_index wild) (wild_index wild') wild wild' ew ew' (omega arith),
    )
