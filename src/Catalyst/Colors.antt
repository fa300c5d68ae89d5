-- ===== src/Catalyst/Colors.antt =====
-- The colours of the catalysts and their match (Game/Catalyst.cpp).
use recap_server.Prelude.{◌≡◌, refl, Bool, true, false, ◌||◌, ◌==◌, arith}
use recap_server.Catalyst.{
  CatalystType, CatalystRarity, Catalyst, make, matching_color, type_color, color_number, is_none,
  is_prismatic, no_type, unnamed_type, aoe_damage, attack_speed, buff_duration, cc_reduction,
  cooldown, crit, damage, damage_aura, debuff_duration, debuff_increase, defense_rating,
  deflection_rating, dexterity, dodge_rating, health, immune_poison, immune_sleep, immune_slow,
  immune_stun, knockback, life_leech, mana, mana_cost_reduction, mana_leech, mind, move_speed,
  orb_effectiveness, overdrive_buildup, pet_damage, pet_health, projectile_speed, range_increase,
  strength, surefooted, thorns,
}

-- The type is one of the enumerators other than None.
abbrev pub is_named : CatalystType → Bool
is_named no_type = false
is_named (unnamed_type n) = false
is_named aoe_damage = true
is_named attack_speed = true
is_named buff_duration = true
is_named cc_reduction = true
is_named cooldown = true
is_named crit = true
is_named damage = true
is_named damage_aura = true
is_named debuff_duration = true
is_named debuff_increase = true
is_named defense_rating = true
is_named deflection_rating = true
is_named dexterity = true
is_named dodge_rating = true
is_named health = true
is_named immune_poison = true
is_named immune_sleep = true
is_named immune_slow = true
is_named immune_stun = true
is_named knockback = true
is_named life_leech = true
is_named mana = true
is_named mana_cost_reduction = true
is_named mana_leech = true
is_named mind = true
is_named move_speed = true
is_named orb_effectiveness = true
is_named overdrive_buildup = true
is_named pet_damage = true
is_named pet_health = true
is_named projectile_speed = true
is_named range_increase = true
is_named strength = true
is_named surefooted = true
is_named thorns = true

-- No named type has the colour None or Prismatic.
named_color :
    (t : CatalystType)
    → is_named t ≡ true
    → (is_none (type_color t) ≡ false) × (is_prismatic (type_color t) ≡ false)
unfolding type_color
named_color no_type h = ground arith
named_color (unnamed_type n) h = ground arith
named_color aoe_damage h = (refl, refl)
named_color attack_speed h = (refl, refl)
named_color buff_duration h = (refl, refl)
named_color cc_reduction h = (refl, refl)
named_color cooldown h = (refl, refl)
named_color crit h = (refl, refl)
named_color damage h = (refl, refl)
named_color damage_aura h = (refl, refl)
named_color debuff_duration h = (refl, refl)
named_color debuff_increase h = (refl, refl)
named_color defense_rating h = (refl, refl)
named_color deflection_rating h = (refl, refl)
named_color dexterity h = (refl, refl)
named_color dodge_rating h = (refl, refl)
named_color health h = (refl, refl)
named_color immune_poison h = (refl, refl)
named_color immune_sleep h = (refl, refl)
named_color immune_slow h = (refl, refl)
named_color immune_stun h = (refl, refl)
named_color knockback h = (refl, refl)
named_color life_leech h = (refl, refl)
named_color mana h = (refl, refl)
named_color mana_cost_reduction h = (refl, refl)
named_color mana_leech h = (refl, refl)
named_color mind h = (refl, refl)
named_color move_speed h = (refl, refl)
named_color orb_effectiveness h = (refl, refl)
named_color overdrive_buildup h = (refl, refl)
named_color pet_damage h = (refl, refl)
named_color pet_health h = (refl, refl)
named_color projectile_speed h = (refl, refl)
named_color range_increase h = (refl, refl)
named_color strength h = (refl, refl)
named_color surefooted h = (refl, refl)
named_color thorns h = (refl, refl)

-- Two catalysts constructed from types other than None match exactly if one of them is prismatic or
-- the colours of their types are equal.
matching_color-make :
    (t t' : CatalystType) (r r' : CatalystRarity) (wild wild' : Bool)
    → is_named t ≡ true
    → is_named t' ≡ true
    → matching_color (make t r wild) (make t' r' wild')
      ≡ (wild || wild' || (color_number (type_color t) == color_number (type_color t')))
unfolding matching_color make
matching_color-make t t' r r' true true h h' = refl
matching_color-make t t' r r' true false h h' = ground (arith, named_color t' h')
matching_color-make t t' r r' false true h h' = ground (arith, named_color t h)
matching_color-make t t' r r' false false h h' = ground (arith, named_color t h, named_color t' h')

-- MatchingColor does not depend on the order of the two catalysts.
pub matching_color_comm : (a b : Catalyst) → matching_color a b ≡ matching_color b a
unfolding matching_color
matching_color_comm a b = ground arith
