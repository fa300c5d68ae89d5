-- ===== src/Squad/Updates.antt =====
-- What User::UpdateSquad and Squad::Update make of the three places.
use recap_server.Prelude.{
  ℕ, suc, ◌+◌, ◌%◌, ◌<◌, ◌≡◌, refl, ap, sym, ◌∙◌, true, false, List, [], ◌∷◌, some, ◌==◌,
  if◌then◌else◌, set, length, arith, Bool-cases, inl, inr, ◌>>=◌,
}
use recap_server.Prelude.Bytes.{u32_mod}
use recap_server.Utils.Explode.{explode_string}
use recap_server.Utils.Numbers.{to_number}
use recap_server.Utils.Xml.{Text}
use recap_server.Squad.{
  Squad, set_creature_id, wanted, place_creatures, update_squad, get_squad_by_id,
}

-- The numbers of the creatures of a list of texts that the user owns, in order.
unfoldable pub placed : List ℕ → List Text → List ℕ
unfolding to_number
placed owned [] = []
placed owned (t ∷ texts) =
    let rest = placed owned texts in if wanted owned t then to_number u32_mod t ∷ rest else rest

-- New numbers over the places from one on, as far as there are places.
abbrev pub overlay : List ℕ → ℕ → List ℕ → List ℕ
overlay ids index [] = ids
overlay ids index (n ∷ news) = overlay (set ids index n) (suc index) news

module _ (owned : List ℕ) (t : Text) (texts : List Text) where
  placed_yes :
      wanted owned t ≡ true → placed owned (t ∷ texts) ≡ to_number u32_mod t ∷ placed owned texts
  unfolding placed
  placed_yes e = rw e refl

  placed_no : wanted owned t ≡ false → placed owned (t ∷ texts) ≡ placed owned texts
  unfolding placed
  placed_no e = rw e refl

  place_yes :
      (s : Squad) (index : ℕ)
      → wanted owned t ≡ true
      → place_creatures owned s index (t ∷ texts)
        ≡ place_creatures owned
            (set_creature_id s index (to_number u32_mod t))
            ((index + 1) % 256)
            texts
  unfolding place_creatures
  place_yes s index e = rw (e, place_creatures) refl

  place_no :
      (s : Squad) (index : ℕ)
      → wanted owned t ≡ false
      → place_creatures owned s index (t ∷ texts) ≡ place_creatures owned s index texts
  unfolding place_creatures
  place_no s index e = rw (e, place_creatures) refl

place_creatures-overlay :
    (owned : List ℕ) (texts : List Text) (s : Squad) (index : ℕ)
    → index + length (placed owned texts) < 256
    → place_creatures owned s index texts
      ≡ record s { creature_ids = overlay s.creature_ids index (placed owned texts) }
unfolding place_creatures placed set_creature_id
place_creatures-overlay owned [] s index h = refl
place_creatures-overlay owned (t ∷ texts) s index h = elim (Bool-cases (wanted owned t)) [
  | inl e ↦
      let p = placed_yes owned t texts e in
      let small : suc index + length (placed owned texts) < 256 = omega (arith, ap length p, h) in
      let next : (index + 1) % 256 ≡ suc index = omega arith in
      place_yes owned t texts s index e
      ∙ ap (λ k. place_creatures owned (set_creature_id s index (to_number u32_mod t)) k texts) next
      ∙ place_creatures-overlay owned texts (set_creature_id s index (to_number u32_mod t))
          (suc index) small
      ∙ ap (λ l. record s { creature_ids = overlay s.creature_ids index l }) (sym p)
  | inr e ↦
      let p = placed_no owned t texts e in
      place_no owned t texts s index e
      ∙ place_creatures-overlay owned texts s index (omega (arith, ap length p, h))
      ∙ ap (λ l. record s { creature_ids = overlay s.creature_ids index l }) (sym p)
]

-- After UpdateSquad, the squad of the given identifier has the numbers of the list that are not zero
-- and belong to creatures of the user, in the order of the list, over its places from the first on
-- as far as they go, if there are fewer than 256 of them; it is otherwise as it was, and so is the
-- squad of every other identifier.
pub get_squad-update_squad :
    (owned : List ℕ) (squads : List Squad) (slot i : ℕ) (list : Text)
    → length (placed owned (explode_string b',' list)) < 256
    → get_squad_by_id (update_squad owned squads slot list) i ≡ (
        if i == slot
        then (get_squad_by_id squads i >>= λ s. some (record s {
          creature_ids = overlay s.creature_ids 0 (placed owned (explode_string b',' list));
        }))
        else get_squad_by_id squads i)
unfolding update_squad get_squad_by_id
get_squad-update_squad owned [] slot i list few = ground arith
get_squad-update_squad owned (s ∷ squads) slot i list few =
    let e = place_creatures-overlay owned (explode_string b',' list) s 0 (omega arith) in
    ground (arith, e, get_squad-update_squad owned squads slot i list few)
