-- ===== src/Creature/Adds.antt =====
-- What Creatures::Add makes of the identifiers of the creatures.
use recap_server.Prelude.{
  ℕ, suc, ◌<◌, ◌≤◌, ◌≡◌, refl, List, [], ◌∷◌, ◌++◌, some, if◌then◌else◌, arith, ◌==◌,
}
use recap_server.Prelude.Bytes.{u32_mod}
use recap_server.Creature.Template.{Floats, TemplateCreature, TemplateDatabase, get_by_noun}
use recap_server.Creature.{Creature, new, get, next_id, add}

module _ (fl : Floats) where
  open fl use {Float}

  -- Identifiers that rise, above a number.
  abbrev pub Rises : ℕ → List (Creature fl) → Type 0
  Rises n [] = Unit {0}
  Rises n (c ∷ cs) = (n < c.id) × Rises c.id cs

  -- The identifier of the last creature, or the number where there is none.
  abbrev pub last_id : ℕ → List (Creature fl) → ℕ
  last_id n [] = n
  last_id n (c ∷ cs) = last_id c.id cs

  last_id-Rises : (n : ℕ) (cs : List (Creature fl)) → Rises n cs → n ≤ last_id n cs
  last_id-Rises n [] h = omega arith
  last_id-Rises n (c ∷ cs) (lt, h) = omega (arith, last_id-Rises c.id cs h)

  next_id-last :
      (c : Creature fl) (cs : List (Creature fl))
      → suc (last_id c.id cs) < u32_mod
      → next_id fl (c ∷ cs) ≡ suc (last_id c.id cs)
  unfolding next_id
  next_id-last c [] h = omega arith
  next_id-last c (d ∷ cs) h = next_id-last d cs h

  next_id-last_id :
      (cs : List (Creature fl)) → suc (last_id 0 cs) < u32_mod → next_id fl cs ≡ suc (last_id 0 cs)
  unfolding next_id
  next_id-last_id [] h = refl
  next_id-last_id (c ∷ cs) h = next_id-last c cs h

  get-last :
      (n id : ℕ) (cs : List (Creature fl)) (c : Creature fl)
      → Rises n cs
      → last_id n cs < c.id
      → get fl (cs ++ c ∷ []) id ≡ (if c.id == id then some c else get fl cs id)
  unfolding get
  get-last n id [] c h top = refl
  get-last n id (d ∷ cs) c (lt, h) top =
      let later = get-last d.id id cs c h top in
      let below = last_id-Rises d.id cs h in ground (arith, later, below)

  Rises-last :
      (n : ℕ) (cs : List (Creature fl)) (c : Creature fl)
      → Rises n cs
      → last_id n cs < c.id
      → Rises n (cs ++ c ∷ [])
  Rises-last n [] c h top = (top, tt)
  Rises-last n (d ∷ cs) c (lt, h) top = (lt, Rises-last d.id cs c h top)

  module _ (zero_score start_points : Float) (db : TemplateDatabase fl) where
    -- A creature of a template with an identifier.
    abbrev pub created : TemplateCreature fl → ℕ → Creature fl
    created t id = record (new fl zero_score start_points (some t)) { version = 1; id = id }

    add-known :
        (cs : List (Creature fl)) (noun : ℕ) (t : TemplateCreature fl)
        → get_by_noun fl db noun ≡ some t
        → add fl zero_score start_points db cs noun
          ≡ (cs ++ created t (next_id fl cs) ∷ [], next_id fl cs)
    unfolding add new
    add-known cs noun t e = rw (add, e) refl

    module _ (cs : List (Creature fl)) (noun : ℕ) (t : TemplateCreature fl)
        (found : get_by_noun fl db noun ≡ some t) (rises : Rises 0 cs)
        (room : suc (last_id 0 cs) < u32_mod) where
      above_last : last_id 0 cs < next_id fl cs
      above_last = omega (arith, next_id-last_id cs room)

      -- Over creatures whose identifiers are not zero and rise up to less than 2 ^ 32 - 1,
      -- Creatures::Add of a noun that has a template gives a new creature of this template under the
      -- identifier that it returns, and Get of every other identifier gives what it gave.
      pub get-add :
          (id : ℕ)
          → let (creatures, new_id) = add fl zero_score start_points db cs noun in
            get fl creatures id ≡ (if new_id == id then some (created t new_id) else get fl cs id)
      unfolding new
      get-add id =
          rw (add-known cs noun t found)
            (get-last 0 id cs (created t (next_id fl cs)) rises above_last)

      add-Rises : Rises 0 (add fl zero_score start_points db cs noun).0
      unfolding new
      add-Rises =
          rw (add-known cs noun t found)
            (Rises-last 0 cs (created t (next_id fl cs)) rises above_last)
