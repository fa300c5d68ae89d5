-- ===== src/Tests/Catalysts.antt =====
-- Game::Catalyst at small inputs.
use recap_server.Prelude.{◌≡◌, refl, true}
use recap_server.Catalyst.{mana, rare}
use recap_server.Catalyst.Nouns.{noun_id-injective}

noun_id-injective_example : (mana ≡ mana) × (rare ≡ rare) × (true ≡ true)
noun_id-injective_example = noun_id-injective mana mana rare rare true true refl refl refl refl refl
