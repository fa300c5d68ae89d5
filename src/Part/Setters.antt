-- ===== src/Part/Setters.antt =====
-- The setters of a Part (SporeNet/Part.cpp) that take a value over as it is.
use recap_server.Prelude.{ℕ, Bool}
use recap_server.Part.{Part}

unfoldable pub set_creation_date : Part → ℕ → Part
set_creation_date p timestamp = record p { timestamp = timestamp }

unfoldable pub set_cost : Part → ℕ → Part
set_cost p cost = record p { cost = cost }

unfoldable pub set_level : Part → ℕ → Part
set_level p level = record p { level = level }

unfoldable pub set_rarity : Part → ℕ → Part
set_rarity p rarity = record p { rarity = rarity }

unfoldable pub set_market_status : Part → ℕ → Part
set_market_status p market_status = record p { market_status = market_status }

unfoldable pub set_status : Part → ℕ → Part
set_status p status = record p { status = status }

unfoldable pub set_usage : Part → ℕ → Part
set_usage p usage = record p { usage = usage }

unfoldable pub set_is_flair : Part → Bool → Part
set_is_flair p flair = record p { is_flair = flair }
