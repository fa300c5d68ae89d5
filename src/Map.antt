-- ===== src/Map.antt =====
-- What is used of `std::map` with an integer key: a list in the order of the keys.
pub mod Laws
use recap_server.Prelude.{ℕ, ◌==◌, List, [], ◌∷◌, Option, none, some, if◌then◌else◌, ltb}

abbrev pub Map : Type 0 → Type 0
Map A = List (ℕ × A)

unfoldable pub find : {A : Type 0} → ℕ → Map A → Option A
find k [] = none
find k ((i, v) ∷ m) = if i == k then some v else find k m

-- `emplace`, `try_emplace`: a key that is there keeps its value.
unfoldable pub emplace : {A : Type 0} → ℕ → A → Map A → Map A
emplace k v [] = (k, v) ∷ []
emplace k v ((i, w) ∷ m) =
    let rest = emplace k v m in
    if ltb i k then (i, w) ∷ rest else if i == k then (i, w) ∷ m else (k, v) ∷ (i, w) ∷ m

unfoldable pub erase : {A : Type 0} → ℕ → Map A → Map A
erase k [] = []
erase k ((i, v) ∷ m) = let rest = erase k m in if i == k then m else (i, v) ∷ rest

-- The key of `--end()`.
unfoldable pub last_key : {A : Type 0} → Map A → Option ℕ
last_key [] = none
last_key ((i, v) ∷ m) = elim (last_key m) [ none ↦ some i | some k ↦ some k ]
