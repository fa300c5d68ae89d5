-- ===== src/Map/Laws.antt =====
-- Lookups after the operations of a map, and the order of its keys.
use recap_server.Prelude.{
  ℕ, ◌+◌, ◌≤◌, ◌<◌, ◌≡◌, refl, ◌==◌, [], ◌∷◌, Option, none, some, if◌then◌else◌, arith, ◌≢◌,
  Option-cases, inl, inr,
}
use recap_server.Map.{Map, find, emplace, erase, last_key}

module _ {A : Type 0} where
  -- The keys rise strictly from `n` on.
  abbrev pub From : ℕ → Map A → Type 0
  From n [] = Unit {0}
  From n ((i, v) ∷ m) = (n ≤ i) × From (i + 1) m

  find_below : (k n : ℕ) (m : Map A) → From n m → k < n → find k m ≡ none
  unfolding find
  find_below k n [] f h = refl
  find_below k n ((i, v) ∷ m) (le, f) h = ground (arith, find_below k (i + 1) m f)

  -- The value a map has for a key after an insertion that keeps the old one.
  abbrev pub kept : A → Option A → A
  kept v none = v
  kept v (some w) = w

  pub find-emplace :
      (k j n : ℕ) (v : A) (m : Map A)
      → From n m
      → find j (emplace k v m) ≡ (if j == k then some (kept v (find k m)) else find j m)
  unfolding find emplace
  find-emplace k j n v [] f = ground arith
  find-emplace k j n v ((i, w) ∷ m) (le, f) =
      ground (arith, find-emplace k j (i + 1) v m f, find_below k (i + 1) m f)

  pub emplace-From : (k n : ℕ) (v : A) (m : Map A) → n ≤ k → From n m → From n (emplace k v m)
  unfolding emplace
  emplace-From k n v [] h f = (h, tt)
  emplace-From k n v ((i, w) ∷ m) h (le, f) = ground (arith, emplace-From k (i + 1) v m)

  From-mono : (l n : ℕ) (m : Map A) → l ≤ n → From n m → From l m
  From-mono l n [] h f = tt
  From-mono l n ((i, v) ∷ m) h (le, f) = (omega arith, f)

  pub find-erase :
      (k j n : ℕ) (m : Map A) → From n m → find j (erase k m) ≡ (if j == k then none else find j m)
  unfolding find erase
  find-erase k j n [] f = ground arith
  find-erase k j n ((i, v) ∷ m) (le, f) =
      ground (arith, find-erase k j (i + 1) m f, find_below k (i + 1) m f)

  pub erase-From : (k n : ℕ) (m : Map A) → From n m → From n (erase k m)
  unfolding erase
  erase-From k n [] f = tt
  erase-From k n ((i, v) ∷ m) (le, f) =
      ground (arith, erase-From k (i + 1) m, From-mono n (i + 1) m)

  last_key_cons : (i : ℕ) (v : A) (m : Map A) → last_key ((i, v) ∷ m) ≢ none
  unfolding last_key
  last_key_cons i v m h = elim (Option-cases (last_key m)) [
    | inl e ↦ ground arith
    | inr (k, e) ↦ ground arith
  ]

  pub last_key_none : (m : Map A) → last_key m ≡ none → (j : ℕ) → find j m ≡ none
  unfolding find
  last_key_none [] h j = refl
  last_key_none ((i, v) ∷ m) h j = absurd (last_key_cons i v m h)

  pub last_key_bound :
      (l n : ℕ) (m : Map A)
      → From n m
      → last_key m ≡ some l
      → (j : ℕ) → l < j
      → (find j m ≡ none) × (n ≤ l)
  unfolding find last_key
  last_key_bound l n [] f h j lt = ground arith
  last_key_bound l n ((i, v) ∷ m) (le, f) h j lt = elim (Option-cases (last_key m)) [
    | inl e ↦ ground (arith, last_key_none m e j)
    | inr (k, e) ↦ ground (arith, last_key_bound k (i + 1) m f e j)
  ]
