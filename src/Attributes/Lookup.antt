-- ===== src/Attributes/Lookup.antt =====
-- What is read after a write, and the order of the values.
use recap_server.Prelude.{
  ℕ, ◌+◌, ◌≤◌, ◌<◌, ◌≡◌, refl, List, [], ◌∷◌, none, some, ◌==◌, if◌then◌else◌, arith,
}
use recap_server.Attributes.{Float, find, erase_data, assign, insert_sorted}

module _ (float : Float) where
  open float use {Value, zero, is_zero, is_zero-zero}

  -- The indices rise strictly from `n` on.
  abbrev pub From : ℕ → List (ℕ × Value) → Type 0
  From n [] = Unit {0}
  From n ((i, v) ∷ rest) = (n ≤ i) × From (i + 1) rest

  pub find_below : (i n : ℕ) (d : List (ℕ × Value)) → From n d → i < n → find float i d ≡ none
  unfolding find
  find_below i n [] f h = refl
  find_below i n ((j, v) ∷ d) (le, f) h = ground (arith, find_below i (j + 1) d f)

  From-mono : (m n : ℕ) (d : List (ℕ × Value)) → m ≤ n → From n d → From m d
  From-mono m n [] h f = tt
  From-mono m n ((j, v) ∷ d) h (le, f) = (omega arith, f)

  pub find-erase_data :
      (idx i n : ℕ) (d : List (ℕ × Value))
      → From n d
      → find float i (erase_data float idx d) ≡ (if i == idx then none else find float i d)
  unfolding find erase_data
  find-erase_data idx i n [] f = ground arith
  find-erase_data idx i n ((j, v) ∷ d) (le, f) =
      ground (arith, find-erase_data idx i (j + 1) d f, find_below i (j + 1) d f)

  pub erase_data-From :
      (idx n : ℕ) (d : List (ℕ × Value)) → From n d → From n (erase_data float idx d)
  unfolding erase_data
  erase_data-From idx n [] f = tt
  erase_data-From idx n ((j, v) ∷ d) (le, f) =
      ground (arith, erase_data-From idx (j + 1) d f, From-mono n (j + 1) d)

  pub find-assign :
      (idx i : ℕ) (v old : Value) (d : List (ℕ × Value))
      → find float idx d ≡ some old
      → find float i (assign float idx v d) ≡ (if i == idx then some v else find float i d)
  unfolding find assign
  find-assign idx i v old [] h = cc
  find-assign idx i v old ((j, w) ∷ d) h = ground (arith, find-assign idx i v old d)

  pub assign-From :
      (idx n : ℕ) (v : Value) (d : List (ℕ × Value)) → From n d → From n (assign float idx v d)
  unfolding assign
  assign-From idx n v [] f = tt
  assign-From idx n v ((j, w) ∷ d) (le, f) = ground (arith, assign-From idx (j + 1) v d f)

  pub find-insert_sorted :
      (idx i : ℕ) (v : Value) (d : List (ℕ × Value))
      → find float idx d ≡ none
      → find float i (insert_sorted float (idx, v) d)
        ≡ (if i == idx then some v else find float i d)
  unfolding find insert_sorted
  find-insert_sorted idx i v [] h = ground arith
  find-insert_sorted idx i v ((j, w) ∷ d) h = ground (arith, find-insert_sorted idx i v d)

  pub insert_sorted-From :
      (idx n : ℕ) (v : Value) (d : List (ℕ × Value))
      → find float idx d ≡ none
      → n ≤ idx
      → From n d
      → From n (insert_sorted float (idx, v) d)
  unfolding find insert_sorted
  insert_sorted-From idx n v [] h le f = (le, tt)
  insert_sorted-From idx n v ((j, w) ∷ d) h le (le', f) =
      ground (arith, insert_sorted-From idx (j + 1) v d)

  pub insert_sorted_low :
      (j n : ℕ) (w : Value) (d : List (ℕ × Value))
      → j < n
      → From n d
      → insert_sorted float (j, w) d ≡ (j, w) ∷ d
  unfolding insert_sorted
  insert_sorted_low j n w [] h f = refl
  insert_sorted_low j n w ((i, x) ∷ d) h (le, f) = ground arith
