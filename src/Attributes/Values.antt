-- ===== src/Attributes/Values.antt =====
-- The stored values under Attributes::SetValue.
use recap_server.Prelude.{
  ℕ, ◌+◌, ◌≤◌, ◌≡◌, refl, sym, ◌∙◌, List, [], ◌∷◌, ◌++◌, Option, none, some, ◌==◌, if◌then◌else◌,
  arith, inl, inr, Option-cases,
}
use recap_server.Attributes.{
  Float, Attributes, find, erase_data, assign, insert_sorted, sort, change, append, update,
}
use recap_server.Attributes.Lookup.{
  From, find-erase_data, erase_data-From, find-assign, assign-From, find-insert_sorted,
  insert_sorted-From, insert_sorted_low,
}

module _ (float : Float) where
  open float use {Value, zero, is_zero, is_zero-zero}

  insert_sorted-below :
      (idx n : ℕ) (v : Value) (d : List (ℕ × Value))
      → n ≤ idx
      → From float n d
      → find float idx d ≡ none
      → From float n (insert_sorted float (idx, v) d)
  insert_sorted-below idx n v d h f g = insert_sorted-From float idx n v d g h f

  sort-append :
      (idx n : ℕ) (v : Value) (d : List (ℕ × Value))
      → From float n d
      → find float idx d ≡ none
      → sort float (d ++ (idx, v) ∷ []) ≡ insert_sorted float (idx, v) d
  unfolding sort find insert_sorted
  sort-append idx n v [] f h = refl
  sort-append idx n v ((j, w) ∷ d) (le, f) h = ground (
    arith,
    sort-append idx (j + 1) v d f,
    insert_sorted_low float j (j + 1) w (insert_sorted float (idx, v) d),
    insert_sorted_low float idx (j + 1) v d,
    insert_sorted_low float j (j + 1) w d,
    insert_sorted-below idx (j + 1) v d,
  )

  -- The values are in rising order of their indices, without duplicates.
  abbrev pub IsValid : Attributes float → Type 0
  IsValid a = From float 0 a.values

  -- What is found at an index after a change to a value.
  unfoldable pub stored : Value → Option Value
  stored v = if is_zero v then none else some v

  -- The values after a change.
  pub next : ℕ → Value → List (ℕ × Value) → List (ℕ × Value)
  unfolding find
  next idx v d = elim (find float idx d) [
    | none ↦ if is_zero v then d else sort float (d ++ (idx, v) ∷ [])
    | some old ↦ if is_zero v then erase_data float idx d else assign float idx v d
  ]

  append-values :
      (a b : Attributes float) (idx : ℕ) (v : Value)
      → append float a idx v ≡ some b
      → b.values ≡ (if is_zero v then a.values else sort float (a.values ++ (idx, v) ∷ []))
  unfolding append
  append-values a b idx v h = ground arith

  change-values :
      (a : Attributes float) (idx : ℕ) (v : Value)
      → (change float a idx v).values
        ≡ (if is_zero v then erase_data float idx a.values else assign float idx v a.values)
  unfolding change
  change-values a idx v = ground arith

  pub update-none :
      (a : Attributes float) (idx : ℕ) (v : Value)
      → find float idx a.values ≡ none
      → update float a idx v ≡ append float a idx v
  unfolding update
  update-none a idx v e = rw (e, update) refl

  pub update-some :
      (a : Attributes float) (idx : ℕ) (v old : Value)
      → find float idx a.values ≡ some old
      → update float a idx v ≡ some (change float a idx v)
  unfolding update
  update-some a idx v old e = rw (e, update) refl

  pub update-values :
      (a b : Attributes float) (idx : ℕ) (v : Value)
      → update float a idx v ≡ some b
      → b.values ≡ next idx v a.values
  unfolding update next
  update-values a b idx v h = elim (Option-cases (find float idx a.values)) [
    | inl e ↦ rw (e, next) (append-values a b idx v (sym (update-none a idx v e) ∙ h))
    | inr (old, e) ↦ rw (e, next) (ground (arith, update-some a idx v old e, change-values a idx v))
  ]

  pub find-next :
      (idx i : ℕ) (v : Value) (d : List (ℕ × Value))
      → From float 0 d
      → find float i (next idx v d) ≡ (if i == idx then stored v else find float i d)
  unfolding next stored
  find-next idx i v d ok = elim (Option-cases (find float idx d)) [
    | inl e ↦
        rw (e, next) (ground (arith, sort-append idx 0 v d ok, find-insert_sorted float idx i v d))
    | inr (old, e) ↦
        rw (e, next)
          (ground (arith, find-erase_data float idx i 0 d ok, find-assign float idx i v old d))
  ]

  pub next-From :
      (idx : ℕ) (v : Value) (d : List (ℕ × Value)) → From float 0 d → From float 0 (next idx v d)
  unfolding next
  next-From idx v d ok = elim (Option-cases (find float idx d)) [
    | inl e ↦ rw (e, next) (ground (arith, sort-append idx 0 v d ok, insert_sorted-below idx 0 v d))
    | inr (old, e) ↦
        rw (e, next) (ground (arith, erase_data-From float idx 0 d, assign-From float idx 0 v d))
  ]
