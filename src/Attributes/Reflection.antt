-- ===== src/Attributes/Reflection.antt =====
-- What a client knows of the attributes: it applies the pairs of WriteReflection in order.
use recap_server.Prelude.{
  ℕ, ◌+◌, ◌<◌, ◌≡◌, refl, ap, ◌∙◌, Bool, true, false, ◌||◌, List, [], ◌∷◌, ◌++◌, Option, none, some,
  ◌==◌, if◌then◌else◌, arith, inl, inr, Bool-cases, Option-cases,
}
use recap_server.Attributes.{
  Float, client_count, Attributes, find, get_value, changed, erased, reflection,
  reset_reflection_bits,
}
use recap_server.Attributes.Lookup.{From, find_below}

unfoldable pub member : ℕ → List ℕ → Bool
member i [] = false
member i (k ∷ ks) = k == i || member i ks

-- No index stands twice.
abbrev pub Once : List ℕ → Type 0
Once [] = Unit {0}
Once (k ∷ ks) = (member k ks ≡ false) × Once ks

module _ (float : Float) where
  open float use {Value, zero, is_zero, is_zero-zero}

  -- The client takes each value over.
  unfoldable pub apply : List (ℕ × Value) → (ℕ → Value) → ℕ → Value
  apply [] known j = known j
  apply ((i, v) ∷ pairs) known j = apply pairs (λ k. if k == i then v else known k) j

  apply-append :
      (xs ys : List (ℕ × Value)) (known : ℕ → Value) (j : ℕ)
      → apply (xs ++ ys) known j ≡ apply ys (apply xs known) j
  unfolding apply
  apply-append [] ys known j = refl
  apply-append ((i, v) ∷ xs) ys known j = apply-append xs ys (λ k. if k == i then v else known k) j

  apply-erased :
      (es : List ℕ) (known : ℕ → Value) (j : ℕ)
      → apply (erased float es) known j ≡ (if member j es then zero else known j)
  unfolding apply erased member
  apply-erased [] known j = refl
  apply-erased (e ∷ es) known j =
      ground (arith, apply-erased es (λ k. if k == e then zero else known k) j)

  -- What the client has after a value that is found, if it is reflected.
  abbrev taken : Bool → Value → Option Value → Value
  taken reflected known none = known
  taken reflected known (some v) = if reflected then v else known

  apply-changed :
      (bits : ℕ → Bool) (n : ℕ) (d : List (ℕ × Value)) (known : ℕ → Value) (j : ℕ)
      → From float n d
      → apply (changed float bits d) known j ≡ taken (bits j) (known j) (find float j d)
  unfolding apply changed find
  apply-changed bits n [] known j f = refl
  apply-changed bits n ((i, v) ∷ d) known j (le, f) =
      let now : ℕ → Value = λ k. if k == i then v else known k in
      elim (Bool-cases (bits i)) [
        | inl e ↦ rw e (
            ground (
              arith,
              apply-changed bits (i + 1) d now j f,
              find_below float j (i + 1) d f,
              e,
              ap bits,
            ))
        | inr e ↦ rw e (
            ground
              (arith, apply-changed bits (i + 1) d known j f, find_below float j (i + 1) d f, e))
      ]

  -- What ties the attributes to what the client knew after the last reflection.
  pub record Synced (known : ℕ → Value) (a : Attributes float) : Type 0 where
    pub in_order : From float 0 a.values
    pub once : Once a.erased_data
    pub erased_absent : (j : ℕ) → member j a.erased_data ≡ true → find float j a.values ≡ none
    pub untouched :
        (j : ℕ)
        → j < client_count
        → a.data_bits j ≡ false
        → (member j a.erased_data ≡ false) × (get_value float a j ≡ known j)
    pub absent :
        (j : ℕ)
        → j < client_count
        → find float j a.values ≡ none
        → member j a.erased_data ≡ false
        → known j ≡ zero

  -- The weapon damage has its own two indices.
  apply-damage :
      (low high : Value) (k : ℕ → Value) (j : ℕ)
      → j < client_count
      → apply ((111, low) ∷ (112, high) ∷ []) k j ≡ k j
  unfolding apply
  apply-damage low high k j lt = ground arith

  apply-reflection :
      (a : Attributes float) (known : ℕ → Value) (j : ℕ)
      → From float 0 a.values
      → j < client_count
      → apply (reflection float a) known j ≡ (
          if member j a.erased_data
          then zero
          else taken (a.data_bits j) (known j) (find float j a.values))
  unfolding reflection
  apply-reflection a known j f lt =
      let values = changed float a.data_bits a.values in
      let after = apply values known in
      apply-append values _ known j
      ∙ apply-append (erased float a.erased_data) _ after j
      ∙ apply-damage a.min_weapon_damage a.max_weapon_damage
          (apply (erased float a.erased_data) after) j lt
      ∙ apply-erased a.erased_data after j
      ∙ ap (λ v. if member j a.erased_data then zero else v)
          (apply-changed a.data_bits 0 a.values known j f)

  pub apply-get_value :
      (a : Attributes float) (known : ℕ → Value) (j : ℕ)
      → Synced known a
      → j < client_count
      → apply (reflection float a) known j ≡ get_value float a j
  unfolding get_value
  apply-get_value a known j s lt =
      apply-reflection a known j s.in_order lt
      ∙ ground (
        arith,
        s.erased_absent j,
        s.untouched j lt,
        s.absent j lt,
        Option-cases (find float j a.values),
        Bool-cases (member j a.erased_data),
        Bool-cases (a.data_bits j),
      )

  pub reset-Synced :
      (a : Attributes float)
      → From float 0 a.values
      → Synced (get_value float a) (reset_reflection_bits float a)
  unfolding reset_reflection_bits get_value member
  reset-Synced a f = record {
    in_order = f;
    once = tt;
    erased_absent = λ j h. ground (arith, h);
    untouched = λ j lt h. (refl, refl);
    absent = λ j lt h k. ground (arith, h);
  }
