-- ===== src/Attributes/Erasures.antt =====
-- The list of erased indices under the operations of SetValue.
use recap_server.Prelude.{
  ℕ, ◌≡◌, refl, false, ◌||◌, List, [], ◌∷◌, ◌++◌, some, ◌==◌, if◌then◌else◌, arith, inl, inr,
  Option-cases,
}
use recap_server.Attributes.{Float, erase_index}
use recap_server.Attributes.Reflection.{member, Once}

pub member-append : (j i : ℕ) (es : List ℕ) → member j (es ++ i ∷ []) ≡ (member j es || i == j)
unfolding member
member-append j i [] = ground arith
member-append j i (e ∷ es) = ground (arith, member-append j i es)

pub Once-append : (i : ℕ) (es : List ℕ) → member i es ≡ false → Once es → Once (es ++ i ∷ [])
unfolding member
Once-append i [] h o = (refl, tt)
Once-append i (e ∷ es) h (o, os) = ground (arith, member-append e i es, Once-append i es)

module _ (float : Float) where
  pub member-erase_index :
      (i j : ℕ) (es r : List ℕ)
      → Once es
      → erase_index float i es ≡ some r
      → member j r ≡ (if j == i then false else member j es)
  unfolding member erase_index
  member-erase_index i j [] r o h = ground arith
  member-erase_index i j (e ∷ es) r (o, os) h = elim (Option-cases (erase_index float i es)) [
    | inl none_left ↦ ground (arith, none_left)
    | inr (r', left) ↦ ground (arith, left, member-erase_index i j es r' os left)
  ]

  pub erase_index-Once :
      (i : ℕ) (es r : List ℕ) → Once es → erase_index float i es ≡ some r → Once r
  unfolding member erase_index
  erase_index-Once i [] r o h = ground arith
  erase_index-Once i (e ∷ es) r (o, os) h = elim (Option-cases (erase_index float i es)) [
    | inl none_left ↦ ground (arith, none_left)
    | inr (r', left) ↦
        ground (arith, left, member-erase_index i e es r' os left, erase_index-Once i es r' os left)
  ]
