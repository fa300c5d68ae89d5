-- ===== src/Utils/Strings.antt =====
-- What the code calls of std::string_view: searches and parts, by positions.
use recap_server.Prelude.{
  take, ap, true, none, ◌∷◌, ◌∙◌, [], Option, ◌==◌, refl, arith, inl, suc, ℕ, Bool, ◌>>=◌, sym,
  ◌&&◌, Bool-cases, if◌then◌else◌, drop, false, ◌+◌, inr, ◌≡◌, some,
}
use recap_server.Utils.Xml.{Text}

-- Equality of std::string.
abbrev pub same : Text → Text → Bool
same [] [] = true
same [] (d ∷ v) = false
same (c ∷ w) [] = false
same (c ∷ w) (d ∷ v) = c == d && same w v

pub same_refl : (w : Text) → same w w ≡ true
same_refl [] = refl
same_refl (c ∷ w) = ground (arith, same_refl w)

pub eq_of_same : (w v : Text) → same w v ≡ true → w ≡ v
eq_of_same [] [] e = refl
eq_of_same [] (d ∷ v) e = absurd (ground (arith, e))
eq_of_same (c ∷ w) [] e = absurd (ground (arith, e))
eq_of_same (c ∷ w) (d ∷ v) e =
    let head : c ≡ d = ground (arith, e) in
    let tail : same w v ≡ true = ground (arith, e) in λ i. head i ∷ eq_of_same w v tail i

pub same-of_same : (j k name : Text) → same j k ≡ true → same k name ≡ same j name
same-of_same j k name e = ap (λ w. same w name) (sym (eq_of_same j k e))

pub same_apart : (j k name : Text) → same j k ≡ false → same k name ≡ true → same j name ≡ false
same_apart j k name e t = ap (same j) (sym (eq_of_same k name t)) ∙ e

pub same_flip : (j k : Text) → same j k ≡ false → same k j ≡ false
same_flip j k e = elim (Bool-cases (same k j)) [
  | inl t ↦ absurd (ground (arith, same_apart j k j e t, same_refl j))
  | inr t ↦ t
]

-- `find(c)`.
unfoldable pub find_char : ℕ → Text → Option ℕ
find_char d [] = none
find_char d (c ∷ cs) =
    let rest = find_char d cs in if c == d then some 0 else (rest >>= λ i. some (suc i))

-- `find(c, offset)`.
unfoldable pub find_from : ℕ → Text → ℕ → Option ℕ
unfolding find_char
find_from d text offset = find_char d (drop offset text) >>= λ i. some (offset + i)

-- The last position of a character.
last_char : ℕ → Text → Option ℕ
last_char d [] = none
last_char d (c ∷ cs) = elim (last_char d cs) [
  | some i ↦ some (suc i)
  | none ↦ if c == d then some 0 else none
]

-- `rfind(c, position)`.
unfoldable pub rfind_char : ℕ → Text → ℕ → Option ℕ
unfolding last_char
rfind_char d text position = last_char d (take (position + 1) text)

abbrev starts_with : Text → Text → Bool
starts_with [] text = true
starts_with (d ∷ pat) [] = false
starts_with (d ∷ pat) (c ∷ cs) = c == d && starts_with pat cs

-- `find(text)`, for a text that is not empty.
unfoldable pub find_text : Text → Text → Option ℕ
find_text pat [] = none
find_text pat (c ∷ cs) =
    let rest = find_text pat cs in
    if starts_with pat (c ∷ cs) then some 0 else (rest >>= λ i. some (suc i))

-- `substr(position, count)`, for a position that is not past the end.
abbrev pub substr : Text → ℕ → ℕ → Text
substr text position count = take count (drop position text)
