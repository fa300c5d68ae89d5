-- ===== src/Utils/Explode.antt =====
-- `utils::explode_string` (Core/Utils/Functions) at a character, without a limit: the text up to each
-- delimiter, and what is left. The counter of the limit is left out, which would overflow after
-- 2 ^ 31 pieces.
use recap_server.Prelude.{
  ℕ, ◌≡◌, ◌≢◌, ap, sym, ◌∙◌, List, [], ◌∷◌, ◌++◌, true, false, arith, ◌==◌, append_assoc,
  append-nil,
}
use recap_server.Utils.Xml.{Text}

-- `piece` is the text from `start` on.
explode_from : ℕ → Text → Text → List Text
explode_from d piece [] = piece ∷ []
explode_from d piece (c ∷ cs) = elim (c == d) [
  | true ↦ piece ∷ explode_from d [] cs
  | false ↦ explode_from d (piece ++ c ∷ []) cs
]

unfoldable pub explode_string : ℕ → Text → List Text
unfolding explode_from
explode_string d text = explode_from d [] text

-- Pieces with delimiters between them.
abbrev pub join : ℕ → Text → List Text → Text
join d w [] = w
join d w (v ∷ ws) = w ++ d ∷ join d v ws

abbrev pub Avoids : ℕ → Text → Type 0
Avoids d [] = Unit {0}
Avoids d (c ∷ cs) = (c ≢ d) × Avoids d cs

abbrev pub AllAvoid : ℕ → List Text → Type 0
AllAvoid d [] = Unit {0}
AllAvoid d (w ∷ ws) = Avoids d w × AllAvoid d ws

explode_from-end :
    (d : ℕ) (piece w : Text) → Avoids d w → explode_from d piece w ≡ (piece ++ w) ∷ []
unfolding explode_from
explode_from-end d piece [] h = ap (λ t. t ∷ []) (sym (append-nil piece))
explode_from-end d piece (c ∷ cs) (ne, h) =
    let t : (c == d) ≡ false = ground arith in
    rw (t, explode_from)
      (explode_from-end d (piece ++ c ∷ []) cs h
        ∙ ap (λ t. t ∷ []) (append_assoc piece (c ∷ []) cs))

explode_from-delim :
    (d : ℕ) (piece w rest : Text)
    → Avoids d w
    → explode_from d piece (w ++ (d ∷ rest)) ≡ (piece ++ w) ∷ explode_from d [] rest
unfolding explode_from
explode_from-delim d piece [] rest h =
    let t : (d == d) ≡ true = ground arith in
    rw (t, explode_from) (ap (λ p. p ∷ explode_from d [] rest) (sym (append-nil piece)))
explode_from-delim d piece (c ∷ cs) rest (ne, h) =
    let t : (c == d) ≡ false = ground arith in
    rw (t, explode_from)
      (explode_from-delim d (piece ++ c ∷ []) cs rest h
        ∙ ap (λ t. t ∷ explode_from d [] rest) (append_assoc piece (c ∷ []) cs))

-- Pieces without the delimiter, joined by it, are taken apart again by explode_string.
pub explode_string-join :
    (d : ℕ) (w : Text) (ws : List Text)
    → Avoids d w
    → AllAvoid d ws
    → explode_string d (join d w ws) ≡ w ∷ ws
unfolding explode_string
explode_string-join d w [] h hs = explode_from-end d [] w h
explode_string-join d w (v ∷ ws) h (hv, hs) =
    explode_from-delim d [] w (join d v ws) h ∙ ap (λ t. w ∷ t) (explode_string-join d v ws hv hs)
