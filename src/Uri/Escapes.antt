-- ===== src/Uri/Escapes.antt =====
-- Texts that are escaped for a URI and decoded.
use recap_server.Prelude.{
  ℕ, ◌+◌, ◌-◌, ◌/◌, ◌%◌, ◌<◌, ◌≡◌, refl, ap, ◌∙◌, Bool, true, ◌||◌, ◌&&◌, [], ◌∷◌, ◌==◌, ltb, leb,
  if◌then◌else◌, arith, Bool-cases, inl, inr,
}
use recap_server.Utils.Xml.{Text}
use recap_server.Uri.{decode, to_byte, hex_digit}

-- Letters, digits and the four marks that RFC 3986 leaves as they are.
abbrev pub is_unreserved : ℕ → Bool
is_unreserved c =
    leb b'a' c && leb c b'z'
    || leb b'A' c && leb c b'Z'
    || leb b'0' c && leb c b'9'
    || c == b'-'
    || c == b'.'
    || c == b'_'
    || c == b'~'

abbrev pub hex : ℕ → ℕ
hex d = if ltb d 10 then b'0' + d else b'A' + (d - 10)

abbrev pub escape : Text → Text
escape [] = []
escape (c ∷ cs) =
    let rest = escape cs in
    if is_unreserved c then c ∷ rest else b'%' ∷ hex (c / 16) ∷ hex (c % 16) ∷ rest

abbrev pub AllBytes : Text → Type 0
AllBytes [] = Unit {0}
AllBytes (c ∷ cs) = (c < 256) × AllBytes cs

hex_digit-hex : (d : ℕ) → d < 16 → hex_digit (hex d) ≡ d
unfolding hex_digit
hex_digit-hex d h = ground arith

to_byte-hex : (c : ℕ) → c < 256 → to_byte (hex (c / 16)) (hex (c % 16)) ≡ c
unfolding to_byte
to_byte-hex c h =
    let high = hex_digit-hex (c / 16) (omega arith) in
    let low = hex_digit-hex (c % 16) (omega arith) in ground (arith, high, low)

decode-unreserved : (c : ℕ) (cs : Text) → is_unreserved c ≡ true → decode (c ∷ cs) ≡ c ∷ decode cs
unfolding decode
decode-unreserved c [] h = ground (arith, h)
decode-unreserved c (a ∷ []) h = ground (arith, h)
decode-unreserved c (a ∷ b ∷ rest) h = ground (arith, h)

decode-percent : (a b : ℕ) (rest : Text) → decode (b'%' ∷ a ∷ b ∷ rest) ≡ to_byte a b ∷ decode rest
unfolding decode
decode-percent a b rest = refl

-- URI::decode gives back any bytes that were escaped as RFC 3986 has it: unreserved characters as
-- they are, every other byte as a percent sign and two hexadecimal digits.
pub decode-escape : (w : Text) → AllBytes w → decode (escape w) ≡ w
unfolding decode
decode-escape [] h = refl
decode-escape (c ∷ cs) (small, h) = elim (Bool-cases (is_unreserved c)) [
  | inl e ↦ rw e (decode-unreserved c (escape cs) e ∙ ap (λ t. c ∷ t) (decode-escape cs h))
  | inr e ↦ rw e (
      decode-percent (hex (c / 16)) (hex (c % 16)) (escape cs)
      ∙ ap (λ t. t ∷ decode (escape cs)) (to_byte-hex c small)
      ∙ ap (λ t. c ∷ t) (decode-escape cs h))
]
