-- ===== src/DataBuffer/Varint/Septets.antt =====
-- The bytes of an encoded integer, as a list, and their arithmetic.
use native.Mathlib.Nat.{pow-suc, add-mul-mod_self_left, mod-eq_of_lt, div-add-mod}
use recap_server.Prelude.{
  ℕ, zero, suc, ◌+◌, ◌*◌, ◌/◌, ◌%◌, ◌^◌, ◌≤◌, ◌<◌, ◌≡◌, ◌∙◌, ap, List, [], ◌∷◌, arith, ltb, leb,
  if◌then◌else◌, length,
}

unfoldable pub septets : ℕ → ℕ → List ℕ
septets zero v = []
septets (suc f) v = if leb 0x80 v then (v % 128 + 0x80) ∷ septets f (v / 128) else v ∷ []

-- The encoding of `v`.
unfoldable pub tdf_bytes : ℕ → List ℕ
unfolding septets
tdf_bytes v = if ltb v 0x40 then v ∷ [] else (v % 64 + 0x80) ∷ septets 10 (v / 64)

pub length-septets : (f n v : ℕ) → v < 128 ^ n → 0 < n → length (septets f v) ≤ n
unfolding septets
length-septets zero n v h p = omega arith
length-septets (suc f) zero v h p = absurd (omega arith)
length-septets (suc f) (suc zero) v h p = ground arith
length-septets (suc f) (suc (suc n)) v h p =
    ground (arith, length-septets f (suc n) (v / 128), pow-suc 128 (suc n), pow-suc 128 n)

pub length-septets-pos : (f v : ℕ) → 0 < f → 0 < length (septets f v)
unfolding septets
length-septets-pos zero v h = absurd (omega arith)
length-septets-pos (suc f) v h = ground arith

pub pow-pos : (n : ℕ) → 0 < 128 ^ n
pow-pos zero = omega arith
pow-pos (suc n) = omega (arith, pow-suc 128 n, pow-pos n)

-- The low `7 * (n + 1)` bits are the low seven and the low `7 * n` of the rest.
pub mod-pow-suc : (v n : ℕ) → v % 128 ^ suc n ≡ v % 128 + 128 * (v / 128 % 128 ^ n)
mod-pow-suc v n =
    let p = 128 ^ n in
    let q = v / 128 in
    let low = v % 128 + 128 * (q % p) in
    let small : low < 128 ^ suc n = omega (arith, pow-suc 128 n, pow-pos n) in
    let split : v ≡ low + 128 ^ suc n * (q / p) = omega (
      arith,
      ap (λ (t : ℕ). t * (q / p)) (pow-suc 128 n),
      ap (λ (t : ℕ). 128 * t) (div-add-mod q p),
    ) in
    ap (λ t. t % 128 ^ suc n) split
    ∙ add-mul-mod_self_left low (128 ^ suc n) (q / p)
    ∙ mod-eq_of_lt small
