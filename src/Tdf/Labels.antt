-- ===== src/Tdf/Labels.antt =====
-- CompressLabel and DecompressLabel: four characters in three bytes, six bits each. `0x20 | x` and
-- `0x40 | x` below the bit are sums, and the shifted groups have no common bit.
use recap_server.Prelude.{
  ℕ, zero, suc, ◌+◌, ◌-◌, ◌*◌, ◌/◌, ◌%◌, ◌^◌, ◌≤◌, ◌<◌, ◌≡◌, refl, ◌∙◌, List, [], ◌∷◌, arith, ltb,
  if◌then◌else◌, take, length,
}

-- BSWAP32.
unfoldable pub bswap32 : ℕ → ℕ
bswap32 n =
    n % 256 * 2 ^ 24 + n / 2 ^ 8 % 256 * 2 ^ 16 + n / 2 ^ 16 % 256 * 2 ^ 8 + n / 2 ^ 24 % 256

-- The loop of CompressLabel from `i` on, over what is left of the label.
compress_loop : ℕ → List ℕ → ℕ
compress_loop i [] = 0
compress_loop i (c ∷ cs) =
    let rest = compress_loop (i + 1) cs in
    if ltb i 4 then (0x20 + c % 32) * 64 ^ (3 - i) + rest else 0

unfoldable pub compress_label : List ℕ → ℕ
unfolding compress_loop bswap32
compress_label label = bswap32 (compress_loop 0 label) / 2 ^ 8

-- One round of DecompressLabel's loop: a group that is zero gives no character.
cons_group : ℕ → List ℕ → List ℕ
cons_group v rest = if ltb 0 v then (0x40 + v % 32) ∷ rest else rest

-- The loop of DecompressLabel, with `n` rounds left.
decompress_loop : ℕ → ℕ → List ℕ
unfolding cons_group
decompress_loop zero label = []
decompress_loop (suc n) label = cons_group (label / 64 ^ n % 64) (decompress_loop n label)

unfoldable pub decompress_label : ℕ → List ℕ
unfolding decompress_loop bswap32
decompress_label label = decompress_loop 4 (bswap32 label / 2 ^ 8)

-- A character of a label: '@', a capital letter, or one of the five signs after it.
abbrev pub IsLabel : List ℕ → Type 0
IsLabel [] = Unit {0}
IsLabel (c ∷ cs) = (0x40 ≤ c) × (c < 0x60) × IsLabel cs

swap_twice : (n : ℕ) → n < 2 ^ 24 → bswap32 (bswap32 n / 2 ^ 8) / 2 ^ 8 ≡ n
unfolding bswap32
swap_twice n h = omega arith

-- The code of a character: six bits, never zero.
abbrev six : ℕ → ℕ
six c = 0x20 + c % 32

digits :
    (a b c d : ℕ)
    → a < 64
    → b < 64
    → c < 64
    → d < 64
    → let n = a * 262144 + (b * 4096 + (c * 64 + d)) in
      (n / 262144 % 64 ≡ a)
      × (n / 4096 % 64 ≡ b)
      × (n / 64 % 64 ≡ c)
      × (n / 1 % 64 ≡ d)
      × (n < 2 ^ 24)
digits a b c d ha hb hc hd = (omega arith, omega arith, omega arith, omega arith, omega arith)

decompress_loop-digits :
    (a b c d n : ℕ)
    → a < 64
    → b < 64
    → c < 64
    → d < 64
    → n ≡ a * 262144 + (b * 4096 + (c * 64 + d))
    → decompress_loop 4 n ≡ cons_group a (cons_group b (cons_group c (cons_group d [])))
unfolding decompress_loop
decompress_loop-digits a b c d n ha hb hc hd e =
    let (pa, pb, pc, pd, small) = digits a b c d ha hb hc hd in rw e (rw (pa, pb, pc, pd) refl)

-- A label whose groups are given.
decompress-groups :
    (label : List ℕ) (a b c d : ℕ)
    → a < 64
    → b < 64
    → c < 64
    → d < 64
    → compress_loop 0 label ≡ a * 262144 + (b * 4096 + (c * 64 + d))
    → decompress_label (compress_label label)
      ≡ cons_group a (cons_group b (cons_group c (cons_group d [])))
unfolding decompress_label compress_label
decompress-groups label a b c d ha hb hc hd e =
    let (pa, pb, pc, pd, small) = digits a b c d ha hb hc hd in
    decompress_loop-digits a b c d (bswap32 (compress_label label) / 2 ^ 8) ha hb hc hd
      (swap_twice (compress_loop 0 label) (omega (arith, e, small)) ∙ e)

cons_group-six : (c : ℕ) (rest : List ℕ) → 0x40 ≤ c → c < 0x60 → cons_group (six c) rest ≡ c ∷ rest
unfolding cons_group
cons_group-six c rest low high = let e : 0x40 + six c % 32 ≡ c = omega arith in ground (arith, e)

cons_group-zero : (rest : List ℕ) → cons_group 0 rest ≡ rest
unfolding cons_group
cons_group-zero rest = refl

six_small : (c : ℕ) → six c < 64
six_small c = omega arith

-- What follows the fourth character adds nothing.
compress_loop_end : (cs : List ℕ) → compress_loop 4 cs ≡ 0
unfolding compress_loop
compress_loop_end [] = refl
compress_loop_end (c ∷ cs) = refl

-- DecompressLabel gives back the first four characters of a label of characters from 0x40 to 0x5F
-- that CompressLabel compressed.
pub decompress-compress :
    (label : List ℕ) → IsLabel label → decompress_label (compress_label label) ≡ take 4 label
unfolding compress_loop cons_group
decompress-compress [] ok =
    decompress-groups [] 0 0 0 0 (omega arith) (omega arith) (omega arith) (omega arith) refl
decompress-compress (a ∷ []) (oa, ha, ok) =
    decompress-groups (a ∷ []) (six a) 0 0 0 (six_small a) (omega arith) (omega arith) (omega arith)
      (omega arith)
    ∙ cons_group-six a [] oa ha
decompress-compress (a ∷ b ∷ []) (oa, ha, (ob, hb, ok)) =
    decompress-groups (a ∷ b ∷ []) (six a) (six b) 0 0 (six_small a) (six_small b) (omega arith)
      (omega arith) (omega arith)
    ∙ rw (cons_group-six b [] ob hb) (cons_group-six a (b ∷ []) oa ha)
decompress-compress (a ∷ b ∷ c ∷ []) (oa, ha, (ob, hb, (oc, hc, ok))) =
    decompress-groups (a ∷ b ∷ c ∷ []) (six a) (six b) (six c) 0 (six_small a) (six_small b)
      (six_small c) (omega arith) (omega arith)
    ∙ rw (cons_group-six c [] oc hc)
        (rw (cons_group-six b (c ∷ []) ob hb) (cons_group-six a (b ∷ c ∷ []) oa ha))
decompress-compress (a ∷ b ∷ c ∷ d ∷ rest) (oa, ha, (ob, hb, (oc, hc, (od, hd, ok)))) =
    decompress-groups (a ∷ b ∷ c ∷ d ∷ rest) (six a) (six b) (six c) (six d) (six_small a)
      (six_small b) (six_small c) (six_small d) (omega (arith, compress_loop_end rest))
    ∙ rw (cons_group-six d [] od hd) (
        rw (cons_group-six c (d ∷ []) oc hc)
          (rw (cons_group-six b (c ∷ d ∷ []) ob hb) (cons_group-six a (b ∷ c ∷ d ∷ []) oa ha)))

pub compress_label_small : (label : List ℕ) → compress_label label < 2 ^ 24
unfolding compress_label
compress_label_small label = omega arith

loop_small : (cs : List ℕ) → compress_loop 1 cs < 64 ^ 3
unfolding compress_loop
loop_small [] = omega arith
loop_small (b ∷ []) = omega arith
loop_small (b ∷ c ∷ []) = omega arith
loop_small (b ∷ c ∷ d ∷ cs) = omega (arith, compress_loop_end cs)

-- The first character of a label sets the top bit of the lowest byte.
pub compress_label_first : (label : List ℕ) → 0 < length label → 128 ≤ compress_label label % 256
unfolding compress_label compress_loop
compress_label_first [] some_left = absurd (omega arith)
compress_label_first (c ∷ cs) some_left = omega (arith, loop_small cs)
