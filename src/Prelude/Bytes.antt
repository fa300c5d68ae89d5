-- ===== src/Prelude/Bytes.antt =====
-- Bytes and machine words as native numbers: a `size_t` or `uint64_t` wraps at 2 ^ 64, and a byte
-- is a number below 256.
use Prim.Native.Nat.{ℕ, ◌<◌, ◌^◌, ◌+◌, ◌%◌}
use mathlib.Core.List.{List, [], ◌∷◌, ◌++◌}

abbrev pub u8_mod : ℕ
u8_mod = 2 ^ 8

abbrev pub u16_mod : ℕ
u16_mod = 2 ^ 16

abbrev pub u32_mod : ℕ
u32_mod = 2 ^ 32

abbrev pub u64_mod : ℕ
u64_mod = 2 ^ 64

-- `a + b` on `size_t`.
abbrev pub add64 : ℕ → ℕ → ℕ
add64 a b = (a + b) % u64_mod

abbrev pub AreBytes : List ℕ → Type 0
AreBytes [] = Unit {0}
AreBytes (x ∷ xs) = (x < 256) × AreBytes xs

pub AreBytes-append : (xs ys : List ℕ) → AreBytes xs → AreBytes ys → AreBytes (xs ++ ys)
AreBytes-append [] ys hx hy = hy
AreBytes-append (x ∷ xs) ys hx hy = (hx.0, AreBytes-append xs ys hx.1 hy)
