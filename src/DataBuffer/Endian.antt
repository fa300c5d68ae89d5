-- ===== src/DataBuffer/Endian.antt =====
-- The fixed-width integers of Core/IO/DataBuffer. `big` says whether the host is big-endian
-- (`is_big_endian()`), and `n` is the width in bytes: 2, 4 or 8. A float is handled as the bit
-- pattern that the union in the code reads.
pub mod HostFree
use mathlib.Core.List.{reverse}
use recap_server.Prelude.{
  ℕ, zero, suc, ◌+◌, ◌*◌, ◌/◌, ◌%◌, Bool, List, [], ◌∷◌, Option, none, some, if◌then◌else◌, ◌>>=◌,
}
use recap_server.DataBuffer.{DataBuffer, impl_peek, impl_read, impl_write}

unfoldable pub le_bytes : ℕ → ℕ → List ℕ
le_bytes zero v = []
le_bytes (suc n) v = (v % 256) ∷ le_bytes n (v / 256)

unfoldable pub of_le : List ℕ → ℕ
of_le [] = 0
of_le (x ∷ xs) = x + 256 * of_le xs

-- `BSWAP16`, `BSWAP32` and `BSWAP64`.
unfoldable pub bswap : ℕ → ℕ → ℕ
unfolding le_bytes of_le
bswap n v = of_le (reverse (le_bytes n v))

module _ (big : Bool) where
  -- How the host lays out an integer in memory.
  unfoldable pub native_bytes : ℕ → ℕ → List ℕ
  unfolding le_bytes
  native_bytes n v = if big then reverse (le_bytes n v) else le_bytes n v

  unfoldable pub of_native : List ℕ → ℕ
  unfolding of_le
  of_native xs = if big then of_le (reverse xs) else of_le xs

  -- `read<T>(&variable)`: `none` where the variable keeps its indeterminate value.
  unfoldable pub read_native : ℕ → DataBuffer → Option ℕ × DataBuffer
  unfolding of_native
  read_native n b = let (got, b') = impl_read b n in (got >>= λ xs. some (of_native xs), b')

  unfoldable pub peek_native : ℕ → DataBuffer → Option ℕ
  unfolding of_native
  peek_native n b = impl_peek b n >>= λ xs. some (of_native xs)

  unfoldable pub write_native : ℕ → DataBuffer → ℕ → Option DataBuffer
  unfolding native_bytes
  write_native n b v = impl_write b (native_bytes n v)

  unfoldable pub peek_le : ℕ → DataBuffer → Option ℕ
  unfolding peek_native bswap
  peek_le n b = peek_native n b >>= λ v. some (if big then bswap n v else v)

  unfoldable pub peek_be : ℕ → DataBuffer → Option ℕ
  unfolding peek_native bswap
  peek_be n b = peek_native n b >>= λ v. some (if big then v else bswap n v)

  unfoldable pub read_le : ℕ → DataBuffer → Option ℕ × DataBuffer
  unfolding read_native bswap
  read_le n b =
      let (got, b') = read_native n b in (got >>= λ v. some (if big then bswap n v else v), b')

  unfoldable pub read_be : ℕ → DataBuffer → Option ℕ × DataBuffer
  unfolding read_native bswap
  read_be n b =
      let (got, b') = read_native n b in (got >>= λ v. some (if big then v else bswap n v), b')

  unfoldable pub write_le : ℕ → DataBuffer → ℕ → Option DataBuffer
  unfolding write_native bswap
  write_le n b v = write_native n b (if big then bswap n v else v)

  unfoldable pub write_be : ℕ → DataBuffer → ℕ → Option DataBuffer
  unfolding write_native bswap
  write_be n b v = write_native n b (if big then v else bswap n v)
