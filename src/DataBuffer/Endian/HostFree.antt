-- ===== src/DataBuffer/Endian/HostFree.antt =====
-- The bytes of the fixed-width integers on hosts of either byte order.
use mathlib.Core.List.{reverse, reverse-reverse, reverse-cons}
use native.Mathlib.Nat.{pow-suc}
use recap_server.Prelude.{
  ℕ, zero, suc, ◌+◌, ◌*◌, ◌/◌, ◌%◌, ◌^◌, ◌<◌, ◌≡◌, refl, ap, subst, ◌∙◌, Bool, true, false, List,
  [], ◌∷◌, ◌++◌, some, arith, length, length-append,
}
use recap_server.Prelude.Bytes.{AreBytes, AreBytes-append}
use recap_server.DataBuffer.{DataBuffer, impl_write}
use recap_server.DataBuffer.Reads.{Unread, advance, impl_read-Unread}
use recap_server.DataBuffer.Endian.{
  le_bytes, of_le, bswap, native_bytes, of_native, read_native, write_native, read_le, read_be,
  write_le, write_be,
}

pub length-le_bytes : (n v : ℕ) → length (le_bytes n v) ≡ n
unfolding le_bytes
length-le_bytes zero v = refl
length-le_bytes (suc n) v = ap suc (length-le_bytes n (v / 256))

le_bytes-AreBytes : (n v : ℕ) → AreBytes (le_bytes n v)
unfolding le_bytes
le_bytes-AreBytes zero v = tt
le_bytes-AreBytes (suc n) v = (omega arith, le_bytes-AreBytes n (v / 256))

pub of_le-le_bytes : (n v : ℕ) → v < 256 ^ n → of_le (le_bytes n v) ≡ v
unfolding le_bytes of_le
of_le-le_bytes zero v h = omega arith
of_le-le_bytes (suc n) v h =
    omega (arith, of_le-le_bytes n (v / 256) (omega (arith, pow-suc 256 n)))

le_bytes-of_le : (xs : List ℕ) → AreBytes xs → le_bytes (length xs) (of_le xs) ≡ xs
unfolding le_bytes of_le
le_bytes-of_le [] h = refl
le_bytes-of_le (x ∷ xs) h =
    let low : (x + 256 * of_le xs) % 256 ≡ x = omega (arith, h.0) in
    let high : (x + 256 * of_le xs) / 256 ≡ of_le xs = omega (arith, h.0) in
    rw (low, high, le_bytes-of_le xs h.1)

reverse-AreBytes : (xs : List ℕ) → AreBytes xs → AreBytes (reverse xs)
reverse-AreBytes [] h = tt
reverse-AreBytes (x ∷ xs) h =
    rw (reverse-cons x xs)
      (AreBytes-append (reverse xs) (x ∷ []) (reverse-AreBytes xs h.1) (h.0, tt))

length-reverse : (xs : List ℕ) → length (reverse xs) ≡ length xs
length-reverse [] = refl
length-reverse (x ∷ xs) =
    rw (reverse-cons x xs) (omega (arith, length-append (reverse xs) (x ∷ []), length-reverse xs))

le_bytes-of_le_at : (n : ℕ) (xs : List ℕ) → length xs ≡ n → AreBytes xs → le_bytes n (of_le xs) ≡ xs
le_bytes-of_le_at n xs e h = subst (λ k. le_bytes k (of_le xs) ≡ xs) e (le_bytes-of_le xs h)

le_bytes-bswap : (n v : ℕ) → le_bytes n (bswap n v) ≡ reverse (le_bytes n v)
unfolding bswap
le_bytes-bswap n v =
    le_bytes-of_le_at n (reverse (le_bytes n v))
      (length-reverse (le_bytes n v) ∙ length-le_bytes n v)
      (reverse-AreBytes (le_bytes n v) (le_bytes-AreBytes n v))

-- On a host of either byte order, the write functions of a little-endian integer write its bytes
-- from the lowest up, and those of a big-endian integer from the highest down.
pub write-host_free :
    (big : Bool) (n : ℕ) (b : DataBuffer) (v : ℕ)
    → (write_le big n b v ≡ impl_write b (le_bytes n v))
      × (write_be big n b v ≡ impl_write b (reverse (le_bytes n v)))
unfolding write_le write_be write_native native_bytes
write-host_free true n b v = (rw (le_bytes-bswap n v, reverse-reverse), refl)
write-host_free false n b v = (refl, rw (le_bytes-bswap n v))

bswap-reversed : (n v : ℕ) → v < 256 ^ n → bswap n (of_le (reverse (le_bytes n v))) ≡ v
unfolding bswap
bswap-reversed n v h =
    ap (λ t. of_le (reverse t))
      (le_bytes-of_le_at n (reverse (le_bytes n v))
        (length-reverse (le_bytes n v) ∙ length-le_bytes n v)
        (reverse-AreBytes (le_bytes n v) (le_bytes-AreBytes n v)))
    ∙ ap of_le (reverse-reverse (le_bytes n v))
    ∙ of_le-le_bytes n v h

straight : (n v : ℕ) → v < 256 ^ n → of_le (reverse (reverse (le_bytes n v))) ≡ v
straight n v h = ap of_le (reverse-reverse (le_bytes n v)) ∙ of_le-le_bytes n v h

module _ (big : Bool) (n v : ℕ) (b : DataBuffer) (rest : List ℕ) (range : v < 256 ^ n) where
  -- On a host of either byte order, the read functions of a little-endian integer give a value of
  -- their width whose bytes, the lowest first, come next in the buffer, and move the cursor past
  -- them.
  pub read_le-Unread : Unread b (le_bytes n v ++ rest) → read_le big n b ≡ (some v, advance b n)
  unfolding read_le read_native of_native
  read_le-Unread u =
      let run = (rw (length-le_bytes n v) at (impl_read-Unread (le_bytes n v) rest u).0) in
      elim big as (λ big. read_le big n b ≡ (some v, advance b n)) [
        | true ↦ rw (run, bswap-reversed n v range)
        | false ↦ rw (run, of_le-le_bytes n v range)
      ]

  -- On a host of either byte order, the read functions of a big-endian integer give a value of their
  -- width whose bytes, the highest first, come next in the buffer, and move the cursor past them.
  pub read_be-Unread :
      Unread b (reverse (le_bytes n v) ++ rest) → read_be big n b ≡ (some v, advance b n)
  unfolding read_be read_native of_native
  read_be-Unread u =
      let size = length-reverse (le_bytes n v) ∙ length-le_bytes n v in
      let run = (rw size at (impl_read-Unread (reverse (le_bytes n v)) rest u).0) in
      elim big as (λ big. read_be big n b ≡ (some v, advance b n)) [
        | true ↦ rw (run, straight n v range)
        | false ↦ rw (run, bswap-reversed n v range)
      ]

pub length-native_bytes : (big : Bool) (n v : ℕ) → length (native_bytes big n v) ≡ n
unfolding native_bytes
length-native_bytes true n v = length-reverse (le_bytes n v) ∙ length-le_bytes n v
length-native_bytes false n v = length-le_bytes n v

-- What a host writes it reads back.
pub read_native-Unread :
    (big : Bool) (n v : ℕ) (b : DataBuffer) (rest : List ℕ)
    → v < 256 ^ n
    → Unread b (native_bytes big n v ++ rest)
    → read_native big n b ≡ (some v, advance b n)
unfolding read_native native_bytes of_native
read_native-Unread true n v b rest range u =
    let run =
      (rw (length-native_bytes true n v) at (impl_read-Unread (native_bytes true n v) rest u).0) in
    rw run (λ i. (some (straight n v range i), advance b n))
read_native-Unread false n v b rest range u =
    let run =
      (rw (length-native_bytes false n v) at
        (impl_read-Unread (native_bytes false n v) rest u).0) in
    rw run (λ i. (some (of_le-le_bytes n v range i), advance b n))
