-- ===== src/Tdf/Parser/Steps.antt =====
-- What ReadValue and the loops of a Parser do at the header of a label and at the zero byte that ends
-- a struct, on a little-endian host.
use recap_server.Prelude.{
  ℕ, suc, ◌+◌, ◌*◌, ◌/◌, ◌%◌, ◌^◌, ◌≤◌, ◌<◌, ◌≡◌, refl, sym, ap, subst, ◌∙◌, List, [], ◌∷◌, ◌++◌,
  some, none, Option, arith, length, ◌>>=◌, ◌==◌, false, take_all, length-append,
}
use recap_server.Prelude.Bytes.{u64_mod}
use recap_server.DataBuffer.{DataBuffer, eof, skip}
use recap_server.DataBuffer.Reads.{Unread, advance, Unread-length}
use recap_server.DataBuffer.Varint.{peek_u8}
use recap_server.DataBuffer.Varint.RoundTrip.{read_u8-Unread}
use recap_server.DataBuffer.Endian.{native_bytes, le_bytes, read_native}
use recap_server.DataBuffer.Endian.HostFree.{length-native_bytes, read_native-Unread}
use recap_server.Json.{standard, Json, object, Members, end, find_member, append_member}
use recap_server.Tdf.Labels.{
  compress_label, decompress_label, decompress-compress, compress_label_small, compress_label_first,
}
use recap_server.Tdf.Codec.{TdfType, struct, type_number, of_number, read_header}
use recap_server.Tdf.Tree.{type_member}
use recap_server.Tdf.Parser.{
  Reader, add_object, add_read, after_header, read_case, read_value, read_until_zero,
  read_struct_value, read_struct,
}
use recap_server.Tdf.Parser.Reads.{Next, Reads, Next-append, advance-append}
use recap_server.Tdf.Tree.{Tdf, num, type_of, parsed}
use recap_server.Tdf.Tree.Wire.{header_bytes, IsName}

pub peek-Unread : {b : DataBuffer} (x : ℕ) (xs : List ℕ) → Unread b (x ∷ xs) → peek_u8 b ≡ some x
unfolding peek_u8
peek-Unread x xs u = rw (read_u8-Unread x xs u).0 refl

-- The number in a header.
abbrev pub header_number : List ℕ → TdfType → ℕ
header_number l type = compress_label l + type_number type % 256 * 2 ^ 24

header_read :
    (b : DataBuffer) (v : ℕ)
    → read_native false 4 b ≡ (some v, advance b 4)
    → read_header false b ≡ (
      some (record { label = decompress_label (v % 2 ^ 24); type = of_number (v / 2 ^ 24) }),
      advance b 4,
    )
unfolding read_header
header_read b v e =
    ap
      (λ (r : Option ℕ × DataBuffer). (
        r.0 >>= λ v.
            some (record { label = decompress_label (v % 2 ^ 24); type = of_number (v / 2 ^ 24) }),
        r.1,
      ))
      e

named_type : (t : Tdf) → of_number (type_number (type_of t) % 256) ≡ type_of t
named_type (num v) = refl
named_type t = refl

header-Unread :
    (l : List ℕ) (t : Tdf) (b : DataBuffer) (rest : List ℕ)
    → IsName l
    → Unread b (header_bytes false l (type_of t) ++ rest)
    → read_header false b ≡ (some (record { label = l; type = type_of t }), advance b 4)
header-Unread l t b rest (some_left, short, ok) u =
    let v = header_number l (type_of t) in
    let small = compress_label_small l in
    let low : v % 2 ^ 24 ≡ compress_label l = omega (arith, small) in
    let high : v / 2 ^ 24 ≡ type_number (type_of t) % 256 = omega (arith, small) in
    header_read b v (read_native-Unread false 4 v b rest (omega (arith, small)) u) ∙ λ i. (
      some (record {
        label = (ap decompress_label low ∙ decompress-compress l ok ∙ take_all 4 l short) i;
        type = (ap of_number high ∙ named_type t) i;
      }),
      advance b 4,
    )

-- The first byte of a header is neither the end of a struct nor the mark of a stub.
pub first_large : (l : List ℕ) (n : ℕ) → IsName l → 128 ≤ (compress_label l + n * 2 ^ 24) % 256
first_large l n h = omega (arith, compress_label_first l h.0)

pub header_first :
    (l : List ℕ) (type : TdfType)
    → header_bytes false l type
      ≡ (header_number l type % 256) ∷ le_bytes 3 (header_number l type / 256)
unfolding native_bytes
header_first l type = refl

-- The bytes in use go on after the header.
not_eof : (b : DataBuffer) (n : ℕ) → b.position + n ≤ b.size → 4 < n → eof (advance b 4) ≡ false
unfolding eof
not_eof b n used more = ground arith

add_fresh :
    (l : List ℕ) (ms : Members) (j : Json)
    → find_member l ms ≡ none
    → add_read standard l (object ms) (some j) ≡ object (append_member ms l j)
unfolding add_read add_object
add_fresh l ms j new = ground arith

after_step :
    (cases : TdfType → Reader (Option Json)) (l : List ℕ) (type : TdfType) (ms : Members) (j : Json)
    (c d : DataBuffer)
    → eof c ≡ false
    → cases type c ≡ some (some j, d)
    → find_member l ms ≡ none
    → after_header standard false cases (object ms) (some (record { label = l; type = type }), c)
      ≡ some (object (append_member ms l j), d)
unfolding after_header
after_step cases l type ms j c d more run new =
    rw (more, ◌>>=◌, run) (ap (λ k. some (k, d)) (add_fresh l ms j new))

-- ReadValue into an object that has no such member yet.
pub value_add :
    (f : ℕ) (l : List ℕ) (t : Tdf) (ms : Members) (xs : List ℕ)
    → IsName l
    → find_member l ms ≡ none
    → 0 < length xs
    → Reads
        (read_case standard
          (read_struct_value standard false f)
          (read_value standard false f)
          (read_until_zero standard false f)
          (type_of t))
        xs
        (some (parsed t))
    → Reads
        (read_value standard false (suc f) (object ms))
        (header_bytes false l (type_of t) ++ xs)
        (object (append_member ms l (parsed t)))
unfolding read_value
value_add f l t ms xs name new some_left p b rest n =
    let h = header_bytes false l (type_of t) in
    let (first, second) = Next-append h xs rest n in
    let four : length h ≡ 4 = length-native_bytes false 4 (header_number l (type_of t)) in
    let cases =
      read_case standard (read_struct_value standard false f) (read_value standard false f)
        (read_until_zero standard false f) in
    let c = advance b 4 in
    let next = subst (λ k. Next (advance b k) xs rest) four second in
    ap (after_header standard false cases (object ms))
      (header-Unread l t b (xs ++ rest) name first.unread)
    ∙ after_step cases l (type_of t) ms (parsed t) c (advance c (length xs))
        (not_eof b (length (h ++ xs)) n.used (omega (arith, four, length-append h xs)))
        (p c rest next) new
    ∙ ap (λ k. some (object (append_member ms l (parsed t)), k))
        (ap (λ k. advance (advance b k) (length xs)) (sym four) ∙ advance-append b h xs)

-- The bytes of a field.
abbrev pub field_bytes : List ℕ → TdfType → List ℕ → List ℕ
field_bytes l type xs = header_bytes false l type ++ xs

-- The first byte of a field, and what stands behind it.
pub field_first :
    (l : List ℕ) (type : TdfType) (xs : List ℕ)
    → IsName l
    → (c : ℕ) × (cs : List ℕ) × (header_bytes false l type ++ xs ≡ c ∷ cs) × (128 ≤ c)
field_first l type xs name = (
  header_number l type % 256,
  le_bytes 3 (header_number l type / 256) ++ xs,
  ap (λ t. t ++ xs) (header_first l type),
  first_large l (type_number type % 256) name,
)

pub until_more :
    (f x : ℕ) (parent parent' : Json) (b c : DataBuffer) {r : Option (Json × DataBuffer)}
    → peek_u8 b ≡ some x
    → 0 < x
    → read_value standard false f parent b ≡ some (parent', c)
    → read_until_zero standard false f parent' c ≡ r
    → read_until_zero standard false (suc f) parent b ≡ r
unfolding read_until_zero
until_more f x parent parent' b c peek pos run rest =
    let t : (x == 0) ≡ false = ground arith in rw (peek, ◌>>=◌, t, run) rest

-- The loop up to a zero byte ends there.
pub until_zero :
    (f : ℕ) (parent : Json) (b : DataBuffer) (xs : List ℕ)
    → Unread b (0 ∷ xs)
    → read_until_zero standard false (suc f) parent b ≡ some (parent, advance b 0)
unfolding read_until_zero
until_zero f parent b xs u = rw (peek-Unread 0 xs u, ◌>>=◌) (ground arith)

-- The fields up to a zero byte go into the object.
abbrev pub ReadsFields : ℕ → Members → List ℕ → Members → Type 0
ReadsFields f ms xs ns =
    (b : DataBuffer) (rest : List ℕ)
    → Next b (xs ++ 0 ∷ []) rest
    → read_until_zero standard false f (object ms) b ≡ some (object ns, advance b (length xs))

skip_one :
    (b : DataBuffer) (i n : ℕ)
    → n ≡ i + 1
    → b.position + n < u64_mod
    → skip (advance b i) 1 ≡ advance b n
unfolding skip
skip_one b i n e fits =
    let p : (b.position + i + 1) % u64_mod ≡ b.position + n = omega arith in
    λ t. record b { position = p t }

pub struct-Reads :
    (f : ℕ) (xs : List ℕ) (ns : Members)
    → ReadsFields f (type_member struct end) xs ns
    → Reads (read_struct_value standard false (suc f)) (xs ++ 0 ∷ []) (object ns)
unfolding read_struct_value read_struct
struct-Reads f xs ns p b rest n =
    let sum = length-append xs (0 ∷ []) in
    let whole = length-append (xs ++ 0 ∷ []) rest in
    rw (p b rest n, ◌>>=◌)
      (ap (λ k. some (object ns, k))
        (skip_one b (length xs) (length (xs ++ 0 ∷ [])) sum
          (omega (arith, sum, whole, Unread-length n.unread, n.unread.fits))))
