-- ===== src/Tdf/Parser/Reads.antt =====
-- Reads seen as lists of bytes: a reader that takes some bytes wherever they come next and gives a
-- value, and how such readers are put together.
use native.Mathlib.Nat.{mod-eq_of_lt}
use recap_server.Prelude.{
  ℕ, suc, ◌+◌, ◌^◌, ◌≤◌, ◌<◌, ◌≡◌, refl, sym, ap, subst, ◌∙◌, List, [], ◌∷◌, ◌++◌, Option, some,
  arith, length, append_assoc, length-append, ◌>>=◌, ltb, true, false,
}
use recap_server.DataBuffer.{DataBuffer}
use recap_server.DataBuffer.Reads.{Unread, advance, impl_read-Unread}
use recap_server.DataBuffer.Varint.{read_u8}
use recap_server.DataBuffer.Varint.Septets.{tdf_bytes}
use recap_server.DataBuffer.Varint.RoundTrip.{decode-Unread, read_u8-Unread, length-tdf_bytes}
use recap_server.Json.{number, text}
use recap_server.Tdf.Codec.{read_integer, read_string, max_size}
use recap_server.Tdf.Codec.RoundTrip.{text_bytes, read_string-Unread}
use recap_server.Tdf.Parser.{Reader, ◌>>>◌, return, read_number, read_text, read_chars, read_blob}

-- The bytes come next, all of them in use.
pub record Next (b : DataBuffer) (xs rest : List ℕ) : Type 0 where
  pub unread : Unread b (xs ++ rest)
  pub used : b.position + length xs ≤ b.size

abbrev pub Reads : {A : Type 0} → Reader A → List ℕ → A → Type 0
Reads r xs a =
    (b : DataBuffer) (rest : List ℕ) → Next b xs rest → r b ≡ some (a, advance b (length xs))

pub Reads-return : {A : Type 0} (a : A) → Reads (return a) [] a
Reads-return a b rest n = ground arith

-- The second part of what comes next, after the first is read.
pub Next-append :
    {b : DataBuffer} (xs ys rest : List ℕ)
    → Next b (xs ++ ys) rest
    → Next b xs (ys ++ rest) × Next (advance b (length xs)) ys rest
Next-append {b} xs ys rest n =
    let u : Unread b (xs ++ (ys ++ rest)) = subst (Unread b) (append_assoc xs ys rest) n.unread in
    (
      record { unread = u; used = omega (arith, n.used, length-append xs ys) },
      record {
        unread = (impl_read-Unread xs (ys ++ rest) u).1;
        used = omega (arith, n.used, length-append xs ys);
      },
    )

pub advance-append :
    (b : DataBuffer) (xs ys : List ℕ)
    → advance (advance b (length xs)) (length ys) ≡ advance b (length (xs ++ ys))
advance-append b xs ys = ground (arith, length-append xs ys)

pub Reads->>> :
    {A B : Type 0} {r : Reader A} {c : B} (s : A → Reader B) (xs ys : List ℕ) (a : A)
    → Reads r xs a
    → Reads (s a) ys c
    → Reads (r >>> s) (xs ++ ys) c
Reads->>> {c = c} s xs ys a p q b rest n =
    let (first, second) = Next-append xs ys rest n in
    rw (p b (ys ++ rest) first, ◌>>=◌)
      (q (advance b (length xs)) rest second ∙ ap (λ d. some (c, d)) (advance-append b xs ys))

pub Reads-u8 : (x : ℕ) → Reads read_u8 (x ∷ []) x
Reads-u8 x b rest n = (read_u8-Unread x rest n.unread).0

pub Reads-integer : (v : ℕ) → v < 2 ^ 55 → Reads read_integer (tdf_bytes v) v
unfolding read_integer
Reads-integer v small b rest n =
    decode-Unread v b rest (omega arith) n.unread
    ∙ same_read b (mod-eq_of_lt small) (omega (arith, length-tdf_bytes v small))
  where
    same_read :
        {m k i j : ℕ} (b : DataBuffer)
        → m ≡ k
        → i ≡ j
        → ◌≡◌ {A = Option (ℕ × DataBuffer)} (some (m, advance b i)) (some (k, advance b j))
    same_read b p q = cc

pub Reads-string : (s : List ℕ) → length s + 1 < 2 ^ 55 → Reads read_string (text_bytes s) s
Reads-string s small b rest n = read_string-Unread b s rest small n.unread

-- A reader whose value is wrapped.
pub Reads-then :
    {A B : Type 0} {r : Reader A} (f : A → B) (xs : List ℕ) (a : A)
    → Reads r xs a
    → Reads (r >>> λ x. return (f x)) xs (f a)
Reads-then f xs a p b rest n = rw (p b rest n, ◌>>=◌) refl

pub Reads-number : (v : ℕ) → v < 2 ^ 55 → Reads read_number (tdf_bytes v) (number v)
unfolding read_number
Reads-number v small = Reads-then number (tdf_bytes v) v (Reads-integer v small)

pub Reads-text : (s : List ℕ) → length s + 1 < 2 ^ 55 → Reads read_text (text_bytes s) (text s)
unfolding read_text
Reads-text s small = Reads-then text (text_bytes s) s (Reads-string s small)

pub Reads-chars : (s : List ℕ) → length s ≤ max_size → Reads (read_chars (length s)) s s
unfolding read_chars
Reads-chars [] small b rest n = ground arith
Reads-chars (c ∷ cs) small b rest n =
    let (got, next) = impl_read-Unread (c ∷ cs) rest n.unread in
    let t : ltb max_size (suc (length cs)) ≡ false = ground arith in
    let p : ltb 0 (suc (length cs)) ≡ true = ground arith in rw (got, p, t) refl

pub Reads-blob :
    (s : List ℕ) → length s + 1 < 2 ^ 55 → Reads read_blob (tdf_bytes (length s) ++ s) (text s)
unfolding read_blob
Reads-blob s small =
    Reads->>> _ (tdf_bytes (length s)) s (length s) (Reads-integer (length s) (omega arith))
      (Reads-then text s s (Reads-chars s (omega arith)))

-- What is read in two parts or in one.
pub Reads-append_assoc :
    {A : Type 0} {r : Reader A} {a : A} (xs ys zs : List ℕ)
    → Reads r (xs ++ (ys ++ zs)) a
    → Reads r ((xs ++ ys) ++ zs) a
Reads-append_assoc {r = r} {a} xs ys zs p = subst (λ t. Reads r t a) (sym (append_assoc xs ys zs)) p
