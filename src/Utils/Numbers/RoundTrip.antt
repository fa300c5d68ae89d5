-- ===== src/Utils/Numbers/RoundTrip.antt =====
-- A number that is printed and read back.
use native.Mathlib.Nat.{pow-suc, mod-eq_of_lt}
use recap_server.Prelude.{
  ℕ, zero, suc, ◌+◌, ◌-◌, ◌*◌, ◌/◌, ◌%◌, ◌^◌, ◌≤◌, ◌<◌, ◌≡◌, refl, ap, ◌∙◌, Bool, true, false, List,
  [], ◌∷◌, ◌++◌, arith, ltb, Bool-cases, inl, inr, ◌==◌,
}
use recap_server.Prelude.Bytes.{u64_mod}
use recap_server.Prelude.Int.{ℤ, pos, negsuc}
use recap_server.Utils.CText.{c_string}
use recap_server.Utils.Numbers.{
  to_int64, int64_to_string, signed_number, to_signed, is_space, digits_value, skip_space, saturate,
  signed_value, strtoul, to_number, decimal, to_string, to_bool, bool_to_string,
}

abbrev pub AreDigits : List ℕ → Type 0
AreDigits [] = Unit {0}
AreDigits (c ∷ cs) = ((48 ≤ c) × (c ≤ 57)) × AreDigits cs

digits_value-snoc :
    (cs : List ℕ) (d acc : ℕ)
    → AreDigits cs
    → d < 10
    → digits_value acc (cs ++ (48 + d) ∷ []) ≡ digits_value acc cs * 10 + d
unfolding digits_value
digits_value-snoc [] d acc h small = ground arith
digits_value-snoc (c ∷ cs) d acc h small =
    ground (arith, digits_value-snoc cs d (acc * 10 + (c - 48)) h.1 small)

AreDigits-snoc : (cs : List ℕ) (d : ℕ) → AreDigits cs → d < 10 → AreDigits (cs ++ (48 + d) ∷ [])
AreDigits-snoc [] d h small = ((omega arith, omega arith), tt)
AreDigits-snoc (c ∷ cs) d h small = (h.0, AreDigits-snoc cs d h.1 small)

decimal-AreDigits : (f n : ℕ) → AreDigits (decimal f n)
unfolding decimal
decimal-AreDigits zero n = tt
decimal-AreDigits (suc f) n = elim (Bool-cases (ltb n 10)) [
  | inl e ↦ rw e ((omega arith, ground arith), tt)
  | inr e ↦
      rw e
        (AreDigits-snoc (decimal f (n / 10)) (n % 10) (decimal-AreDigits f (n / 10)) (omega arith))
]

digits_value-decimal : (f n : ℕ) → n < 10 ^ f → 0 < f → digits_value 0 (decimal f n) ≡ n
unfolding decimal
digits_value-decimal zero n h p = absurd (omega arith)
digits_value-decimal (suc f) n h p = elim (Bool-cases (ltb n 10)) [
  | inl e ↦ rw e (unfold digits_value in ground arith)
  | inr e ↦
      let d = n / 10 in
      rw e (
        digits_value-snoc (decimal f d) (n % 10) 0 (decimal-AreDigits f d) (omega arith)
        ∙ ap (λ t. t * 10 + n % 10)
            (digits_value-decimal f d (omega (arith, pow-suc 10 f)) (ground (arith, pow-suc 10 f)))
        ∙ omega arith)
]

strtoul-AreDigits : (cs : List ℕ) → AreDigits cs → strtoul cs ≡ saturate (digits_value 0 cs)
unfolding strtoul skip_space signed_value saturate digits_value
strtoul-AreDigits [] h = omega arith
strtoul-AreDigits (c ∷ cs) ((lo, hi), h) =
    let space : is_space c ≡ false = unfold is_space in ground arith in
    let minus : (c == b'-') ≡ false = ground arith in
    let plus : (c == b'+') ≡ false = ground arith in
    rw (space, skip_space, signed_value) (rw (minus, plus))

pub to_string-AreDigits : (n : ℕ) → AreDigits (to_string n)
unfolding to_string
to_string-AreDigits n = decimal-AreDigits 20 n

c_string-AreDigits : (cs : List ℕ) → AreDigits cs → c_string cs ≡ cs
unfolding c_string
c_string-AreDigits [] h = refl
c_string-AreDigits (c ∷ cs) ((lo, hi), h) = ground (arith, lo, c_string-AreDigits cs h)

-- A printed number has no zero byte.
pub c_string-to_string : (n : ℕ) → c_string (to_string n) ≡ to_string n
c_string-to_string n = c_string-AreDigits (to_string n) (to_string-AreDigits n)

pub c_string-bool_to_string : (b : Bool) → c_string (bool_to_string b) ≡ bool_to_string b
unfolding c_string bool_to_string
c_string-bool_to_string true = refl
c_string-bool_to_string false = refl

pub c_string-int64_to_string : (z : ℤ) → c_string (int64_to_string z) ≡ int64_to_string z
unfolding int64_to_string c_string to_string
c_string-int64_to_string (pos n) = c_string-to_string n
c_string-int64_to_string (negsuc n) = ap (λ t. b'-' ∷ t) (c_string-to_string (suc n))

-- `strtoul` reads what `std::to_string` prints of a `uint64_t`.
pub strtoul-to_string : (n : ℕ) → n < u64_mod → strtoul (to_string n) ≡ n
unfolding to_string
strtoul-to_string n h =
    strtoul-AreDigits (decimal 20 n) (decimal-AreDigits 20 n)
    ∙ ap saturate (digits_value-decimal 20 n (omega arith) (omega arith))
    ∙ unfold saturate in omega arith

-- to_number of an unsigned type, given by its modulus of at most 2 ^ 64, reads back what
-- std::to_string prints of a value below the modulus.
pub to_number-to_string :
    (modulus n : ℕ) → n < modulus → modulus ≤ u64_mod → to_number modulus (to_string n) ≡ n
unfolding to_number
to_number-to_string modulus n h wide = rw (strtoul-to_string n (omega arith)) (mod-eq_of_lt h)

pub to_bool-bool_to_string : (b : Bool) → to_bool (bool_to_string b) ≡ b
unfolding to_bool bool_to_string
to_bool-bool_to_string true = refl
to_bool-bool_to_string false = refl

abbrev pub FitsInt64 : ℤ → Type 0
FitsInt64 (pos n) = n < 2 ^ 63
FitsInt64 (negsuc n) = n < 2 ^ 63

signed_number-AreDigits :
    (cs : List ℕ)
    → AreDigits cs
    → digits_value 0 cs < 2 ^ 63
    → to_int64 cs ≡ pos (digits_value 0 cs)
unfolding to_int64 skip_space signed_number to_signed digits_value
signed_number-AreDigits [] h small = ap pos (omega arith)
signed_number-AreDigits (c ∷ cs) ((lo, hi), h) small =
    let space : is_space c ≡ false = unfold is_space in ground arith in
    let minus : (c == b'-') ≡ false = ground arith in
    let plus : (c == b'+') ≡ false = ground arith in
    rw (space, skip_space, signed_number) (rw (minus, plus) (ap pos (omega arith)))

-- to_number of int64_t reads back what std::to_string prints of an int64_t.
pub to_int64-int64_to_string : (z : ℤ) → FitsInt64 z → to_int64 (int64_to_string z) ≡ z
unfolding int64_to_string
to_int64-int64_to_string (pos n) h =
    let value = digits_value-decimal 20 n (omega arith) (omega arith) in
    signed_number-AreDigits (decimal 20 n) (decimal-AreDigits 20 n) (rw value h) ∙ ap pos value
to_int64-int64_to_string (negsuc n) h =
    let value = digits_value-decimal 20 (suc n) (omega arith) (omega arith) in
    unfold to_int64 skip_space is_space signed_number to_signed in rw value (ground arith)
