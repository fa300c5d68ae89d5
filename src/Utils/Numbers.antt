-- ===== src/Utils/Numbers.antt =====
-- `utils::to_number` in base ten over the C library's `strtoul`, and `std::to_string`.
pub mod RoundTrip
use recap_server.Prelude.{
  ℕ, zero, suc, ◌^◌, ◌+◌, ◌-◌, ◌*◌, ◌/◌, ◌%◌, Bool, true, false, List, [], ◌∷◌, ◌++◌, ltb, leb,
  ◌==◌, if◌then◌else◌, ◌&&◌, ◌||◌, min, not, map,
}
use recap_server.Prelude.Bytes.{u64_mod}
use recap_server.Prelude.Int.{ℤ, pos, negsuc, sub_ℕ}

is_digit : ℕ → Bool
is_digit c = leb b'0' c && leb c b'9'

-- `isspace` of the C locale: space, and tab to carriage return.
unfoldable pub is_space : ℕ → Bool
is_space c = c == 32 || (leb 9 c && leb c 13)

-- The value of the digits up to the first other character, after the digits read so far.
digits_value : ℕ → List ℕ → ℕ
unfolding is_digit
digits_value acc [] = acc
digits_value acc (c ∷ cs) = elim (is_digit c) [
  | true ↦ digits_value (acc * 10 + (c - b'0')) cs
  | false ↦ acc
]

skip_space : List ℕ → List ℕ
unfolding is_space
skip_space [] = []
skip_space (c ∷ cs) = elim (is_space c) [ true ↦ skip_space cs | false ↦ c ∷ cs ]

-- A value that does not fit is ULONG_MAX, with either sign.
saturate : ℕ → ℕ
saturate n = min n (u64_mod - 1)

negate : ℕ → ℕ
negate n = if ltb n u64_mod then (u64_mod - n) % u64_mod else u64_mod - 1

signed_value : List ℕ → ℕ
unfolding digits_value saturate negate
signed_value [] = 0
signed_value (c ∷ cs) =
    if c == b'-'
    then negate (digits_value 0 cs)
    else if c == b'+'
    then saturate (digits_value 0 cs)
    else saturate (digits_value 0 (c ∷ cs))

-- `strtoul(text, nullptr, 10)`, with `unsigned long` of 64 bits.
unfoldable pub strtoul : List ℕ → ℕ
unfolding skip_space signed_value
strtoul text = signed_value (skip_space text)

-- `to_number<T>` for an unsigned `T` with `modulus` values: the conversion keeps the low bits.
unfoldable pub to_number : ℕ → List ℕ → ℕ
unfolding strtoul
to_number modulus text = strtoul text % modulus

-- `const_tolower`.
unfoldable pub const_tolower : ℕ → ℕ
const_tolower c = if leb b'A' c && leb c b'Z' then c + (b'a' - b'A') else c

-- `string_iequals`.
unfoldable pub string_iequals : List ℕ → List ℕ → Bool
unfolding const_tolower
string_iequals [] [] = true
string_iequals [] (y ∷ ys) = false
string_iequals (x ∷ xs) [] = false
string_iequals (x ∷ xs) (y ∷ ys) = const_tolower x == const_tolower y && string_iequals xs ys

-- `to_number<bool>`.
unfoldable pub to_bool : List ℕ → Bool
unfolding string_iequals strtoul
to_bool text =
    if string_iequals text (b't' ∷ b'r' ∷ b'u' ∷ b'e' ∷ []) then true else ltb 0 (strtoul text)

-- `std::to_string` of an unsigned number, with room for `fuel` digits.
decimal : ℕ → ℕ → List ℕ
decimal zero n = []
decimal (suc fuel) n =
    if ltb n 10 then (b'0' + n) ∷ [] else decimal fuel (n / 10) ++ (b'0' + n % 10) ∷ []

-- A `uint64_t` has at most twenty digits.
unfoldable pub to_string : ℕ → List ℕ
unfolding decimal
to_string n = decimal 20 n

-- `std::to_string` of a `bool`.
unfoldable pub bool_to_string : Bool → List ℕ
bool_to_string b = if b then b'1' ∷ [] else b'0' ∷ []

-- A magnitude as an `int64_t` of a sign, at the limits where it does not fit.
to_signed : Bool → ℕ → ℤ
to_signed true n = sub_ℕ 0 (min n (2 ^ 63))
to_signed false n = pos (min n (2 ^ 63 - 1))

signed_number : List ℕ → ℤ
unfolding digits_value to_signed
signed_number [] = pos 0
signed_number (c ∷ cs) =
    if c == b'-'
    then to_signed true (digits_value 0 cs)
    else if c == b'+'
    then to_signed false (digits_value 0 cs)
    else to_signed false (digits_value 0 (c ∷ cs))

-- `to_number<int64_t>`, by `strtoll(text, nullptr, 10)`.
unfoldable pub to_int64 : List ℕ → ℤ
unfolding skip_space signed_number
to_int64 text = signed_number (skip_space text)

-- `std::to_string` of an `int64_t`.
unfoldable pub int64_to_string : ℤ → List ℕ
unfolding decimal
int64_to_string (pos n) = decimal 20 n
int64_to_string (negsuc n) = b'-' ∷ decimal 20 (suc n)
