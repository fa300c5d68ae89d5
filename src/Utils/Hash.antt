-- ===== src/Utils/Hash.antt =====
-- `utils::hash_id` (Core/Utils/Functions.h): the FNV hash of a text in lower case, over `uint32_t`.
use Prim.Native.Char.{code}
use Prim.Native.String.{String}
use recap_server.Prelude.{ℕ, ◌-◌, ◌*◌, ◌%◌, List, [], ◌∷◌, bit_xor, ltb, ◌==◌, if◌then◌else◌}
use recap_server.Prelude.Bytes.{u32_mod}
use recap_server.Utils.Numbers.{const_tolower}

-- The bytes of an ASCII text.
abbrev pub codes : String → List ℕ
codes String.[] = []
codes (String.◌∷◌ c s) = code c ∷ codes s

-- A `char` is signed: from 128 on it is negative, and its conversion to `uint32_t` wraps.
char_to_u32 : ℕ → ℕ
unfolding const_tolower
char_to_u32 c = if ltb c 128 then const_tolower c else u32_mod - (256 - c)

-- One round: multiply by the prime, then mix the character in.
hash_step : ℕ → ℕ → ℕ
unfolding char_to_u32
hash_step h c = bit_xor (h * 0x1000193 % u32_mod) (char_to_u32 c)

-- The loop ends at the terminating zero.
hash_from : ℕ → List ℕ → ℕ
unfolding hash_step
hash_from h [] = h
hash_from h (c ∷ cs) = let rest = hash_from (hash_step h c) cs in if c == 0 then h else rest

unfoldable pub hash_id : List ℕ → ℕ
unfolding hash_from
hash_id text = hash_from 0x811C9DC5 text
