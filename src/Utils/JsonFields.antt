-- ===== src/Utils/JsonFields.antt =====
-- The numbers of a JSON object through Core/Utils/JSON.cpp. An assertion of rapidjson that fails is
-- `none`.
use recap_server.Prelude.{ℕ, ◌%◌, List, Option, none, some, ltb, if◌then◌else◌, ◌>>=◌}
use recap_server.Prelude.Bytes.{u8_mod, u16_mod, u32_mod}
use recap_server.Json.{Json, number, Members, Rapidjson}

-- `Value::GetUint` asserts that the value is a number of 32 bits.
unfoldable pub uint : Json → Option ℕ
uint (number n) = if ltb n u32_mod then some n else none
uint other = none

-- A name that is not there gives zero.
unfoldable pub found_uint : Option Json → Option ℕ
unfolding uint
found_uint none = some 0
found_uint (some v) = uint v

module _ (json : Rapidjson) (ms : Members) where
  unfoldable pub get_uint : List ℕ → Option ℕ
  unfolding found_uint
  get_uint label = found_uint (json.find label ms)

  unfoldable pub get_uint16 : List ℕ → Option ℕ
  unfolding get_uint
  get_uint16 label = get_uint label >>= λ n. some (n % u16_mod)

  unfoldable pub get_uint8 : List ℕ → Option ℕ
  unfolding get_uint
  get_uint8 label = get_uint label >>= λ n. some (n % u8_mod)
