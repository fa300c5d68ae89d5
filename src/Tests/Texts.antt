-- ===== src/Tests/Texts.antt =====
-- Numbers in text and texts in XML at small inputs.
use recap_server.Prelude.{◌≡◌, arith}
use recap_server.Prelude.Bytes.{u32_mod}
use recap_server.Utils.Numbers.{to_number, to_string}
use recap_server.Utils.Numbers.RoundTrip.{to_number-to_string}

to_number-to_string_example : to_number u32_mod (to_string 4294967295) ≡ 4294967295
to_number-to_string_example = to_number-to_string u32_mod 4294967295 (omega arith) (omega arith)
