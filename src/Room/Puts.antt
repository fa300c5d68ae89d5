-- ===== src/Room/Puts.antt =====
-- The calls that the rooms make on a Blaze::TDF::Packet.
use Prim.Native.String.{String}
use recap_server.Prelude.{ℕ}
use recap_server.Utils.Xml.{Text}

pub data Put : Type 0 where
  put_integer : String → ℕ → Put
  put_string : String → Text → Put
  push_map : String → Put
  push_list : String → Put
  pop : Put
