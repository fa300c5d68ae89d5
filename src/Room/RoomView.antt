-- ===== src/Room/RoomView.antt =====
-- SporeNet::RoomView (SporeNet/Room.h and Room.cpp).
use recap_server.Prelude.{ℕ, List, [], ◌∷◌, ◌++◌}
use recap_server.Utils.Xml.{Text}
use recap_server.Utils.Hash.{codes}
use recap_server.Utils.Numbers.{to_string}
use recap_server.Room.Puts.{Put, put_integer, put_string, push_map, pop}

pub record RoomView : Type 0 where
  pub name : Text
  pub id : ℕ

unfoldable pub make : ℕ → RoomView
make id = record { name = codes "Lobby View #" ++ to_string id; id = id }

unfoldable pub write_to : RoomView → List Put
write_to v =
    put_string "DISP" (codes "hello")
    ∷ push_map "GMET"
    ∷ pop
    ∷ push_map "META"
    ∷ pop
    ∷ put_integer "MXRM" 1
    ∷ put_string "NAME" v.name
    ∷ put_integer "USRM" 0
    ∷ put_integer "VWID" v.id
    ∷ []
