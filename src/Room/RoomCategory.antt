-- ===== src/Room/RoomCategory.antt =====
-- SporeNet::RoomCategory (SporeNet/Room.h and Room.cpp). A shared pointer is the place of its object
-- in the manager's table.
use recap_server.Prelude.{ℕ, List, [], ◌∷◌, ◌++◌, Option, none, some}
use recap_server.Utils.Xml.{Text}
use recap_server.Utils.Hash.{codes}
use recap_server.Utils.Numbers.{to_string}
use recap_server.Room.Puts.{Put, put_integer, put_string, push_map, pop}

pub record RoomCategory : Type 0 where
  pub view : Option ℕ
  pub name : Text
  pub description : Text
  pub password : Text
  pub id : ℕ

unfoldable pub make : ℕ → RoomCategory
make id = record {
  view = none;
  name = codes "Lobby Category #" ++ to_string id;
  description = [];
  password = [];
  id = id;
}

unfoldable pub set_view : Option ℕ → RoomCategory → RoomCategory
set_view view c = record c { view = view }

-- `id_of_view` reads the identifier behind a view's pointer.
unfoldable pub write_to : (ℕ → ℕ) → RoomCategory → List Put
write_to id_of_view c =
    let view_id : ℕ = elim c.view [ none ↦ 0 | some v ↦ id_of_view v ] in
    put_integer "CAPA" 10
    ∷ push_map "CMET"
    ∷ pop
    ∷ push_map "CRIT"
    ∷ pop
    ∷ put_integer "CTID" c.id
    ∷ put_string "DESC" c.description
    ∷ put_string "DISP" []
    ∷ put_string "DISR" []
    ∷ put_integer "EMAX" 10
    ∷ put_integer "EPCT" 0
    ∷ put_integer "FLAG" 0
    ∷ push_map "GMET"
    ∷ pop
    ∷ put_string "LOCL" []
    ∷ put_string "NAME" c.name
    ∷ put_integer "NEXP" 1
    ∷ put_string "PASS" c.password
    ∷ put_integer "UCRT" 1
    ∷ put_integer "VWID" view_id
    ∷ []
