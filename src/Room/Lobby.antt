-- ===== src/Room/Lobby.antt =====
-- SporeNet::Room (SporeNet/Room.h and Room.cpp), and what it uses of a user. A shared pointer is the
-- place of its object in the manager's table.
pub mod Population
use Prim.Native.String.{String}
use recap_server.Prelude.{
  ℕ, ◌+◌, ◌%◌, Bool, true, false, List, [], ◌∷◌, ◌++◌, Option, none, some, if◌then◌else◌,
}
use recap_server.Prelude.Bytes.{u32_mod}
use recap_server.Utils.Xml.{Text}
use recap_server.Utils.Hash.{codes}
use recap_server.Utils.Numbers.{to_string}
use recap_server.Map.{Map, emplace}
use recap_server.Room.Puts.{Put, put_integer, put_string, push_map, push_list, pop}
use recap_server.Room.RoomCategory.{RoomCategory}

-- The users are weak pointers, by the identifier of the user.
pub record Room : Type 0 where
  pub users : Map ℕ
  pub category : Option ℕ
  pub name : Text
  pub password : Text
  pub id : ℕ
  pub capacity : ℕ

-- What a room uses of a user: where it is, its identifier as `uint64_t`, and its room.
pub record User : Type 0 where
  pub handle : ℕ
  pub id : ℕ
  pub room : Option ℕ

unfoldable pub make : ℕ → Room
make id = record {
  users = [];
  category = none;
  name = codes "Lobby #" ++ to_string id;
  password = [];
  id = id;
  capacity = 1;
}

unfoldable pub set_category : Option ℕ → Room → Room
set_category category r = record r { category = category }

-- User::SetRoom.
unfoldable pub set_room : ℕ → User → User
set_room room u = record u { room = some room }

-- `self` is `shared_from_this()`. A null user changes nothing.
unfoldable pub add_user : ℕ → Option User → Room → Room × Option User
unfolding emplace set_room
add_user self none r = (r, none)
add_user self (some u) r =
    (record r { users = emplace u.id u.handle r.users }, some (set_room self u))

-- The loop of WriteTo over the users: those that are left, the calls, and the population.
unfoldable pub write_users : (ℕ → Bool) → Map ℕ → ℕ → Map ℕ × List Put × ℕ
write_users expired [] population = ([], [], population)
write_users expired ((id, u) ∷ users) population =
    let dead = write_users expired users population in
    let (kept, puts, total) = write_users expired users ((population + 1) % u32_mod) in
    if expired u then dead else ((id, u) ∷ kept, put_integer "" id ∷ puts, total)

-- The fields after the list of users.
unfoldable pub write_fields : Text → ℕ → ℕ → Room → List Put
write_fields category_name category_id population r =
    put_integer "CAP" r.capacity
    ∷ put_string "CNAM" category_name
    ∷ put_integer "CRET" 0
    ∷ push_map "CRIT"
    ∷ pop
    ∷ put_integer "CRTM" 0
    ∷ put_integer "CTID" category_id
    ∷ put_integer "ENUM" 1
    ∷ put_string "HNAM" (codes "Lobby")
    ∷ put_integer "HOST" 1
    ∷ put_string "NAME" r.name
    ∷ put_integer "POPU" population
    ∷ put_string "PSWD" r.password
    ∷ put_string "PVAL" []
    ∷ put_integer "RMID" r.id
    ∷ put_integer "UCRT" 1
    ∷ []

-- The name and the identifier of the category; `category_at` reads it behind its pointer.
unfoldable pub category_of : (ℕ → RoomCategory) → Option ℕ → Text × ℕ
category_of category_at none = (codes "Unknown category", 0)
category_of category_at (some c) = ((category_at c).name, (category_at c).id)

-- `expired` is `weak_ptr::expired`.
unfoldable pub write_to : (ℕ → RoomCategory) → (ℕ → Bool) → Room → Room × List Put
unfolding write_users write_fields category_of
write_to category_at expired r =
    let (category_name, category_id) = category_of category_at r.category in
    let (users, puts, population) = write_users expired r.users 0 in
    (
      record r { users = users },
      put_integer "AREM" 1
          ∷ push_map "ATTR"
          ∷ pop
          ∷ push_list "BLST"
          ∷ (puts ++ pop ∷ write_fields category_name category_id population r),
    )
