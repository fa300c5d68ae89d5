-- ===== src/Room/Manager.antt =====
-- SporeNet::RoomManager (SporeNet/Room.h and Room.cpp). A shared pointer is the place of its object.
pub mod Reached
use recap_server.Prelude.{ℕ, ◌+◌, zero, suc, List, [], ◌∷◌, Option, none, some, get_elem?}
use recap_server.Map.{Map, erase}
use recap_server.Room.Table.{Table, empty, get, create, remove, update}
use recap_server.Room.RoomView.{RoomView, make as make_view}
use recap_server.Room.RoomCategory.{RoomCategory, set_view, make as make_category}
use recap_server.Room.Lobby.{Room, User, set_category, add_user, set_room, make as make_room}

pub record RoomManager : Type 0 where
  pub rooms : Table Room
  pub room_categories : Table RoomCategory
  pub room_views : Table RoomView

unfoldable pub get_room : RoomManager → ℕ → Option ℕ
unfolding get
get_room m id = get m.rooms id

unfoldable pub create_room : RoomManager → ℕ → RoomManager × ℕ
unfolding create
create_room m id = let (t, room) = create make_room m.rooms id in (record m { rooms = t }, room)

unfoldable pub remove_room : RoomManager → ℕ → RoomManager
unfolding remove
remove_room m id = record m { rooms = remove m.rooms id }

unfoldable pub get_room_category : RoomManager → ℕ → Option ℕ
unfolding get
get_room_category m id = get m.room_categories id

unfoldable pub create_room_category : RoomManager → ℕ → RoomManager × ℕ
unfolding create
create_room_category m id =
    let (t, category) = create make_category m.room_categories id in
    (record m { room_categories = t }, category)

unfoldable pub remove_room_category : RoomManager → ℕ → RoomManager
unfolding remove
remove_room_category m id = record m { room_categories = remove m.room_categories id }

unfoldable pub get_room_view : RoomManager → ℕ → Option ℕ
unfolding get
get_room_view m id = get m.room_views id

unfoldable pub create_room_view : RoomManager → ℕ → RoomManager × ℕ
unfolding create
create_room_view m id =
    let (t, view) = create make_view m.room_views id in (record m { room_views = t }, view)

unfoldable pub remove_room_view : RoomManager → ℕ → RoomManager
unfolding remove
remove_room_view m id = record m { room_views = remove m.room_views id }

-- `~Room`, `~RoomCategory` and `~RoomView`: what is registered under the identifier is removed.
unfoldable pub destroy_room : RoomManager → Room → RoomManager
unfolding remove_room
destroy_room m room = remove_room m room.id

unfoldable pub destroy_room_category : RoomManager → RoomCategory → RoomManager
unfolding remove_room_category
destroy_room_category m category = remove_room_category m category.id

unfoldable pub destroy_room_view : RoomManager → RoomView → RoomManager
unfolding remove_room_view
destroy_room_view m view = remove_room_view m view.id

-- Room::SetCategory and Room::AddUser on the room at a place.
unfoldable pub set_room_category : RoomManager → ℕ → Option ℕ → RoomManager
unfolding update set_category
set_room_category m room category = record m { rooms = update m.rooms room (set_category category) }

unfoldable pub set_category_view : RoomManager → ℕ → Option ℕ → RoomManager
unfolding update set_view
set_category_view m category view = record m {
  room_categories = update m.room_categories category (set_view view);
}

unfoldable pub add_room_user : RoomManager → ℕ → Option User → RoomManager × Option User
unfolding update add_user set_room
add_room_user m room user = (
  record m { rooms = update m.rooms room (λ r. (add_user room user r).0) },
  elim user [ none ↦ none | some u ↦ some (set_room room u) ],
)

-- The end of Room::RemoveUser: a room without users is removed.
close_if_empty : RoomManager → ℕ → Map ℕ → RoomManager
unfolding remove_room
close_if_empty m id [] = remove_room m id
close_if_empty m id (e ∷ users) = m

abbrev pub set_users : Map ℕ → Room → Room
set_users users r = record r { users = users }

unfoldable pub remove_room_user : RoomManager → ℕ → Option User → RoomManager
unfolding update erase close_if_empty
remove_room_user m room none = m
remove_room_user m room (some u) = elim (get_elem? m.rooms.objects room) [
  | none ↦ m
  | some r ↦
      let users = erase u.id r.users in
      close_if_empty (record m { rooms = update m.rooms room (set_users users) }) r.id users
]

-- The loops of the constructor, from `i` on.
make_categories : ℕ → ℕ → ℕ → RoomManager → RoomManager
unfolding create_room_category set_category_view
make_categories zero i view m = m
make_categories (suc n) i view m =
    let (m', category) = create_room_category m (i + 1) in
    make_categories n (i + 1) view (set_category_view m' category (some view))

make_rooms : ℕ → ℕ → RoomManager → RoomManager
unfolding create_room set_room_category get_room_category
make_rooms zero i m = m
make_rooms (suc n) i m =
    let (m', room) = create_room m (i + 1) in
    make_rooms n (i + 1) (set_room_category m' room (get_room_category m' (i + 1)))

unfoldable pub new : RoomManager
unfolding create_room_view make_categories make_rooms
new =
    let (m, view) =
      create_room_view (record { rooms = empty; room_categories = empty; room_views = empty }) 1 in
    make_rooms 4 0 (make_categories 4 0 view m)
