-- ===== src/Room/Manager/Reached.antt =====
-- The states that a RoomManager can reach, and what holds in each.
use recap_server.Prelude.{
  ℕ, ◌+◌, ◌≡◌, refl, zero, suc, [], ◌∷◌, Option, none, some, get_elem?, Option-cases, inl, inr,
  arith, if◌then◌else◌, ◌==◌,
}
use recap_server.Map.{Map, find, erase}
use recap_server.Room.Table.{Table, empty, get, create, remove, update}
use recap_server.Room.Table.Laws.{IsSorted, create-IsSorted, remove-IsSorted, get-remove}
use recap_server.Room.Table.Named.{
  IsNamed, create-IsNamed, remove-IsNamed, update-IsNamed, update-IsSorted,
}
use recap_server.Room.RoomView.{RoomView, make as make_view}
use recap_server.Room.RoomCategory.{RoomCategory, set_view, make as make_category}
use recap_server.Room.Lobby.{Room, User, set_category, add_user, make as make_room}
use recap_server.Room.Manager.{
  RoomManager, create_room, remove_room, create_room_category, remove_room_category,
  create_room_view, remove_room_view, destroy_room, destroy_room_category, destroy_room_view,
  set_room_category, set_category_view, add_room_user, remove_room_user, make_categories,
  make_rooms, get_room, get_room_category, new, close_if_empty, set_users,
}

-- A table is in order, and its objects carry the identifiers they are registered under.
abbrev pub IsTable : {A : Type 0} → (A → ℕ) → Table A → Type 0
IsTable id_of t = IsSorted t × IsNamed id_of t

abbrev pub room_id : Room → ℕ
room_id r = r.id

abbrev pub category_id : RoomCategory → ℕ
category_id c = c.id

abbrev pub view_id : RoomView → ℕ
view_id v = v.id

abbrev pub IsValid : RoomManager → Type 0
IsValid m =
    IsTable room_id m.rooms × IsTable category_id m.room_categories × IsTable view_id m.room_views

create-IsTable :
    {A : Type 0} (id_of : A → ℕ) (make : ℕ → A) (t : Table A) (id : ℕ)
    → ((k : ℕ) → id_of (make k) ≡ k)
    → IsTable id_of t
    → IsTable id_of (create make t id).0
create-IsTable id_of make t id named (s, n) =
    (create-IsSorted make t id s, create-IsNamed id_of make t id named s n)

remove-IsTable :
    {A : Type 0} (id_of : A → ℕ) (t : Table A) (id : ℕ)
    → IsTable id_of t
    → IsTable id_of (remove t id)
remove-IsTable id_of t id (s, n) = (remove-IsSorted t id s, remove-IsNamed id_of t id s n)

update-IsTable :
    {A : Type 0} (id_of : A → ℕ) (t : Table A) (f : A → A) (handle : ℕ)
    → ((o : A) → id_of (f o) ≡ id_of o)
    → IsTable id_of t
    → IsTable id_of (update t handle f)
update-IsTable id_of t f handle same (s, n) =
    (update-IsSorted t f handle s, update-IsNamed id_of t f handle same n)

-- One operation on the manager or on an object that it made.
pub data Step : RoomManager → RoomManager → Type 0 where
  creates_room : (m : RoomManager) (id : ℕ) → Step m (create_room m id).0
  creates_category : (m : RoomManager) (id : ℕ) → Step m (create_room_category m id).0
  creates_view : (m : RoomManager) (id : ℕ) → Step m (create_room_view m id).0
  removes_room : (m : RoomManager) (id : ℕ) → Step m (remove_room m id)
  removes_category : (m : RoomManager) (id : ℕ) → Step m (remove_room_category m id)
  removes_view : (m : RoomManager) (id : ℕ) → Step m (remove_room_view m id)
  destroys_room : (m : RoomManager) (room : Room) → Step m (destroy_room m room)
  destroys_category : (m : RoomManager) (c : RoomCategory) → Step m (destroy_room_category m c)
  destroys_view : (m : RoomManager) (v : RoomView) → Step m (destroy_room_view m v)
  sets_category : (m : RoomManager) (room : ℕ) (c : Option ℕ) → Step m (set_room_category m room c)
  sets_view : (m : RoomManager) (c : ℕ) (v : Option ℕ) → Step m (set_category_view m c v)
  adds_user : (m : RoomManager) (room : ℕ) (u : Option User) → Step m (add_room_user m room u).0
  removes_user : (m : RoomManager) (room : ℕ) (u : Option User) → Step m (remove_room_user m room u)

pub data Reached : RoomManager → Type 0 where
  constructed : Reached new
  stepped : {m m' : RoomManager} → Reached m → Step m m' → Reached m'

create_room-IsValid : (m : RoomManager) (id : ℕ) → IsValid m → IsValid (create_room m id).0
unfolding create_room make_room
create_room-IsValid m id (r, c, v) =
    (create-IsTable room_id make_room m.rooms id (λ k. refl) r, c, v)

create_room_category-IsValid :
    (m : RoomManager) (id : ℕ) → IsValid m → IsValid (create_room_category m id).0
unfolding create_room_category make_category
create_room_category-IsValid m id (r, c, v) =
    (r, create-IsTable category_id make_category m.room_categories id (λ k. refl) c, v)

create_room_view-IsValid :
    (m : RoomManager) (id : ℕ) → IsValid m → IsValid (create_room_view m id).0
unfolding create_room_view make_view
create_room_view-IsValid m id (r, c, v) =
    (r, c, create-IsTable view_id make_view m.room_views id (λ k. refl) v)

set_room_category-IsValid :
    (m : RoomManager) (room : ℕ) (c : Option ℕ) → IsValid m → IsValid (set_room_category m room c)
unfolding set_room_category set_category
set_room_category-IsValid m room category (r, c, v) =
    (update-IsTable room_id m.rooms (set_category category) room (λ o. refl) r, c, v)

set_category_view-IsValid :
    (m : RoomManager) (c : ℕ) (v : Option ℕ) → IsValid m → IsValid (set_category_view m c v)
unfolding set_category_view set_view
set_category_view-IsValid m category view (r, c, v) =
    (r, update-IsTable category_id m.room_categories (set_view view) category (λ o. refl) c, v)

add_user-id : (room : ℕ) (user : Option User) (r : Room) → (add_user room user r).0.id ≡ r.id
unfolding add_user
add_user-id room none r = refl
add_user-id room (some u) r = refl

remove_room-IsValid : (m : RoomManager) (id : ℕ) → IsValid m → IsValid (remove_room m id)
unfolding remove_room
remove_room-IsValid m id (r, c, v) = (remove-IsTable room_id m.rooms id r, c, v)

close_if_empty-IsValid :
    (m : RoomManager) (id : ℕ) (users : Map ℕ) → IsValid m → IsValid (close_if_empty m id users)
unfolding close_if_empty
close_if_empty-IsValid m id [] ok = remove_room-IsValid m id ok
close_if_empty-IsValid m id (e ∷ users) ok = ok

remove_room_user-IsValid :
    (m : RoomManager) (room : ℕ) (u : Option User) → IsValid m → IsValid (remove_room_user m room u)
unfolding remove_room_user
remove_room_user-IsValid m room none ok = ok
remove_room_user-IsValid m room (some u) (r, c, v) =
    elim (Option-cases (get_elem? m.rooms.objects room)) [
      | inl e ↦ rw (e, remove_room_user) (r, c, v)
      | inr (o, e) ↦
          rw (e, remove_room_user)
            (close_if_empty-IsValid
              (record m { rooms = update m.rooms room (set_users (erase u.id o.users)) }) o.id
              (erase u.id o.users)
              (
                update-IsTable room_id m.rooms (set_users (erase u.id o.users)) room (λ o. refl) r,
                c,
                v,
              ))
    ]

step-IsValid : {m m' : RoomManager} → Step m m' → IsValid m → IsValid m'
unfolding remove_room remove_room_category remove_room_view destroy_room destroy_room_category
    destroy_room_view add_room_user
step-IsValid (creates_room m id) ok = create_room-IsValid m id ok
step-IsValid (creates_category m id) ok = create_room_category-IsValid m id ok
step-IsValid (creates_view m id) ok = create_room_view-IsValid m id ok
step-IsValid (removes_room m id) ok = remove_room-IsValid m id ok
step-IsValid (removes_category m id) (r, c, v) =
    (r, remove-IsTable category_id m.room_categories id c, v)
step-IsValid (removes_view m id) (r, c, v) = (r, c, remove-IsTable view_id m.room_views id v)
step-IsValid (destroys_room m room) ok = remove_room-IsValid m room.id ok
step-IsValid (destroys_category m d) (r, c, v) =
    (r, remove-IsTable category_id m.room_categories d.id c, v)
step-IsValid (destroys_view m d) (r, c, v) = (r, c, remove-IsTable view_id m.room_views d.id v)
step-IsValid (sets_category m room c) ok = set_room_category-IsValid m room c ok
step-IsValid (sets_view m c v) ok = set_category_view-IsValid m c v ok
step-IsValid (adds_user m room u) (r, c, v) =
    (update-IsTable room_id m.rooms (λ o. (add_user room u o).0) room (add_user-id room u) r, c, v)
step-IsValid (removes_user m room u) ok = remove_room_user-IsValid m room u ok

make_categories-IsValid :
    (n i view : ℕ) (m : RoomManager) → IsValid m → IsValid (make_categories n i view m)
unfolding make_categories
make_categories-IsValid zero i view m ok = ok
make_categories-IsValid (suc n) i view m ok =
    let (m', category) = create_room_category m (i + 1) in
    make_categories-IsValid n (i + 1) view (set_category_view m' category (some view)) (
      set_category_view-IsValid m' category (some view) (create_room_category-IsValid m (i + 1) ok))

make_rooms-IsValid : (n i : ℕ) (m : RoomManager) → IsValid m → IsValid (make_rooms n i m)
unfolding make_rooms
make_rooms-IsValid zero i m ok = ok
make_rooms-IsValid (suc n) i m ok =
    let (m', room) = create_room m (i + 1) in
    let category = get_room_category m' (i + 1) in
    make_rooms-IsValid n (i + 1) (set_room_category m' room category)
      (set_room_category-IsValid m' room category (create_room-IsValid m (i + 1) ok))

empty-IsTable : {A : Type 0} (id_of : A → ℕ) → IsTable id_of (empty {A = A})
unfolding get find
empty-IsTable id_of = (tt, λ id handle h. ground arith)

-- In every state that RoomManager reaches from its constructor by creating, removing and destroying
-- rooms, categories and views, setting categories and views, and adding and removing users, each of
-- the three maps is in strictly rising order of its identifiers, and the object that is registered
-- under an identifier exists and carries this identifier.
pub Reached-IsValid : (m : RoomManager) → Reached m → IsValid m
unfolding new
Reached-IsValid m constructed =
    let m0 : RoomManager = record { rooms = empty; room_categories = empty; room_views = empty } in
    let (m1, view) = create_room_view m0 1 in
    make_rooms-IsValid 4 0 (make_categories 4 0 view m1) (
      make_categories-IsValid 4 0 view m1 (
        create_room_view-IsValid m0 1
          (empty-IsTable room_id, empty-IsTable category_id, empty-IsTable view_id)))
Reached-IsValid m (stepped r s) = step-IsValid s (Reached-IsValid _ r)

-- In a manager that is in order, the destructor of a room takes whatever room is registered under
-- its identifier out of the map, and leaves every other identifier as it was.
pub get_room-destroy_room :
    (m : RoomManager) (room : Room) (id : ℕ)
    → IsValid m
    → get_room (destroy_room m room) id ≡ (if id == room.id then none else get_room m id)
unfolding get_room destroy_room remove_room
get_room-destroy_room m room id (r, c, v) = get-remove m.rooms room.id id r.0
