-- ===== src/Tests/Rooms.antt =====
-- The rooms at small inputs.
use recap_server.Prelude.{
  ℕ, Bool, ◌≡◌, ◌%◌, ◌+◌, refl, [], ◌∷◌, none, some, arith, if◌then◌else◌, ◌==◌, length, map,
}
use recap_server.Prelude.Bytes.{u32_mod}
use recap_server.Map.{last_key}
use recap_server.Room.Table.{Table, get, create}
use recap_server.Room.Table.Laws.{create-next_key, next_key, HasRoom}
use recap_server.Room.Lobby.{write_users, make}
use recap_server.Room.Lobby.Population.{alive, put_id, write_users_lem}
use recap_server.Room.Manager.{RoomManager, new, create_room, remove_room, get_room, destroy_room}
use recap_server.Room.Manager.Reached.{
  IsValid, creates_room, removes_room, Reached, constructed, stepped, Reached-IsValid,
  get_room-destroy_room,
}

-- A table of two numbers, under 3 and 7.
abbrev two : Table ℕ
two = record { entries = (3, 0) ∷ (7, 1) ∷ []; objects = 30 ∷ 70 ∷ [] }

two-HasRoom : HasRoom two
unfolding last_key
two-HasRoom l e = ground (arith, e)

create-next_key_example :
    (get two 8 ≡ none)
    × (get (create (λ k. k) two 0).0 8 ≡ (if 8 == next_key two then some 2 else get two 8))
    × ((create (λ k. k) two 0).0.objects ≡ 30 ∷ 70 ∷ 8 ∷ [])
unfolding last_key
create-next_key_example =
    create-next_key (λ k. k) two 8 (omega arith, (omega arith, tt)) two-HasRoom

abbrev expired : ℕ → Bool
expired u = u == 11

write_users_lem_example : write_users expired ((1, 10) ∷ (2, 11) ∷ (3, 12) ∷ []) 0 ≡ (
  alive expired ((1, 10) ∷ (2, 11) ∷ (3, 12) ∷ []),
  map put_id (alive expired ((1, 10) ∷ (2, 11) ∷ (3, 12) ∷ [])),
  (0 + length (alive expired ((1, 10) ∷ (2, 11) ∷ (3, 12) ∷ []))) % u32_mod,
)
write_users_lem_example = write_users_lem expired ((1, 10) ∷ (2, 11) ∷ (3, 12) ∷ []) 0 (omega arith)

rooms_of_new : (get_room new 4 ≡ some 3) × (get_room new 5 ≡ none)
unfolding new get_room
rooms_of_new = (refl, refl)

-- A room is created, and the second one removed.
abbrev after : RoomManager
after = remove_room (create_room new 0).0 2

abbrev after-Reached : Reached after
after-Reached =
    stepped (stepped constructed (creates_room new 0)) (removes_room (create_room new 0).0 2)

Reached-IsValid_example : IsValid after
Reached-IsValid_example = Reached-IsValid after after-Reached

-- An old room with the identifier 1 is destroyed: the room that is registered now goes.
get_room-destroy_room_example :
    get_room (destroy_room after (make 1)) 1 ≡ (if 1 == (make 1).id then none else get_room after 1)
get_room-destroy_room_example =
    get_room-destroy_room after (make 1) 1 (Reached-IsValid after after-Reached)
