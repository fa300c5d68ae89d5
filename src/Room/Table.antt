-- ===== src/Room/Table.antt =====
-- One of the three maps of SporeNet::RoomManager: GetX, CreateX and RemoveX (SporeNet/Room.cpp). The
-- objects stand in the order of their creation, and a shared pointer is the place of its object.
pub mod Laws
pub mod Named
use recap_server.Prelude.{
  ℕ, ◌+◌, ◌%◌, ◌==◌, List, [], ◌∷◌, ◌++◌, Option, none, some, if◌then◌else◌, length, set, get_elem?,
}
use recap_server.Prelude.Bytes.{u32_mod}
use recap_server.Map.{Map, find, emplace, erase, last_key}

pub record Table (A : Type 0) : Type 0 where
  pub entries : Map ℕ
  pub objects : List A

module _ {A : Type 0} where
  abbrev pub empty : Table A
  empty = record { entries = []; objects = [] }

  unfoldable pub get : Table A → ℕ → Option ℕ
  unfolding find
  get t id = find id t.entries

  -- The identifier of a new object: zero asks for the one after the last.
  unfoldable pub chosen_id : Table A → ℕ → ℕ
  unfolding last_key
  chosen_id t id =
      if id == 0
      then elim (last_key t.entries) [ none ↦ 1 | some last ↦ (last + 1) % u32_mod ]
      else id

  pub add : Table A → ℕ → A → Table A × ℕ
  unfolding emplace
  add t id object =
      let handle = length t.objects in
      (
        record t { entries = emplace id handle t.entries; objects = t.objects ++ object ∷ [] },
        handle,
      )

  -- `try_emplace`, and the new object where the identifier is free.
  unfoldable pub create : (ℕ → A) → Table A → ℕ → Table A × ℕ
  unfolding chosen_id find add
  create make t id =
      let key = chosen_id t id in
      elim (find key t.entries) [ some handle ↦ (t, handle) | none ↦ add t key (make key) ]

  unfoldable pub remove : Table A → ℕ → Table A
  unfolding find erase
  remove t id = elim (find id t.entries) [
    | some handle ↦ record t { entries = erase id t.entries }
    | none ↦ t
  ]

  -- A change of the object behind a shared pointer.
  unfoldable pub update : Table A → ℕ → (A → A) → Table A
  update t handle f = elim (get_elem? t.objects handle) [
    | none ↦ t
    | some object ↦ record t { objects = set t.objects handle (f object) }
  ]
