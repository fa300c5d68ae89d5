-- ===== src/Attributes.antt =====
-- Game::Attributes (Game/Attributes.h and Attributes.cpp): the attributes of an object that are not
-- zero, and what changed since the last reflection. A `float` is a parameter with its zero test; the
-- weak pointer to the owner is a handle.
pub mod Lookup
pub mod Values
pub mod Writes
pub mod Reflection
pub mod Erasures
pub mod Sync
use recap_server.Prelude.{
  ℕ, ◌+◌, ◌≡◌, Bool, true, false, not, ◌&&◌, ◌||◌, List, [], ◌∷◌, ◌++◌, Option, none, some, ltb,
  ◌==◌, if◌then◌else◌, ◌>>=◌, length, suc, ◌-◌,
}

-- What is used of `float`: zero compares equal to zero.
pub record Float : Type 1 where
  pub Value : Type 0
  pub zero : Value
  pub is_zero : Value → Bool
  pub is_zero-zero : is_zero zero ≡ true

-- `AttributeType::ClientCount`.
abbrev pub client_count : ℕ
client_count = 111

module _ (float : Float) where
  open float use {Value, zero, is_zero}

  pub record Attributes : Type 0 where
    pub values : List (ℕ × Value)
    pub erased_data : List ℕ
    pub data_bits : ℕ → Bool
    pub min_weapon_damage : Value
    pub max_weapon_damage : Value
    pub owner : Option ℕ

  -- The default member initialisers.
  abbrev pub new : Attributes
  new = record {
    values = [];
    erased_data = [];
    data_bits = λ i. false;
    min_weapon_damage = zero;
    max_weapon_damage = zero;
    owner = none;
  }

  -- `std::find_if` by the index: the value there, unless it is the end.
  unfoldable pub find : ℕ → List (ℕ × Value) → Option Value
  find idx [] = none
  find idx ((i, v) ∷ rest) = if i == idx then some v else find idx rest

  unfoldable pub get_value : Attributes → ℕ → Value
  unfolding find
  get_value a idx = elim (find idx a.values) [ none ↦ zero | some v ↦ v ]

  -- `mData.erase(it)`, with `it` at the index.
  pub erase_data : ℕ → List (ℕ × Value) → List (ℕ × Value)
  erase_data idx [] = []
  erase_data idx ((i, v) ∷ rest) = if i == idx then rest else (i, v) ∷ erase_data idx rest

  -- `std::get<1>(*it) = value`.
  pub assign : ℕ → Value → List (ℕ × Value) → List (ℕ × Value)
  assign idx v [] = []
  assign idx v ((i, w) ∷ rest) = if i == idx then (i, v) ∷ rest else (i, w) ∷ assign idx v rest

  -- One insertion of `std::sort`, by the index.
  pub insert_sorted : ℕ × Value → List (ℕ × Value) → List (ℕ × Value)
  insert_sorted e [] = e ∷ []
  insert_sorted e ((i, w) ∷ rest) =
      if ltb i e.0 then (i, w) ∷ insert_sorted e rest else e ∷ (i, w) ∷ rest

  pub sort : List (ℕ × Value) → List (ℕ × Value)
  unfolding insert_sorted
  sort [] = []
  sort (e ∷ rest) = insert_sorted e (sort rest)

  -- `mErasedData.erase(std::find(…))`: undefined, `none`, where `find` gives the end.
  unfoldable pub erase_index : ℕ → List ℕ → Option (List ℕ)
  erase_index idx [] = none
  erase_index idx (i ∷ rest) =
      if i == idx then some rest else (erase_index idx rest >>= λ r. some (i ∷ r))

  pub set_bit : (ℕ → Bool) → ℕ → ℕ → Bool
  set_bit bits idx i = i == idx || bits i

  -- The branch of SetValue where the index has a value.
  pub change : Attributes → ℕ → Value → Attributes
  unfolding erase_data assign
  change a idx v =
      if is_zero v
      then record a { values = erase_data idx a.values; erased_data = a.erased_data ++ idx ∷ [] }
      else record a { values = assign idx v a.values }

  -- The branch where it has none.
  pub append : Attributes → ℕ → Value → Option Attributes
  unfolding sort erase_index
  append a idx v =
      if is_zero v
      then some a
      else ((if a.data_bits idx then erase_index idx a.erased_data else some a.erased_data)
          >>= λ erased.
              some (record a { erased_data = erased; values = sort (a.values ++ (idx, v) ∷ []) }))

  -- The change to the values, before the bit is set.
  pub update : Attributes → ℕ → Value → Option Attributes
  unfolding find change append
  update a idx v = elim (find idx a.values) [
    | none ↦ append a idx v
    | some old ↦ some (change a idx v)
  ]

  unfoldable pub set_value : Attributes → ℕ → Value → Option Attributes
  unfolding update set_bit
  set_value a idx v =
      if ltb idx client_count
      then (update a idx v >>= λ b. some (record b { data_bits = set_bit b.data_bits idx }))
      else some a

  unfoldable pub get_weapon_damage : Attributes → Value × Value
  get_weapon_damage a = (a.min_weapon_damage, a.max_weapon_damage)

  unfoldable pub set_weapon_damage : Attributes → Value → Value → Attributes
  set_weapon_damage a lo hi = record a { min_weapon_damage = lo; max_weapon_damage = hi }

  unfoldable pub set_owner_object : Attributes → ℕ → Attributes
  set_owner_object a object = record a { owner = some object }

  -- The pairs that WriteReflection hands to the reflection serializer, in order.
  pub changed : (ℕ → Bool) → List (ℕ × Value) → List (ℕ × Value)
  changed bits [] = []
  changed bits ((i, v) ∷ rest) = if bits i then (i, v) ∷ changed bits rest else changed bits rest

  pub erased : List ℕ → List (ℕ × Value)
  erased [] = []
  erased (i ∷ rest) = (i, zero) ∷ erased rest

  unfoldable pub reflection : Attributes → List (ℕ × Value)
  unfolding changed erased
  reflection a =
      changed a.data_bits a.values
      ++ (erased a.erased_data ++ (111, a.min_weapon_damage) ∷ (112, a.max_weapon_damage) ∷ [])

  unfoldable pub reset_reflection_bits : Attributes → Attributes
  reset_reflection_bits a = record a { data_bits = λ i. false; erased_data = [] }

  -- A loop of WriteTo, `n` rounds from the index `i` on: the values in order, at offsets four bytes
  -- apart from the start of the object.
  write_from : ℕ → Attributes → ℕ → ℕ → List (ℕ × Value)
  unfolding get_value
  write_from Prim.Native.Nat.zero a offset i = []
  write_from (suc n) a offset i = (offset, get_value a i) ∷ write_from n a (offset + 4) (i + 1)

  -- The floats of WriteTo with their offsets. The index is a `uint8_t`, and there are fewer than 256
  -- values, so the second loop ends.
  unfoldable pub write_to : Attributes → List (ℕ × Value)
  unfolding write_from
  write_to a =
      write_from 0x63 a 0x26C 0
      ++ (write_from (length a.values - 0x63) a 0x400 0x63
          ++ (0x43C, a.min_weapon_damage) ∷ (0x440, a.max_weapon_damage) ∷ [])
