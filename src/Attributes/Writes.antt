-- ===== src/Attributes/Writes.antt =====
-- Attributes::SetValue as a whole.
use recap_server.Prelude.{
  ℕ, ◌<◌, ◌≡◌, refl, false, ◌&&◌, none, some, ltb, ◌==◌, if◌then◌else◌, ◌>>=◌, arith, inl, inr,
  Option-cases,
}
use recap_server.Attributes.{
  Float, client_count, Attributes, find, get_value, erase_index, set_bit, append, update, set_value,
}
use recap_server.Attributes.Values.{
  IsValid, stored, next, find-next, next-From, update-values, update-none,
}

module _ (float : Float) where
  open float use {Value, zero, is_zero, is_zero-zero}

  -- The bit that SetValue sets at its end.
  unfoldable pub marked : Attributes float → ℕ → Attributes float
  unfolding set_bit
  marked a idx = record a { data_bits = set_bit float a.data_bits idx }

  pub set_value-update :
      (a : Attributes float) (idx : ℕ) (v : Value)
      → set_value float a idx v ≡ (
          if ltb idx client_count
          then (update float a idx v >>= λ b. some (marked b idx))
          else some a)
  unfolding set_value marked
  set_value-update a idx v = refl

  marked-values : (a : Attributes float) (idx : ℕ) → (marked a idx).values ≡ a.values
  unfolding marked
  marked-values a idx = refl

  set_value-values :
      (a b : Attributes float) (idx : ℕ) (v : Value)
      → set_value float a idx v ≡ some b
      → b.values ≡ (if ltb idx client_count then next float idx v a.values else a.values)
  set_value-values a b idx v h = elim (Option-cases (update float a idx v)) [
    | inl e ↦ ground (arith, set_value-update a idx v)
    | inr (c, e) ↦
        ground
          (arith, set_value-update a idx v, update-values float a c idx v e, marked-values c idx)
  ]

  -- SetValue keeps the stored values in strictly rising order of their indices.
  pub set_value-IsValid :
      (a b : Attributes float) (idx : ℕ) (v : Value)
      → IsValid float a
      → set_value float a idx v ≡ some b
      → IsValid float b
  set_value-IsValid a b idx v ok h =
      ground (arith, set_value-values a b idx v h, next-From float idx v a.values ok)

  -- What GetValue returns for a value once it is set: zero for every zero.
  abbrev pub read_back : Value → Value
  read_back v = if is_zero v then zero else v

  -- After SetValue on attributes in rising order has returned, GetValue gives the new value at its
  -- index, or zero if the value is a zero, and the old value at every other index; an index from 111
  -- on changes nothing.
  pub get_value-set_value :
      (a b : Attributes float) (idx i : ℕ) (v : Value)
      → IsValid float a
      → set_value float a idx v ≡ some b
      → get_value float b i
        ≡ (if ltb idx client_count && i == idx then read_back v else get_value float a i)
  unfolding get_value stored
  get_value-set_value a b idx i v ok h =
      ground (arith, set_value-values a b idx v h, find-next float idx i v a.values ok)

  update_zero :
      (a : Attributes float) (idx : ℕ)
      → find float idx a.values ≡ none
      → update float a idx zero ≡ some a
  unfolding append
  update_zero a idx e = ground (arith, update-none float a idx zero e, is_zero-zero)

  update_faults :
      (a : Attributes float) (idx : ℕ) (v : Value)
      → find float idx a.values ≡ none
      → erase_index float idx a.erased_data ≡ none
      → is_zero v ≡ false
      → update float (marked a idx) idx v ≡ none
  unfolding append marked set_bit
  update_faults a idx v e1 e2 e3 = ground (arith, update-none float (marked a idx) idx v e1)

  -- When an index below 111 has no value and is not in mErasedData, SetValue with zero followed by
  -- SetValue with a value that is not zero erases the end of mErasedData, which is undefined.
  pub set_value-set_value :
      (a : Attributes float) (idx : ℕ) (v : Value)
      → idx < client_count
      → find float idx a.values ≡ none
      → erase_index float idx a.erased_data ≡ none
      → is_zero v ≡ false
      → (set_value float a idx zero >>= λ b. set_value float b idx v) ≡ none
  set_value-set_value a idx v lt e1 e2 e3 = ground (
    arith,
    set_value-update a idx zero,
    set_value-update (marked a idx) idx v,
    update_zero a idx e1,
    update_faults a idx v e1 e2 e3,
  )
