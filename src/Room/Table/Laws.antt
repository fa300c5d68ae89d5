-- ===== src/Room/Table/Laws.antt =====
-- CreateX and RemoveX as they are seen through GetX.
use recap_server.Prelude.{
  ℕ, ◌+◌, ◌%◌, ◌<◌, ◌≡◌, refl, ap, ◌∙◌, subst, [], ◌∷◌, ◌++◌, ◌==◌, none, some, if◌then◌else◌,
  length, Option-cases, inl, inr, arith,
}
use recap_server.Prelude.Bytes.{u32_mod}
use recap_server.Map.{find, last_key}
use recap_server.Map.Laws.{
  From, find-emplace, emplace-From, find-erase, erase-From, last_key_none, last_key_bound,
}
use recap_server.Room.Table.{Table, get, chosen_id, add, create, remove}

module _ {A : Type 0} where
  abbrev pub IsSorted : Table A → Type 0
  IsSorted t = From 0 t.entries

  pub create_old :
      (make : ℕ → A) (t : Table A) (id handle : ℕ)
      → find (chosen_id t id) t.entries ≡ some handle
      → create make t id ≡ (t, handle)
  unfolding create
  create_old make t id handle e = rw (e, create) refl

  pub create_new :
      (make : ℕ → A) (t : Table A) (id : ℕ)
      → find (chosen_id t id) t.entries ≡ none
      → create make t id ≡ add t (chosen_id t id) (make (chosen_id t id))
  unfolding create
  create_new make t id e = rw (e, create) refl

  pub get-add :
      (t : Table A) (id j : ℕ) (object : A)
      → IsSorted t
      → find id t.entries ≡ none
      → get (add t id object).0 j ≡ (if j == id then some (add t id object).1 else get t j)
  unfolding get add
  get-add t id j object ok e = ground (arith, find-emplace id j 0 (length t.objects) t.entries ok)

  get-create :
      (make : ℕ → A) (t : Table A) (id j : ℕ)
      → IsSorted t
      → get (create make t id).0 j
        ≡ (if j == chosen_id t id then some (create make t id).1 else get t j)
  unfolding get
  get-create make t id j ok = elim (Option-cases (find (chosen_id t id) t.entries)) [
    | inl e ↦
        rw (create_new make t id e) (get-add t (chosen_id t id) j (make (chosen_id t id)) ok e)
    | inr (handle, e) ↦ rw (create_old make t id handle e) (ground arith)
  ]

  pub create-IsSorted :
      (make : ℕ → A) (t : Table A) (id : ℕ) → IsSorted t → IsSorted (create make t id).0
  unfolding add
  create-IsSorted make t id ok = elim (Option-cases (find (chosen_id t id) t.entries)) [
    | inl e ↦
        rw (create_new make t id e)
          (emplace-From (chosen_id t id) 0 (length t.objects) t.entries (omega arith) ok)
    | inr (handle, e) ↦ rw (create_old make t id handle e) ok
  ]

  -- After a RemoveX on a map in order, GetX gives nothing under the removed identifier and the old
  -- result under every other.
  pub get-remove :
      (t : Table A) (id j : ℕ)
      → IsSorted t
      → get (remove t id) j ≡ (if j == id then none else get t j)
  unfolding get remove
  get-remove t id j ok = elim (Option-cases (find id t.entries)) [
    | inl e ↦ rw (e, remove) (ground arith)
    | inr (handle, e) ↦ rw (e, remove) (find-erase id j 0 t.entries ok)
  ]

  pub remove-IsSorted : (t : Table A) (id : ℕ) → IsSorted t → IsSorted (remove t id)
  unfolding remove
  remove-IsSorted t id ok = elim (Option-cases (find id t.entries)) [
    | inl e ↦ rw (e, remove) ok
    | inr (handle, e) ↦ rw (e, remove) (erase-From id 0 t.entries ok)
  ]

  -- The identifiers that are in use leave room for one more.
  abbrev pub HasRoom : Table A → Type 0
  HasRoom t = (l : ℕ) → last_key t.entries ≡ some l → l + 1 < u32_mod

  -- The identifier that CreateX chooses for an argument of zero is free, if the map is in order and
  -- its last identifier is below 2 ^ 32 - 1.
  chosen_id-IsFree : (t : Table A) → IsSorted t → HasRoom t → get t (chosen_id t 0) ≡ none
  unfolding get chosen_id
  chosen_id-IsFree t ok room = elim (Option-cases (last_key t.entries)) [
    | inl e ↦ last_key_none t.entries e (chosen_id t 0)
    | inr (l, e) ↦
        rw (e, chosen_id, get)
          (last_key_bound l 0 t.entries ok e ((l + 1) % u32_mod) (omega (arith, room l e))).0
  ]

  -- One above the identifier that is the last one, or one.
  abbrev pub next_key : Table A → ℕ
  next_key t = elim (last_key t.entries) [ none ↦ 1 | some last ↦ last + 1 ]

  chosen_id-next_key : (t : Table A) → HasRoom t → chosen_id t 0 ≡ next_key t
  unfolding chosen_id
  chosen_id-next_key t room = elim (Option-cases (last_key t.entries)) [
    | inl e ↦ rw (e, chosen_id, next_key) refl
    | inr (l, e) ↦ rw (e, chosen_id, next_key) (omega (arith, room l e))
  ]

  -- CreateX with an argument of zero, on a map in order whose last identifier is below 2 ^ 32 - 1,
  -- makes a new object of the identifier one above the last one, or one in an empty map, which was
  -- free; GetX then gives the new object under it and the old result under every other identifier.
  pub create-next_key :
      (make : ℕ → A) (t : Table A) (j : ℕ)
      → IsSorted t
      → HasRoom t
      → (get t (next_key t) ≡ none)
        × (get (create make t 0).0 j
            ≡ (if j == next_key t then some (length t.objects) else get t j))
        × ((create make t 0).0.objects ≡ t.objects ++ make (next_key t) ∷ [])
  unfolding get add
  create-next_key make t j ok room =
      let key = chosen_id-next_key t room in
      let free = chosen_id-IsFree t ok room in
      let new = create_new make t 0 free in
      (
        subst (λ k. get t k ≡ none) key free,
        get-create make t 0 j ok
            ∙ ap (λ r. if j == chosen_id t 0 then some r.1 else get t j) new
            ∙ ap (λ k. if j == k then some (length t.objects) else get t j) key,
        ap (λ r. r.0.objects) new ∙ ap (λ k. t.objects ++ make k ∷ []) key,
      )
