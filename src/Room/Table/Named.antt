-- ===== src/Room/Table/Named.antt =====
-- The identifiers of the objects that RoomManager registers.
use recap_server.Prelude.{
  ℕ, ◌≡◌, refl, sym, ap, ◌∙◌, ◌==◌, ==_iff, List, [], ◌∷◌, ◌++◌, none, some, length, set, get_elem?,
  Option-cases, Bool-cases, inl, inr, arith, zero, suc,
}
use recap_server.Map.{find}
use recap_server.Room.Table.{Table, get, chosen_id, add, create, remove, update}
use recap_server.Room.Table.Laws.{IsSorted, create_old, create_new, get-add, get-remove}

module _ {A : Type 0} where
  get_elem?-append_left :
      (xs ys : List A) (i : ℕ) (o : A) → get_elem? xs i ≡ some o → get_elem? (xs ++ ys) i ≡ some o
  get_elem?-append_left [] ys i o e = ground arith
  get_elem?-append_left (x ∷ xs) ys zero o e = e
  get_elem?-append_left (x ∷ xs) ys (suc i) o e = get_elem?-append_left xs ys i o e

  get_elem?-append_last : (xs : List A) (o : A) → get_elem? (xs ++ o ∷ []) (length xs) ≡ some o
  get_elem?-append_last [] o = refl
  get_elem?-append_last (x ∷ xs) o = get_elem?-append_last xs o

  update-entries : (t : Table A) (f : A → A) (handle : ℕ) → (update t handle f).entries ≡ t.entries
  unfolding update
  update-entries t f handle = elim (Option-cases (get_elem? t.objects handle)) [
    | inl e ↦ rw (e, update) refl
    | inr (o, e) ↦ rw (e, update) refl
  ]

  pub update-IsSorted :
      (t : Table A) (f : A → A) (handle : ℕ) → IsSorted t → IsSorted (update t handle f)
  update-IsSorted t f handle ok = rw (update-entries t f handle) ok

  pub get-update : (t : Table A) (f : A → A) (handle j : ℕ) → get (update t handle f) j ≡ get t j
  unfolding get
  get-update t f handle j = ap (find j) (update-entries t f handle)

  module _ (id_of : A → ℕ) where
    -- The object at a place has an identifier.
    pub HasId : List A → ℕ → ℕ → Type 0
    HasId objects handle id = (o : A) × (get_elem? objects handle ≡ some o) × (id_of o ≡ id)

    abbrev pub IsNamed : Table A → Type 0
    IsNamed t = (id handle : ℕ) → get t id ≡ some handle → HasId t.objects handle id

    add-IsNamed :
        (t : Table A) (id : ℕ) (object : A)
        → id_of object ≡ id
        → IsSorted t
        → IsNamed t
        → find id t.entries ≡ none
        → IsNamed (add t id object).0
    unfolding HasId add
    add-IsNamed t id object named ok old e j handle h = elim (Bool-cases (j == id)) [
      | inl eq ↦
          let p : length t.objects ≡ handle = ground (arith, get-add t id j object ok e) in
          (
            object,
            ap (get_elem? (t.objects ++ object ∷ [])) (sym p)
                ∙ get_elem?-append_last t.objects object,
            named ∙ sym ((==_iff j id).0 eq),
          )
      | inr ne ↦
          let (o, e1, e2) = old j handle (ground (arith, get-add t id j object ok e)) in
          (o, get_elem?-append_left t.objects (object ∷ []) handle o e1, e2)
    ]

    pub create-IsNamed :
        (make : ℕ → A) (t : Table A) (id : ℕ)
        → ((k : ℕ) → id_of (make k) ≡ k)
        → IsSorted t
        → IsNamed t
        → IsNamed (create make t id).0
    create-IsNamed make t id named ok old = elim (Option-cases (find (chosen_id t id) t.entries)) [
      | inl e ↦
          rw (create_new make t id e) (
            add-IsNamed t (chosen_id t id) (make (chosen_id t id)) (named (chosen_id t id)) ok old
              e)
      | inr (handle, e) ↦ rw (create_old make t id handle e) old
    ]

    remove-objects : (t : Table A) (id : ℕ) → (remove t id).objects ≡ t.objects
    unfolding remove
    remove-objects t id = elim (Option-cases (find id t.entries)) [
      | inl e ↦ rw (e, remove) refl
      | inr (h, e) ↦ rw (e, remove) refl
    ]

    pub remove-IsNamed : (t : Table A) (id : ℕ) → IsSorted t → IsNamed t → IsNamed (remove t id)
    remove-IsNamed t id ok old j handle h =
        rw (remove-objects t id) (old j handle (ground (arith, get-remove t id j ok)))

    HasId-set :
        (xs : List A) (i k j : ℕ) (o v : A)
        → get_elem? xs i ≡ some o
        → id_of v ≡ id_of o
        → HasId xs k j
        → HasId (set xs i v) k j
    unfolding HasId
    HasId-set [] i k j o v e same (o', e1, e2) = (o', e1, e2)
    HasId-set (x ∷ xs) zero zero j o v e same (o', e1, e2) = (v, refl, cc)
    HasId-set (x ∷ xs) zero (suc k) j o v e same (o', e1, e2) = (o', e1, e2)
    HasId-set (x ∷ xs) (suc i) zero j o v e same (o', e1, e2) = (o', e1, e2)
    HasId-set (x ∷ xs) (suc i) (suc k) j o v e same h = HasId-set xs i k j o v e same h

    pub update-IsNamed :
        (t : Table A) (f : A → A) (handle : ℕ)
        → ((o : A) → id_of (f o) ≡ id_of o)
        → IsNamed t
        → IsNamed (update t handle f)
    unfolding update
    update-IsNamed t f handle same old j k h = elim (Option-cases (get_elem? t.objects handle)) [
      | inl e ↦ rw (e, update) (old j k (sym (get-update t f handle j) ∙ h))
      | inr (o, e) ↦
          rw (e, update)
            (HasId-set t.objects handle k j o (f o) e (same o)
              (old j k (sym (get-update t f handle j) ∙ h)))
    ]
