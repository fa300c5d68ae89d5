-- ===== src/Attributes/Sync.antt =====
-- What a client knows of the attributes, under calls of Attributes::SetValue.
use recap_server.Prelude.{
  ℕ, ◌<◌, ◌≡◌, refl, sym, ap, ◌∙◌, Bool, true, false, ◌&&◌, ◌||◌, List, [], ◌∷◌, ◌++◌, Option, none,
  some, ◌==◌, ltb, if◌then◌else◌, ◌>>=◌, arith, inl, inr, Bool-cases, Option-cases, subst,
  some-injective, dec_lt,
}
use recap_server.Attributes.{
  Float, sort, client_count, Attributes, find, get_value, erase_index, set_bit, change, append,
  update, set_value, reflection, reset_reflection_bits,
}
use recap_server.Attributes.Lookup.{From}
use recap_server.Attributes.Values.{
  stored, find-next, next-From, update-values, update-none, update-some,
}
use recap_server.Attributes.Writes.{marked, set_value-update}
use recap_server.Attributes.Reflection.{member, Once, Synced, apply, apply-get_value, reset-Synced}
use recap_server.Attributes.Erasures.{
  member-append, Once-append, member-erase_index, erase_index-Once,
}

module _ (float : Float) where
  open float use {Value, zero, is_zero, is_zero-zero}

  abbrev present : Option Value → Bool
  present none = false
  present (some v) = true

  -- What a change of the values does to the erased indices.
  record Erasure (a : Attributes float) (idx : ℕ) (v : Value) (c : Attributes float) : Type 0 where
    bits : c.data_bits ≡ a.data_bits
    once : Once c.erased_data
    members :
        (j : ℕ)
        → member j c.erased_data ≡ (
            if j == idx
            then is_zero v && (present (find float idx a.values) || member idx a.erased_data)
            else member j a.erased_data)

  change-bits :
      (a : Attributes float) (idx : ℕ) (v : Value) → (change float a idx v).data_bits ≡ a.data_bits
  unfolding change
  change-bits a idx v = elim (Bool-cases (is_zero v)) [
    | inl z ↦ rw (z, change) refl
    | inr z ↦ rw (z, change) refl
  ]

  change-erased :
      (a : Attributes float) (idx : ℕ) (v : Value)
      → (change float a idx v).erased_data
        ≡ (if is_zero v then a.erased_data ++ idx ∷ [] else a.erased_data)
  unfolding change
  change-erased a idx v = ground arith

  -- A present value has no erasure.
  present_member :
      (known : ℕ → Value) (a : Attributes float) (idx : ℕ) (old : Value)
      → Synced float known a
      → find float idx a.values ≡ some old
      → member idx a.erased_data ≡ false
  present_member known a idx old s e = ground (arith, s.erased_absent idx)

  change-Erasure :
      (known : ℕ → Value) (a : Attributes float) (idx : ℕ) (v old : Value)
      → Synced float known a
      → find float idx a.values ≡ some old
      → Erasure a idx v (change float a idx v)
  change-Erasure known a idx v old s e =
      let lone = present_member known a idx old s e in
      record {
        bits = change-bits a idx v;
        once =
            rw (change-erased a idx v)
              (ground (arith, s.once, lone, Once-append idx a.erased_data));
        members =
            λ j. ground (arith, change-erased a idx v, lone, e, member-append j idx a.erased_data);
      }

  -- What a chain that ends in `some` came from.
  bound :
      (o : Option (List ℕ)) (f : List ℕ → Attributes float) (c : Attributes float)
      → (o >>= λ es. some (f es)) ≡ some c
      → (es : List ℕ) × (o ≡ some es) × (f es ≡ c)
  bound none f c h = ground (arith, h)
  bound (some es) f c h = (es, refl, some-injective h)

  -- The fields after the branch of an index without a value.
  append-fields :
      (a c : Attributes float) (idx : ℕ) (v : Value)
      → append float a idx v ≡ some c
      → (c.data_bits ≡ a.data_bits)
        × (if is_zero v
            then some a.erased_data
            else if a.data_bits idx
            then erase_index float idx a.erased_data
            else some a.erased_data)
          ≡ some c.erased_data
  unfolding append
  append-fields a c idx v h = elim (Bool-cases (is_zero v)) [
    | inl z ↦
        let p : a ≡ c = some-injective (rw (z, append) at h) in
        (ap (λ t. t.data_bits) (sym p), rw z (ap (λ t. some t.erased_data) p))
    | inr z ↦
        let f : List ℕ → Attributes float =
          λ es. record a { erased_data = es; values = sort float (a.values ++ (idx, v) ∷ []) } in
        let (es, e, p) =
          bound
            (if a.data_bits idx then erase_index float idx a.erased_data else some a.erased_data) f
            c (rw (z, append) at h) in
        (ap (λ t. t.data_bits) (sym p), rw z (e ∙ ap (λ t. some t.erased_data) p))
  ]

  append-Erasure :
      (known : ℕ → Value) (a c : Attributes float) (idx : ℕ) (v : Value)
      → Synced float known a
      → idx < client_count
      → find float idx a.values ≡ none
      → append float a idx v ≡ some c
      → Erasure a idx v c
  append-Erasure known a c idx v s lt e h =
      let (bits, after) = append-fields a c idx v h in
      record {
        bits = bits;
        once =
            ground (arith, s.once, after, erase_index-Once float idx a.erased_data c.erased_data);
        members = λ j. ground (
          arith,
          s.once,
          after,
          e,
          s.untouched idx lt,
          member-erase_index float idx j a.erased_data c.erased_data s.once,
        );
      }

  update-Erasure :
      (known : ℕ → Value) (a c : Attributes float) (idx : ℕ) (v : Value)
      → Synced float known a
      → idx < client_count
      → update float a idx v ≡ some c
      → Erasure a idx v c
  update-Erasure known a c idx v s lt h = elim (Option-cases (find float idx a.values)) [
    | inl e ↦ append-Erasure known a c idx v s lt e (sym (update-none float a idx v e) ∙ h)
    | inr (old, e) ↦
        subst (Erasure a idx v) (some-injective (sym (update-some float a idx v old e) ∙ h))
          (change-Erasure known a idx v old s e)
  ]

  marked-Synced :
      (known : ℕ → Value) (a c : Attributes float) (idx : ℕ) (v : Value)
      → Synced float known a
      → idx < client_count
      → update float a idx v ≡ some c
      → Synced float known (marked float c idx)
  unfolding marked set_bit stored get_value
  marked-Synced known a c idx v s lt h =
      let e = update-Erasure known a c idx v s lt h in
      let values = update-values float a c idx v h in
      let at_index : (j : ℕ)
          → find float j c.values ≡ (if j == idx then stored float v else find float j a.values) =
        λ j. ap (find float j) values ∙ find-next float idx j v a.values s.in_order in
      record {
        in_order = subst (From float 0) (sym values) (next-From float idx v a.values s.in_order);
        once = e.once;
        erased_absent = λ j m. ground (arith, m, e.members j, at_index j, s.erased_absent j);
        untouched =
            λ j small b. ground (arith, b, e.members j, e.bits, at_index j, s.untouched j small);
        absent = λ j small f m. ground (arith, f, m, e.members j, at_index j, s.absent j small);
      }

  set_value-Synced :
      (known : ℕ → Value) (a b : Attributes float) (idx : ℕ) (v : Value)
      → Synced float known a
      → set_value float a idx v ≡ some b
      → Synced float known b
  set_value-Synced known a b idx v s h = elim (dec_lt idx client_count) [
    | yes lt ↦
        let t : ltb idx client_count ≡ true = ground arith in
        (elim (Option-cases (update float a idx v)) [
          | inl e ↦ ground (arith, h, e, set_value-update float a idx v)
          | inr (c, e) ↦
              subst (Synced float known)
                (some-injective (sym (rw (t, e) at (set_value-update float a idx v)) ∙ h))
                (marked-Synced known a c idx v s lt e)
        ])
    | no ge ↦
        let t : ltb idx client_count ≡ false = ground arith in
        subst (Synced float known)
          (some-injective (sym (rw t at (set_value-update float a idx v)) ∙ h)) s
  ]

  -- Calls of SetValue one after another.
  unfoldable pub set_values : List (ℕ × Value) → Attributes float → Option (Attributes float)
  set_values [] a = some a
  set_values ((idx, v) ∷ changes) a = set_value float a idx v >>= λ b. set_values changes b

  set_values-Synced :
      (known : ℕ → Value) (changes : List (ℕ × Value)) (a b : Attributes float)
      → Synced float known a
      → set_values changes a ≡ some b
      → Synced float known b
  unfolding set_values
  set_values-Synced known [] a b s h = subst (Synced float known) (some-injective h) s
  set_values-Synced known ((idx, v) ∷ changes) a b s h =
      elim (Option-cases (set_value float a idx v)) [
        | inl e ↦ ground (arith, h, e)
        | inr (c, e) ↦
            set_values-Synced known changes c b (set_value-Synced known a c idx v s e) (rw e at h)
      ]

  -- A client that knows the attributes at a ResetReflectionBits, with the stored values in rising
  -- order, and applies the pairs of the WriteReflection after any later calls of SetValue that all
  -- returned, knows what GetValue gives for every index below 111.
  pub reflection-set_values :
      (changes : List (ℕ × Value)) (a b : Attributes float) (j : ℕ)
      → From float 0 a.values
      → set_values changes (reset_reflection_bits float a) ≡ some b
      → j < client_count
      → apply float (reflection float b) (get_value float a) j ≡ get_value float b j
  reflection-set_values changes a b j ok h lt =
      apply-get_value float b (get_value float a) j
        (set_values-Synced (get_value float a) changes (reset_reflection_bits float a) b
          (reset-Synced float a ok) h)
        lt
