-- ===== src/Squad/Storage.antt =====
-- Squads that a User saves and loads.
use Prim.Native.String.{String}
use text.Mathlib.Text.{◌==◌ as str_eq}
use recap_server.Prelude.{
  ℕ, ◌<◌, ◌≡◌, refl, sym, ap, ◌∙◌, Bool, true, false, List, [], ◌∷◌, ◌++◌, none, some, arith, ltb,
  if◌then◌else◌, append_assoc, append-nil, map, length,
}
use recap_server.Prelude.Bytes.{u32_mod}
use recap_server.Utils.CText.{c_string}
use recap_server.Utils.Numbers.{to_number, to_string}
use recap_server.Utils.Numbers.RoundTrip.{c_string-to_string, to_number-to_string}
use recap_server.Utils.Xml.{
  Numbered, Xml, add_texts, get_text, find_text, name-add_texts, child, first_child, has_key,
  get_text-append_child, child-append_child, first_child-last,
}
use recap_server.Squad.{
  Squad, new, read_ids, creatures, read_fields, read, write_ids, entries, write, read_each,
  load_squads, load_from, write_each, save_squads,
}

abbrev pub AllWords : List ℕ → Type 0
AllWords [] = Unit {0}
AllWords (n ∷ ns) = (n < u32_mod) × AllWords ns

-- Three places, numbers of 32 bits, and texts without a zero.
pub record IsValid (s : Squad) : Type 0 where
  pub places : length s.creature_ids ≡ 3
  pub ids : AllWords s.creature_ids
  pub id : s.id < u32_mod
  pub slot : s.slot < u32_mod
  pub name : c_string s.name ≡ s.name
  pub category : c_string s.category ≡ s.category

abbrev pub AllValid : List Squad → Type 0
AllValid [] = Unit {0}
AllValid (s ∷ ss) = IsValid s × AllValid ss

flag_small : (b : Bool) → (if b then 1 else 0) < u32_mod
flag_small true = omega arith
flag_small false = omega arith

flag_back : (b : Bool) → ltb 0 (if b then 1 else 0) ≡ b
flag_back true = refl
flag_back false = refl

module _ (xml : Xml) (num : Numbered xml) where
  open xml use {Node, name, children, element, append_child}
  open num use {number, set_number}

  creature_nodes : List ℕ → List Node
  creature_nodes = map (λ id. set_number (element "creature") "id" id)

  children-write_ids :
      (ids : List ℕ) (n : Node)
      → children (write_ids xml num n ids) ≡ children n ++ creature_nodes ids
  unfolding write_ids creature_nodes
  children-write_ids [] n = sym (append-nil (children n))
  children-write_ids (id ∷ ids) n =
      let c = set_number (element "creature") "id" id in
      children-write_ids ids (append_child n c)
      ∙ ap (λ t. t ++ creature_nodes ids) (xml.children-append_child n c)
      ∙ append_assoc (children n) (c ∷ []) (creature_nodes ids)

  name-write_ids : (ids : List ℕ) (n : Node) → name (write_ids xml num n ids) ≡ name n
  unfolding write_ids
  name-write_ids [] n = refl
  name-write_ids (id ∷ ids) n =
      name-write_ids ids (append_child n (set_number (element "creature") "id" id))
      ∙ xml.name-append_child n (set_number (element "creature") "id" id)

  -- As many places as there are numbers.
  read_ids-nodes :
      (old ids : List ℕ)
      → length old ≡ length ids
      → AllWords ids
      → read_ids xml num old (creature_nodes ids) ≡ ids
  unfolding read_ids creature_nodes
  read_ids-nodes [] [] e h = refl
  read_ids-nodes [] (i ∷ ids) e h = absurd (omega arith)
  read_ids-nodes (o ∷ old) [] e h = absurd (omega arith)
  read_ids-nodes (o ∷ old) (i ∷ ids) e (small, h) = λ t.
      num.number-set_number "creature" "id" i small t ∷ read_ids-nodes old ids (omega arith) h t

  abbrev ids_node : Squad → Node
  ids_node s = write_ids xml num (element "creatures") s.creature_ids

  abbrev written : Squad → Node
  written s = append_child (add_texts xml (element "squad") (entries xml num s)) (ids_node s)

  module _ (s t : Squad) (valid : IsValid s) (places : length t.creature_ids ≡ 3) where
    stored :
        (k : String)
        → has_key k (entries xml num s) ≡ true
        → get_text xml (written s) k ≡ c_string (find_text k (entries xml num s))
    stored k h =
        get_text-append_child xml (element "squad") (ids_node s) (entries xml num s)
          (xml.children-element "squad") k h

    word :
        (k : String) (v : ℕ)
        → v < u32_mod
        → has_key k (entries xml num s) ≡ true
        → find_text k (entries xml num s) ≡ to_string v
        → to_number u32_mod (get_text xml (written s) k) ≡ v
    word k v small h e =
        ap (to_number u32_mod) (stored k h ∙ ap c_string e ∙ c_string-to_string v)
        ∙ to_number-to_string u32_mod v small (omega arith)

    found_ids :
        creatures xml num (child xml (written s) "creatures") t.creature_ids ≡ s.creature_ids
    unfolding creatures entries
    found_ids =
        let tag =
          name-write_ids s.creature_ids (element "creatures") ∙ xml.name-element "creatures" in
        let at =
          child-append_child xml (element "squad") (ids_node s) (entries xml num s)
            (xml.children-element "squad") "creatures" refl (ap (λ k. str_eq k "creatures") tag) in
        let inside =
          children-write_ids s.creature_ids (element "creatures")
          ∙ ap (λ l. l ++ creature_nodes s.creature_ids) (xml.children-element "creatures") in
        ap (λ o. creatures xml num o t.creature_ids) at
        ∙ ap (read_ids xml num t.creature_ids) inside
        ∙ read_ids-nodes t.creature_ids s.creature_ids (places ∙ sym valid.places) valid.ids

    lock : ltb 0 (to_number u32_mod (get_text xml (written s) "locked")) ≡ s.locked
    unfolding entries
    lock =
        ap (ltb 0) (word "locked" (if s.locked then 1 else 0) (flag_small s.locked) refl refl)
        ∙ flag_back s.locked

    read_fields-written : read_fields xml num t (written s) ≡ s
    unfolding read_fields entries
    read_fields-written = λ i. record s {
      creature_ids = found_ids i;
      name = (stored "name" refl ∙ valid.name) i;
      category = (stored "category" refl ∙ valid.category) i;
      id = word "id" s.id valid.id refl refl i;
      slot = word "slot" s.slot valid.slot refl refl i;
      locked = lock i;
    }

    read-written : read xml num t (written s) ≡ (s, true)
    unfolding read
    read-written =
        let tag =
          xml.name-append_child (add_texts xml (element "squad") (entries xml num s)) (ids_node s)
          ∙ name-add_texts xml (entries xml num s) (element "squad")
          ∙ xml.name-element "squad" in
        let named : str_eq (name (written s)) "squad" ≡ true = ap (λ k. str_eq k "squad") tag in
        rw named (ap (λ x. (x, true)) read_fields-written)

  written_all : List Squad → List Node
  written_all = map written

  children-write_each :
      (ss : List Squad) (n : Node)
      → children (write_each xml num n ss) ≡ children n ++ written_all ss
  unfolding write_each write written_all
  children-write_each [] n = sym (append-nil (children n))
  children-write_each (s ∷ ss) n =
      children-write_each ss (append_child n (written s))
      ∙ ap (λ t. t ++ written_all ss) (xml.children-append_child n (written s))
      ∙ append_assoc (children n) (written s ∷ []) (written_all ss)

  name-write_each : (ss : List Squad) (n : Node) → name (write_each xml num n ss) ≡ name n
  unfolding write_each write
  name-write_each [] n = refl
  name-write_each (s ∷ ss) n =
      name-write_each ss (append_child n (written s)) ∙ xml.name-append_child n (written s)

  read_each-written :
      (ss squads : List Squad)
      → AllValid ss
      → read_each xml num squads (written_all ss) ≡ squads ++ ss
  unfolding read_each written_all new
  read_each-written [] squads h = sym (append-nil squads)
  read_each-written (s ∷ ss) squads (v, h) =
      ap
        (λ (r : Squad × Bool).
          read_each xml num (if r.1 then squads ++ r.0 ∷ [] else squads) (written_all ss))
        (read-written s new v refl)
      ∙ read_each-written ss (squads ++ s ∷ []) h
      ∙ append_assoc squads (s ∷ []) ss

  -- Loading squads from the element of a user to which they were saved, and which had no child
  -- "squads" before, puts them behind those that were there, if each has three places, its numbers
  -- are below 2 ^ 32 and its texts have no zero byte.
  pub load_squads-save_squads :
      (n : Node) (squads ss : List Squad)
      → child xml n "squads" ≡ none
      → AllValid ss
      → load_squads xml num squads (save_squads xml num n ss) ≡ squads ++ ss
  unfolding load_squads save_squads
  load_squads-save_squads n squads ss absent valid =
      let whole = write_each xml num (element "squads") ss in
      let tag = name-write_each ss (element "squads") ∙ xml.name-element "squads" in
      let found : child xml (append_child n whole) "squads" ≡ some whole =
        ap (first_child xml "squads") (xml.children-append_child n whole)
        ∙ first_child-last xml "squads" (children n) whole absent
            (ap (λ k. str_eq k "squads") tag) in
      let inside : children whole ≡ written_all ss =
        children-write_each ss (element "squads")
        ∙ ap (λ t. t ++ written_all ss) (xml.children-element "squads") in
      ap (λ o. load_from xml num o squads) found
      ∙ ap (read_each xml num squads) inside
      ∙ read_each-written ss squads valid
