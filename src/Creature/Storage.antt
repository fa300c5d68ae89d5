-- ===== src/Creature/Storage.antt =====
-- Creatures that a User saves and loads.
use Prim.Native.String.{String}
use text.Mathlib.Text.{◌==◌ as str_eq}
use recap_server.Prelude.{
  ◌<◌, ◌≡◌, refl, sym, ap, ◌∙◌, List, [], ◌∷◌, ◌++◌, none, some, arith, if◌then◌else◌, append_assoc,
  append-nil, map, ◌>>=◌,
}
use recap_server.Prelude.Bytes.{u32_mod}
use recap_server.Utils.CText.{c_string}
use recap_server.Utils.Numbers.{to_number}
use recap_server.Utils.Numbers.RoundTrip.{c_string-to_string, to_number-to_string}
use recap_server.Utils.Xml.{
  Named, Xml, Text, add_text, add_texts, get_text, find_text, get_text-add_texts, name-add_texts,
  child, first_child, first_child-last,
}
use recap_server.Creature.Template.{Floats, TemplateCreature, TemplateDatabase, get_by_name}
use recap_server.Creature.{
  Creature, new, read, entries, write, read_each, read_from, read_creatures, write_each,
  write_creatures,
}

module _ (fl : Floats) (zero_score start_points : fl.Float) (db : TemplateDatabase fl) where
  open fl use {Float, to_float, float_to_string}

  -- The database has the template under its name, the numbers have 32 bits, the floats are read back
  -- as they were, and the texts have no zero.
  pub record IsValid (c : Creature fl) (t : TemplateCreature fl) : Type 0 where
    pub template : c.template ≡ some t
    pub listed : get_by_name fl db (c_string t.name) ≡ some t
    pub id : c.id < u32_mod
    pub version : c.version < u32_mod
    pub gear_score : to_float (c_string (float_to_string c.gear_score)) ≡ c.gear_score
    pub item_points : to_float (c_string (float_to_string c.item_points)) ≡ c.item_points
    pub png_large_url : c_string c.png_large_url ≡ c.png_large_url
    pub png_thumb_url : c_string c.png_thumb_url ≡ c.png_thumb_url

  abbrev pub AllValid : List (Creature fl) → Type 0
  AllValid [] = Unit {0}
  AllValid (c ∷ cs) = ((t : TemplateCreature fl) × IsValid c t) × AllValid cs

  -- What is not stored is as in a new creature.
  abbrev pub reloaded : Creature fl → Creature fl
  reloaded c = record (new fl zero_score start_points c.template) {
    id = c.id;
    version = c.version;
    gear_score = c.gear_score;
    item_points = c.item_points;
    png_large_url = c.png_large_url;
    png_thumb_url = c.png_thumb_url;
  }

  module _ (xml : Xml) (named : Named xml) where
    open xml use {Node, name, children, element, append_child}
    open named use {string, set_string}

    string-add_texts :
        (es : List (String × Text)) (n : Node) (k : String)
        → string (add_texts xml n es) k ≡ string n k
    unfolding add_texts add_text
    string-add_texts [] n k = refl
    string-add_texts ((j, v) ∷ es) n k =
        string-add_texts es (add_text xml n j v) k
        ∙ named.string-append_child n (xml.text_element j (c_string v)) k

    abbrev base : TemplateCreature fl → Node
    base t = set_string (element "creature") "template" (c_string t.name)

    base_empty : (t : TemplateCreature fl) → children (base t) ≡ []
    base_empty t =
        named.children-set_string (element "creature") "template" (c_string t.name)
        ∙ xml.children-element "creature"

    abbrev own : Creature fl → List (String × Text)
    own = entries fl zero_score start_points xml named

    abbrev written : TemplateCreature fl → Creature fl → Node
    written t c = add_texts xml (base t) (own c)

    stored :
        (t : TemplateCreature fl) (c : Creature fl) (k : String)
        → get_text xml (written t c) k ≡ c_string (find_text k (own c))
    stored t c k = get_text-add_texts xml (base t) (own c) k (base_empty t)

    name-written : (t : TemplateCreature fl) (c : Creature fl) → name (written t c) ≡ "creature"
    name-written t c =
        name-add_texts xml (own c) (base t)
        ∙ named.name-set_string (element "creature") "template" (c_string t.name)
        ∙ xml.name-element "creature"

    read-written :
        (c : Creature fl) (t : TemplateCreature fl)
        → IsValid c t
        → read fl zero_score start_points xml named db
            (new fl zero_score start_points none)
            (written t c)
          ≡ reloaded c
    unfolding read new entries
    read-written c t v =
        let template =
          ap (get_by_name fl db) (
            string-add_texts (own c) (base t) "template"
            ∙ named.string-set_string "creature" "template" (c_string t.name))
          ∙ v.listed
          ∙ sym v.template in
        let id =
          ap (to_number u32_mod) (stored t c "id" ∙ c_string-to_string c.id)
          ∙ to_number-to_string u32_mod c.id v.id (omega arith) in
        let version =
          ap (to_number u32_mod) (stored t c "version" ∙ c_string-to_string c.version)
          ∙ to_number-to_string u32_mod c.version v.version (omega arith) in
        let gear = ap to_float (stored t c "gear_score") ∙ v.gear_score in
        let points = ap to_float (stored t c "item_points") ∙ v.item_points in
        λ i. record (new fl zero_score start_points none) {
          template = template i;
          id = id i;
          version = version i;
          gear_score = gear i;
          item_points = points i;
          png_large_url = (stored t c "png_large_url" ∙ v.png_large_url) i;
          png_thumb_url = (stored t c "png_thumb_url" ∙ v.png_thumb_url) i;
        }

    write-written :
        (c : Creature fl) (t : TemplateCreature fl)
        → IsValid c t
        → write fl zero_score start_points xml named (element "creature") c ≡ some (written t c)
    unfolding write
    write-written c t v = rw (write, v.template) refl

    abbrev nodes : (cs : List (Creature fl)) → AllValid cs → List Node
    nodes [] h = []
    nodes (c ∷ cs) ((t, v), h) = written t c ∷ nodes cs h

    -- The element with the creatures behind its children.
    abbrev filled : Node → (cs : List (Creature fl)) → AllValid cs → Node
    filled n [] h = n
    filled n (c ∷ cs) ((t, v), h) = filled (append_child n (written t c)) cs h

    children-filled :
        (cs : List (Creature fl)) (h : AllValid cs) (n : Node)
        → children (filled n cs h) ≡ children n ++ nodes cs h
    children-filled [] h n = sym (append-nil (children n))
    children-filled (c ∷ cs) ((t, v), h) n =
        children-filled cs h (append_child n (written t c))
        ∙ ap (λ l. l ++ nodes cs h) (xml.children-append_child n (written t c))
        ∙ append_assoc (children n) (written t c ∷ []) (nodes cs h)

    name-filled :
        (cs : List (Creature fl)) (h : AllValid cs) (n : Node) → name (filled n cs h) ≡ name n
    name-filled [] h n = refl
    name-filled (c ∷ cs) ((t, v), h) n =
        name-filled cs h (append_child n (written t c)) ∙ xml.name-append_child n (written t c)

    write_each-filled :
        (cs : List (Creature fl)) (h : AllValid cs) (n : Node)
        → write_each fl zero_score start_points xml named n cs ≡ some (filled n cs h)
    unfolding write_each
    write_each-filled [] h n = refl
    write_each-filled (c ∷ cs) ((t, v), h) n =
        ap (λ o. o >>= λ e. write_each fl zero_score start_points xml named (append_child n e) cs)
          (write-written c t v)
        ∙ write_each-filled cs h (append_child n (written t c))

    read_each-nodes :
        (cs : List (Creature fl)) (h : AllValid cs) (creatures : List (Creature fl))
        → read_each fl zero_score start_points xml named db creatures (nodes cs h)
          ≡ creatures ++ map reloaded cs
    unfolding read_each new
    read_each-nodes [] h creatures = sym (append-nil creatures)
    read_each-nodes (c ∷ cs) ((t, v), h) creatures =
        let fresh = new fl zero_score start_points none in
        let back = read fl zero_score start_points xml named db fresh (written t c) in
        ap
          (λ k.
            read_each fl zero_score start_points xml named db
              (if str_eq k "creature" then creatures ++ back ∷ [] else creatures) (nodes cs h))
          (name-written t c)
        ∙ ap
            (λ r.
              read_each fl zero_score start_points xml named db (creatures ++ r ∷ []) (nodes cs h))
            (read-written c t v)
        ∙ read_each-nodes cs h (creatures ++ reloaded c ∷ [])
        ∙ append_assoc creatures (reloaded c ∷ []) (map reloaded cs)

    -- Creatures::Write of creatures whose templates the database has under their names, whose
    -- numbers have 32 bits, whose floats are read back as they are printed and whose texts have no
    -- zero byte, into an element that had no child "creatures", returns, and Creatures::Read from it
    -- puts the creatures behind those that were there, with their stats and ability stats empty and
    -- no creator.
    pub read_creatures-write_creatures :
        (n : Node) (creatures cs : List (Creature fl))
        → child xml n "creatures" ≡ none
        → AllValid cs
        → (write_creatures fl zero_score start_points xml named n cs >>= λ e.
            some (read_creatures fl zero_score start_points xml named db creatures e))
          ≡ some (creatures ++ map reloaded cs)
    unfolding write_creatures read_creatures read_from
    read_creatures-write_creatures n creatures cs absent h =
        let whole = filled (element "creatures") cs h in
        let tag = name-filled cs h (element "creatures") ∙ xml.name-element "creatures" in
        let found : child xml (append_child n whole) "creatures" ≡ some whole =
          ap (first_child xml "creatures") (xml.children-append_child n whole)
          ∙ first_child-last xml "creatures" (children n) whole absent
              (ap (λ k. str_eq k "creatures") tag) in
        let inside : children whole ≡ nodes cs h =
          children-filled cs h (element "creatures")
          ∙ ap (λ l. l ++ nodes cs h) (xml.children-element "creatures") in
        ap
          (λ o. (o >>= λ e. some (append_child n e)) >>= λ e.
            some (read_creatures fl zero_score start_points xml named db creatures e))
          (write_each-filled cs h (element "creatures"))
        ∙ ap (λ o. some (read_from fl zero_score start_points xml named db o creatures)) found
        ∙ ap (λ l. some (read_each fl zero_score start_points xml named db creatures l)) inside
        ∙ ap some (read_each-nodes cs h creatures)
