-- ===== src/Utils/Xml.antt =====
-- The part of pugixml that the code calls, as an interface, and `utils::xml_add_text_node` and
-- `utils::xml_get_text_node` (Core/Utils/Functions.cpp) over it.
use Prim.Native.String.{String}
use text.Mathlib.Text.{◌==◌ as str_eq}
use recap_server.Prelude.{
  ℕ, ◌<◌, List, [], ◌∷◌, ◌++◌, ◌≡◌, refl, ◌∙◌, ap, sym, append_assoc, if◌then◌else◌, append-nil,
  map, Option, none, some, arith, Bool, true, false,
}
use recap_server.Prelude.Bytes.{u32_mod}
use recap_server.Utils.CText.{c_string}

abbrev pub Text : Type 0
Text = List ℕ

-- An element has a name, the text of its first character data, and its child elements in order.
-- An append gives the parent with the child behind the others.
pub record Xml : Type 1 where
  pub Node : Type 0
  pub name : Node → String
  pub text : Node → Text
  pub children : Node → List Node
  -- A new element of a name, and one with a text in it.
  pub element : String → Node
  pub text_element : String → Text → Node
  pub append_child : Node → Node → Node
  pub name-element : (k : String) → name (element k) ≡ k
  pub children-element : (k : String) → children (element k) ≡ []
  pub name-text_element : (k : String) (v : Text) → name (text_element k v) ≡ k
  pub text-text_element : (k : String) (v : Text) → text (text_element k v) ≡ v
  pub name-append_child : (n c : Node) → name (append_child n c) ≡ name n
  pub children-append_child : (n c : Node) → children (append_child n c) ≡ children n ++ c ∷ []

-- The numbers of attributes in pugixml: `append_attribute(k).set_value(v)` on a new element, and
-- `attribute(k).as_uint()`, which gives the number back.
pub record Numbered (xml : Xml) : Type 0 where
  pub set_number : xml.Node → String → ℕ → xml.Node
  pub number : xml.Node → String → ℕ
  pub number-set_number :
      (e k : String) (v : ℕ) → v < u32_mod → number (set_number (xml.element e) k v) k ≡ v

-- The texts of attributes, and `remove_child`: `append_attribute(k).set_value(t)` on a new element,
-- and `attribute(k).as_string()`, which gives the text back, whatever children come later.
pub record Named (xml : Xml) : Type 0 where
  pub set_string : xml.Node → String → Text → xml.Node
  pub string : xml.Node → String → Text
  pub remove_child : xml.Node → String → xml.Node
  pub string-set_string : (e k : String) (t : Text) → string (set_string (xml.element e) k t) k ≡ t
  pub name-set_string :
      (n : xml.Node) (k : String) (t : Text) → xml.name (set_string n k t) ≡ xml.name n
  pub children-set_string :
      (n : xml.Node) (k : String) (t : Text) → xml.children (set_string n k t) ≡ xml.children n
  pub string-append_child :
      (n c : xml.Node) (k : String) → string (xml.append_child n c) k ≡ string n k

-- The text of the first entry of a name.
abbrev pub find_text : String → List (String × Text) → Text
find_text k [] = []
find_text k ((j, v) ∷ rest) = if str_eq j k then v else find_text k rest

module _ (xml : Xml) where
  open xml use {
    Node, name, text, children, text_element, append_child, name-text_element, text-text_element,
    name-append_child, children-append_child,
  }

  -- `child(name)`: the first child of a name.
  unfoldable pub first_child : String → List Node → Option Node
  first_child k [] = none
  first_child k (c ∷ cs) = if str_eq (name c) k then some c else first_child k cs

  abbrev pub child : Node → String → Option Node
  child n k = first_child k (children n)

  -- `text().get()`, which is the empty text for the null element.
  text_of : Option Node → Text
  text_of none = []
  text_of (some c) = text c

  -- `xml_get_text_node`.
  unfoldable pub get_text : Node → String → Text
  unfolding first_child text_of
  get_text n k = text_of (child n k)

  -- `xml_add_text_node`, which takes the value as a C string.
  unfoldable pub add_text : Node → String → Text → Node
  unfolding c_string
  add_text n k v = append_child n (text_element k (c_string v))

  -- The calls of `xml_add_text_node` one after another.
  unfoldable pub add_texts : Node → List (String × Text) → Node
  unfolding add_text
  add_texts n [] = n
  add_texts n ((k, v) ∷ rest) = add_texts (add_text n k v) rest

  abbrev text_elements : List (String × Text) → List Node
  text_elements = map (λ e. text_element e.0 (c_string e.1))

  pub children-add_texts :
      (es : List (String × Text)) (n : Node)
      → children (add_texts n es) ≡ children n ++ text_elements es
  unfolding add_texts
  children-add_texts [] n = sym (append-nil (children n))
  children-add_texts ((k, v) ∷ es) n =
      children-add_texts es (add_text n k v)
      ∙ ap (λ t. t ++ text_elements es) (children-append_child n (text_element k (c_string v)))
      ∙ append_assoc (children n) (text_element k (c_string v) ∷ []) (text_elements es)

  pub name-add_texts : (es : List (String × Text)) (n : Node) → name (add_texts n es) ≡ name n
  unfolding add_texts
  name-add_texts [] n = refl
  name-add_texts ((k, v) ∷ es) n =
      name-add_texts es (add_text n k v) ∙ name-append_child n (text_element k (c_string v))

  find_text-first_child :
      (k : String) (es : List (String × Text))
      → text_of (first_child k (text_elements es)) ≡ c_string (find_text k es)
  unfolding first_child text_of c_string
  find_text-first_child k [] = refl
  find_text-first_child k ((j, v) ∷ es) = ground (
    arith,
    name-text_element j (c_string v),
    text-text_element j (c_string v),
    find_text-first_child k es,
  )

  -- After calls of xml_add_text_node on an element without children, xml_get_text_node gives for a
  -- name the first text that was added under it, up to its first zero, and the empty text where
  -- none was.
  pub get_text-add_texts :
      (n : Node) (es : List (String × Text)) (k : String)
      → children n ≡ []
      → get_text (add_texts n es) k ≡ c_string (find_text k es)
  unfolding get_text
  get_text-add_texts n es k fresh =
      ap (λ cs. text_of (first_child k cs))
        (children-add_texts es n ∙ ap (λ t. t ++ text_elements es) fresh)
      ∙ find_text-first_child k es

-- An element is among the entries.
abbrev pub has_key : String → List (String × Text) → Bool
has_key k [] = false
has_key k ((j, v) ∷ rest) = if str_eq j k then true else has_key k rest

-- Text nodes with another child behind them.
module _ (xml : Xml) where
  open xml use {
    Node, name, children, text_element, append_child, name-text_element, text-text_element,
    children-append_child,
  }

  abbrev nodes : List (String × Text) → List Node
  nodes = map (λ e. text_element e.0 (c_string e.1))

  text-before :
      (k : String) (es : List (String × Text)) (rest : List Node)
      → has_key k es ≡ true
      → text_of xml (first_child xml k (nodes es ++ rest)) ≡ c_string (find_text k es)
  unfolding first_child text_of
  text-before k [] rest h = cc
  text-before k ((j, v) ∷ es) rest h = ground (
    arith,
    name-text_element j (c_string v),
    text-text_element j (c_string v),
    text-before k es rest,
  )

  child-after :
      (k : String) (es : List (String × Text)) (rest : List Node)
      → has_key k es ≡ false
      → first_child xml k (nodes es ++ rest) ≡ first_child xml k rest
  unfolding first_child
  child-after k [] rest h = refl
  child-after k ((j, v) ∷ es) rest h =
      ground (arith, name-text_element j (c_string v), child-after k es rest)

  -- An element of a name behind others that do not have it.
  pub first_child-last :
      (k : String) (cs : List Node) (c : Node)
      → first_child xml k cs ≡ none
      → str_eq (name c) k ≡ true
      → first_child xml k (cs ++ c ∷ []) ≡ some c
  unfolding first_child
  first_child-last k [] c h e = rw e refl
  first_child-last k (d ∷ cs) c h e = ground (arith, first_child-last k cs c)

  module _ (n c : Node) (es : List (String × Text)) (fresh : children n ≡ []) where
    all_children : children (append_child (add_texts xml n es) c) ≡ nodes es ++ c ∷ []
    all_children =
        children-append_child (add_texts xml n es) c
        ∙ ap (λ t. t ++ c ∷ []) (children-add_texts xml es n ∙ ap (λ t. t ++ nodes es) fresh)

    pub get_text-append_child :
        (k : String)
        → has_key k es ≡ true
        → get_text xml (append_child (add_texts xml n es) c) k ≡ c_string (find_text k es)
    unfolding get_text
    get_text-append_child k h =
        ap (λ cs. text_of xml (first_child xml k cs)) all_children ∙ text-before k es (c ∷ []) h

    pub child-append_child :
        (k : String)
        → has_key k es ≡ false
        → str_eq (name c) k ≡ true
        → child xml (append_child (add_texts xml n es) c) k ≡ some c
    unfolding first_child
    child-append_child k h e =
        ap (first_child xml k) all_children ∙ child-after k es (c ∷ []) h ∙ rw e refl
