-- ===== src/Utils/XmlTree.antt =====
-- An implementation of the interface to pugixml: an element as its name, text, attributes and children.
use Prim.Native.String.{String}
use text.Mathlib.Text.{◌==◌ as str_eq}
use text.Mathlib.TextPositions.{eq_refl}
use recap_server.Prelude.{ℕ, ◌<◌, if◌then◌else◌, List, [], ◌∷◌, ◌++◌, ◌≡◌, refl, ap}
use recap_server.Prelude.Bytes.{u32_mod}
use recap_server.Utils.Xml.{Xml, Text, Numbered, Named}

mutual
  pub data Element : Type 0 where
    element : String → Text → List (String × ℕ) → List (String × Text) → Elements → Element

  pub data Elements : Type 0 where
    none : Elements
    more : Element → Elements → Elements

abbrev add : Elements → Element → Elements
add none e = more e none
add (more x r) e = more x (add r e)

abbrev to_list : Elements → List Element
to_list none = []
to_list (more x r) = x ∷ to_list r

to_list-add : (r : Elements) (e : Element) → to_list (add r e) ≡ to_list r ++ e ∷ []
to_list-add none e = refl
to_list-add (more x r) e = ap (λ t. x ∷ t) (to_list-add r e)

abbrev name_of : Element → String
name_of (element k t a b r) = k

abbrev text_of : Element → Text
text_of (element k t a b r) = t

abbrev children_of : Element → List Element
children_of (element k t a b r) = to_list r

abbrev with_child : Element → Element → Element
with_child (element k t a b r) c = element k t a b (add r c)

pub name-with_child : (n c : Element) → name_of (with_child n c) ≡ name_of n
name-with_child (element k t a b r) c = refl

pub children-with_child : (n c : Element) → children_of (with_child n c) ≡ children_of n ++ c ∷ []
children-with_child (element k t a b r) c = to_list-add r c

abbrev pub xml_tree : Xml
xml_tree = record {
  Node = Element;
  name = name_of;
  text = text_of;
  children = children_of;
  element = λ k. element k [] [] [] none;
  text_element = λ k v. element k v [] [] none;
  append_child = with_child;
  name-element = λ k. refl;
  children-element = λ k. refl;
  name-text_element = λ k v. refl;
  text-text_element = λ k v. refl;
  name-append_child = name-with_child;
  children-append_child = children-with_child;
}

abbrev number_at : List (String × ℕ) → String → ℕ
number_at [] k = 0
number_at ((j, v) ∷ a) k = if str_eq j k then v else number_at a k

abbrev number_of : Element → String → ℕ
number_of (element k t a b r) = number_at a

abbrev with_number : Element → String → ℕ → Element
with_number (element k t a b r) j v = element k t (a ++ (j, v) ∷ []) b r

pub number-with_number :
    (e k : String) (v : ℕ)
    → v < u32_mod
    → number_of (with_number (element e [] [] [] none) k v) k ≡ v
number-with_number e k v h = rw (eq_refl k) refl

abbrev pub numbered_tree : Numbered xml_tree
numbered_tree = record {
  set_number = with_number;
  number = number_of;
  number-set_number = number-with_number;
}

abbrev text_at : List (String × Text) → String → Text
text_at [] k = []
text_at ((j, v) ∷ b) k = if str_eq j k then v else text_at b k

abbrev string_of : Element → String → Text
string_of (element k t a b r) = text_at b

abbrev with_string : Element → String → Text → Element
with_string (element k t a b r) j v = element k t a (b ++ (j, v) ∷ []) r

abbrev without : Elements → String → Elements
without none k = none
without (more x r) k = if str_eq (name_of x) k then r else more x (without r k)

abbrev without_child : Element → String → Element
without_child (element k t a b r) j = element k t a b (without r j)

pub string-with_string :
    (e k : String) (t : Text) → string_of (with_string (element e [] [] [] none) k t) k ≡ t
string-with_string e k t = rw (eq_refl k) refl

pub name-with_string :
    (n : Element) (k : String) (t : Text) → name_of (with_string n k t) ≡ name_of n
name-with_string (element e u a b r) k t = refl

pub children-with_string :
    (n : Element) (k : String) (t : Text) → children_of (with_string n k t) ≡ children_of n
children-with_string (element e u a b r) k t = refl

pub string-with_child : (n c : Element) (k : String) → string_of (with_child n c) k ≡ string_of n k
string-with_child (element e u a b r) c k = refl

abbrev pub named_tree : Named xml_tree
named_tree = record {
  set_string = with_string;
  string = string_of;
  remove_child = without_child;
  string-set_string = string-with_string;
  name-set_string = name-with_string;
  children-set_string = children-with_string;
  string-append_child = string-with_child;
}
