-- ===== src/Tdf/Packet/Calls.antt =====
-- The calls on a Packet that describe a tree, and the document that they build.
use native.Mathlib.Nat.{mod-eq_of_lt}
use recap_server.Prelude.{ℕ, ◌%◌, ◌≡◌, refl, sym, subst, ap, ◌∙◌, false, List, [], ◌∷◌, arith, some}
use recap_server.Prelude.Bytes.{u32_mod}
use recap_server.Json.{
  IsRapidjson, IsRapidjson-standard, Rapidjson, standard, number, text, array, object, Items, nil,
  Members, end, append_member, push_back, append_members, append_items, append_member-members,
  push_back-items, append_members-end, append_items-nil,
}
use recap_server.Tdf.Codec.{integer, string, struct}
use recap_server.Tdf.Packet.{
  Packet, Frame, new, put, document, put_integer, put_string, put_blob, put_object_type,
  put_object_id, push_integer_list, push_struct, push_union, push_map, push_list, pop,
}
use recap_server.Tdf.Tree.{
  Tdf, num, str, blob, structure, unset, choice, integers, pair, triple, number_items, text_items,
  struct_items, text_map, Fields, last, entry, Structs, no_more, more, packed, packed_fields,
  wrapped, packed_structs, numbers, texts, text_members,
}
use recap_server.Tdf.Tree.Wire.{IsEncodable, EachEncodable, AllStructs}

-- `json` is the library.
module _ (json : Rapidjson) where
  -- Numbers and texts into a list, where names are not used, and texts into a map.
  put_numbers : List ℕ → Packet → Packet
  unfolding put_integer
  put_numbers [] p = p
  put_numbers (x ∷ xs) p = put_numbers xs (put_integer json [] x p)

  put_texts : List (List ℕ) → Packet → Packet
  unfolding put_string
  put_texts [] p = p
  put_texts (s ∷ ss) p = put_texts ss (put_string json [] s p)

  put_entries : List (List ℕ × List ℕ) → Packet → Packet
  unfolding put_string
  put_entries [] p = p
  put_entries ((k, s) ∷ es) p = put_entries es (put_string json k s p)

  unfoldable mutual
    unfolding put_numbers put_texts put_entries put_integer put_string put_blob put_object_type
        put_object_id push_integer_list push_struct push_union push_map push_list pop

    -- The value of a tree under a label.
    pub describe : Tdf → List ℕ → Packet → Packet
    describe (num v) l p = put_integer json l v p
    describe (str s) l p = put_string json l s p
    describe (blob s) l p = put_blob json l (some s) p
    describe (structure fs) l p = pop json (describe_fields fs (push_struct json l p))
    describe unset l p = pop json (push_union json l 127 p)
    describe (choice n name t) l p = pop json (describe t name (push_union json l n p))
    describe (integers xs) l p = pop json (put_numbers xs (push_integer_list json l p))
    describe (pair x y) l p = put_object_type json l x y p
    describe (triple x y z) l p = put_object_id json l x y z p
    describe (number_items xs) l p = pop json (put_numbers xs (push_list json l integer false p))
    describe (text_items ss) l p = pop json (put_texts ss (push_list json l string false p))
    describe (struct_items ss) l p =
        pop json (describe_structs ss (push_list json l struct false p))
    describe (text_map es) l p = pop json (put_entries es (push_map json l string string p))

    pub describe_fields : Fields → Packet → Packet
    describe_fields last p = p
    describe_fields (entry l t fs) p = describe_fields fs (describe t l p)

    pub describe_structs : Structs → Packet → Packet
    describe_structs no_more p = p
    describe_structs (more fs ss) p =
        describe_structs ss (pop json (describe_fields fs (push_struct json [] p)))

-- A packet whose open container is an object, or an array.
abbrev in_object : Members → List Frame → Packet
in_object ms fs = record { content = object ms; frames = fs }

abbrev in_array : Items → List Frame → Packet
in_array xs fs = record { content = array xs; frames = fs }

put_numbers_lem :
    (xs : List ℕ) (ys : Items) (fs : List Frame)
    → put_numbers standard xs (in_array ys fs) ≡ in_array (append_items ys (numbers xs)) fs
unfolding put_numbers
put_numbers_lem [] ys fs = ap (λ t. in_array t fs) (sym (append_items-nil ys))
put_numbers_lem (x ∷ xs) ys fs =
    put_numbers_lem xs (push_back ys (number x)) fs
    ∙ ap (λ t. in_array t fs) (push_back-items ys (number x) (numbers xs))

put_texts_lem :
    (ss : List (List ℕ)) (ys : Items) (fs : List Frame)
    → put_texts standard ss (in_array ys fs) ≡ in_array (append_items ys (texts ss)) fs
unfolding put_texts
put_texts_lem [] ys fs = ap (λ t. in_array t fs) (sym (append_items-nil ys))
put_texts_lem (s ∷ ss) ys fs =
    put_texts_lem ss (push_back ys (text s)) fs
    ∙ ap (λ t. in_array t fs) (push_back-items ys (text s) (texts ss))

put_entries_lem :
    (es : List (List ℕ × List ℕ)) (ms : Members) (fs : List Frame)
    → put_entries standard es (in_object ms fs) ≡ in_object (append_members ms (text_members es)) fs
unfolding put_entries
put_entries_lem [] ms fs = ap (λ t. in_object t fs) (sym (append_members-end ms))
put_entries_lem ((k, s) ∷ es) ms fs =
    put_entries_lem es (append_member ms k (text s)) fs
    ∙ ap (λ t. in_object t fs) (append_member-members ms k (text s) (text_members es))

mutual
  unfolding describe put put_integer

  -- The calls for an encodable tree add its value under the label to the open container, and leave
  -- the stack as it was.
  describe-add :
      (t : Tdf) (l : List ℕ) (p : Packet)
      → IsEncodable t
      → describe standard t l p ≡ put standard l (packed t) p
  describe-add (num v) l p ok = refl
  describe-add (str v) l p ok = refl
  describe-add (blob v) l p ok = refl
  describe-add (structure fs) l p ok = ap (pop standard) (describe_fields-add fs end _ ok.0)
  describe-add unset l p ok = refl
  describe-add (choice n name t) l p (small, ne, named, ok) =
      ap (pop standard) (describe-add t name (push_union standard l n p) ok)
      ∙ (let word : n % u32_mod ≡ n = omega arith in rw word refl)
  describe-add (integers xs) l p ok = ap (pop standard) (put_numbers_lem xs nil _)
  describe-add (pair x y) l p (hx, hy) = rw (mod-eq_of_lt hx, mod-eq_of_lt hy) refl
  describe-add (triple x y z) l p (hx, hy, hz) = rw (mod-eq_of_lt hx, mod-eq_of_lt hy) refl
  describe-add (number_items xs) l p ok = ap (pop standard) (put_numbers_lem xs nil _)
  describe-add (text_items ss) l p ok = ap (pop standard) (put_texts_lem ss nil _)
  describe-add (struct_items ss) l p ok = ap (pop standard) (describe_structs-add ss nil _ ok.2)
  describe-add (text_map es) l p ok = ap (pop standard) (put_entries_lem es end _)

  describe_fields-add :
      (fs : Fields) (ms : Members) (above : List Frame)
      → EachEncodable fs
      → describe_fields standard fs (in_object ms above)
        ≡ in_object (append_members ms (packed_fields fs)) above
  describe_fields-add last ms above ok = ap (λ t. in_object t above) (sym (append_members-end ms))
  describe_fields-add (entry l t fs) ms above (name, ok, rest) =
      ap (describe_fields standard fs) (describe-add t l (in_object ms above) ok)
      ∙ describe_fields-add fs (append_member ms l (packed t)) above rest
      ∙ ap (λ t. in_object t above) (append_member-members ms l (packed t) (packed_fields fs))

  describe_structs-add :
      (ss : Structs) (ys : Items) (above : List Frame)
      → AllStructs ss
      → describe_structs standard ss (in_array ys above)
        ≡ in_array (append_items ys (packed_structs ss)) above
  describe_structs-add no_more ys above ok = ap (λ t. in_array t above) (sym (append_items-nil ys))
  describe_structs-add (more fs ss) ys above (ok, fresh, rest) =
      let v = wrapped struct end (object (packed_fields fs)) end in
      ap (λ q. describe_structs standard ss (pop standard q)) (describe_fields-add fs end _ ok)
      ∙ describe_structs-add ss (push_back ys v) above rest
      ∙ ap (λ t. in_array t above) (push_back-items ys v (packed_structs ss))

-- What the calls on a new packet build.
pub document-describe :
    (fs : Fields)
    → EachEncodable fs
    → document standard (describe_fields standard fs new) ≡ object (packed_fields fs)
unfolding document new
document-describe fs ok = ap (document standard) (describe_fields-add fs end [] ok)

-- Over a JSON library that behaves as documented, the calls for an encodable tree under a label add
-- its value under the label to the open container, whatever stands in it, and leave the stack as it
-- was.
pub describe-put :
    (json : Rapidjson) (lib : IsRapidjson json) (t : Tdf) (l : List ℕ) (p : Packet)
    → IsEncodable t
    → describe json t l p ≡ put json l (packed t) p
describe-put json lib t l p ok =
    subst (λ j. describe j t l p ≡ put j l (packed t) p) (IsRapidjson-standard lib)
      (describe-add t l p ok)
