-- ===== src/Tdf/Packet.antt =====
-- The class Packet of Blaze/TDF: a document and a stack of pointers into it, each to the `_Content`
-- of the value added last to the one below. The stack is a zipper: `content` is what the top of the
-- stack points to, and a frame is what stands around it. A change through a pointer shows in the
-- document as an assignment to the member that the pointer was found by.
pub mod Write
pub mod Writes
mod Cases
pub mod Refines
pub mod Calls
use recap_server.Prelude.{
  ℕ, ◌%◌, ◌++◌, Bool, true, List, [], ◌∷◌, Option, none, some, if◌then◌else◌,
}
use recap_server.Prelude.Bytes.{u16_mod, u32_mod}
use recap_server.Json.{
  Json, null, boolean, number, text, array, object, Items, nil, cons, Members, end, member,
  Rapidjson, build,
}
use recap_server.Tdf.Codec.{
  TdfType, type_number, binary, struct, list, dictionary, tagged_union, integer_list, object_type,
  object_id,
}
use recap_server.Tdf.Keys.{
  key_type, key_content, key_list_type, key_stub, key_key_type, key_value_type, key_address_member,
  key_x, key_y, key_z,
}

-- What gets the value, the name of the value, and its members as they were when it was added.
pub record Frame : Type 0 where
  pub parent : Json
  pub name : List ℕ
  pub members : Members

pub record Packet : Type 0 where
  pub content : Json
  pub frames : List Frame

unfoldable pub new : Packet
new = record { content = object end; frames = [] }

-- `_Type`, before the other members.
abbrev pub typed : TdfType → List (List ℕ × Json) → List (List ℕ × Json)
typed t ms = (key_type, number (type_number t)) ∷ ms

-- An object that says its type, with its other members added in turn. `json` is the library.
unfoldable pub described : Rapidjson → TdfType → List (List ℕ × Json) → Json
unfolding build
described json t ms = object (build json end (typed t ms))

module _ (json : Rapidjson) where
  -- What `["_Content"]` gives. The operator asserts that the name is there.
  pointed : Option Json → Json
  pointed none = null
  pointed (some v) = v

  -- A value of members that are added in turn is added, and the stack gets a pointer to what the
  -- library finds as its `_Content`.
  push : List ℕ → List (List ℕ × Json) → Packet → Packet
  unfolding build pointed
  push label ms p =
      let members = build json end ms in
      record {
        content = pointed (json.find key_content members);
        frames = record { parent = p.content; name = label; members = members } ∷ p.frames;
      }

  unfoldable pub push_integer_list : List ℕ → Packet → Packet
  unfolding push
  push_integer_list label p = push label (typed integer_list ((key_content, array nil) ∷ [])) p

  unfoldable pub push_struct : List ℕ → Packet → Packet
  unfolding push
  push_struct label p = push label (typed struct ((key_content, object end) ∷ [])) p

  unfoldable pub push_union : List ℕ → ℕ → Packet → Packet
  unfolding push
  push_union label type p =
      push label
        (typed tagged_union
          ((key_address_member, number (type % u32_mod)) ∷ (key_content, object end) ∷ []))
        p

  unfoldable pub push_map : List ℕ → TdfType → TdfType → Packet → Packet
  unfolding push
  push_map label key_t value_t p =
      push label
        (typed dictionary (
          (key_key_type, number (type_number key_t))
          ∷ (key_value_type, number (type_number value_t))
          ∷ (key_content, object end)
          ∷ []))
        p

  unfoldable pub push_list : List ℕ → TdfType → Bool → Packet → Packet
  unfolding push
  push_list label type stub p =
      push label
        (typed list (
          (key_list_type, number (type_number type))
          ∷ (key_content, array nil)
          ∷ (key_stub, boolean stub)
          ∷ []))
        p

  -- In an array the name is not used. The function asserts that there is no other parent.
  unfoldable pub add_member : Json → List ℕ → Json → Json
  add_member (object ms) name v = object (json.add ms name v)
  add_member (array xs) name v = array (json.push xs v)
  add_member other name v = other

  -- The parent of a frame, with the value whose `_Content` is now as given.
  unfoldable pub close : Frame → Json → Json
  unfolding add_member
  close f content = add_member f.parent f.name (object (json.assign key_content content f.members))

  close_all : Json → List Frame → Json
  unfolding close
  close_all content [] = content
  close_all content (f ∷ fs) = close_all (close f content) fs

  -- `mDocument`.
  unfoldable pub document : Packet → Json
  unfolding close_all
  document p = close_all p.content p.frames

  -- `AddMember(mStack.back(), label, value)`.
  unfoldable pub put : List ℕ → Json → Packet → Packet
  unfolding add_member
  put label v p = record p { content = add_member p.content label v }

  unfoldable pub put_integer : List ℕ → ℕ → Packet → Packet
  unfolding put
  put_integer label v p = put label (number v) p

  unfoldable pub put_string : List ℕ → List ℕ → Packet → Packet
  unfolding put
  put_string label v p = put label (text v) p

  -- `none` is a null pointer.
  unfoldable pub put_blob : List ℕ → Option (List ℕ) → Packet → Packet
  unfolding put described
  put_blob label bytes p =
      let content : List ℕ = elim bytes [ none ↦ [] | some xs ↦ xs ] in
      put label (described json binary ((key_content, text content) ∷ [])) p

  -- The arguments are 16 bits wide.
  unfoldable pub put_object_type : List ℕ → ℕ → ℕ → Packet → Packet
  unfolding put described
  put_object_type label x y p =
      put label
        (described json object_type
          ((key_x, number (x % u16_mod)) ∷ (key_y, number (y % u16_mod)) ∷ []))
        p

  unfoldable pub put_object_id : List ℕ → ℕ → ℕ → ℕ → Packet → Packet
  unfolding put described
  put_object_id label x y z p =
      put label
        (described json object_id
          ((key_x, number (x % u16_mod)) ∷ (key_y, number (y % u16_mod)) ∷ (key_z, number z) ∷ []))
        p

  -- The pointer to the document stays.
  pop_frame : Packet → List Frame → Packet
  unfolding close
  pop_frame p [] = p
  pop_frame p (f ∷ fs) = record { content = close f p.content; frames = fs }

  unfoldable pub pop : Packet → Packet
  unfolding pop_frame
  pop p = pop_frame p p.frames
