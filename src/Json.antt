-- ===== src/Json.antt =====
-- JSON documents, and the part of the rapidjson library that the code calls on them as an interface.
-- Numbers are unsigned integers, texts and names are bytes, and an object keeps its members in order
-- and may hold a name twice.
use recap_server.Prelude.{
  ℕ, suc, Bool, true, false, List, [], ◌∷◌, Option, none, some, ◌==◌, ◌&&◌, if◌then◌else◌, ◌≡◌,
  refl, ap, sym,
}

mutual
  pub data Json : Type 0 where
    null : Json
    boolean : Bool → Json
    number : ℕ → Json
    text : List ℕ → Json
    array : Items → Json
    object : Members → Json

  pub data Items : Type 0 where
    nil : Items
    cons : Json → Items → Items

  pub data Members : Type 0 where
    end : Members
    member : List ℕ → Json → Members → Members

-- Two texts are equal.
abbrev pub text_eq : List ℕ → List ℕ → Bool
text_eq [] [] = true
text_eq [] (y ∷ ys) = false
text_eq (x ∷ xs) [] = false
text_eq (x ∷ xs) (y ∷ ys) = x == y && text_eq xs ys

-- The first member of that name.
abbrev pub find_member : List ℕ → Members → Option Json
find_member key end = none
find_member key (member name v ms) = if text_eq key name then some v else find_member key ms

-- A new value at the first member of that name.
abbrev pub assign_member : List ℕ → Json → Members → Members
assign_member key w end = end
assign_member key w (member name v ms) =
    if text_eq key name then member name w ms else member name v (assign_member key w ms)

-- A new member after the others.
abbrev pub append_member : Members → List ℕ → Json → Members
append_member end name v = member name v end
append_member (member name' w ms) name v = member name' w (append_member ms name v)

-- A new item after the others.
abbrev pub push_back : Items → Json → Items
push_back nil v = cons v nil
push_back (cons w xs) v = cons w (push_back xs v)

abbrev pub append_members : Members → Members → Members
append_members end ns = ns
append_members (member name v ms) ns = member name v (append_members ms ns)

abbrev pub append_items : Items → Items → Items
append_items nil ys = ys
append_items (cons x xs) ys = cons x (append_items xs ys)

-- How many there are.
abbrev pub count_items : Items → ℕ
count_items nil = 0
count_items (cons x xs) = suc (count_items xs)

abbrev pub count_members : Members → ℕ
count_members end = 0
count_members (member name v ms) = suc (count_members ms)

pub append_member-members :
    (ms : Members) (l : List ℕ) (v : Json) (ns : Members)
    → append_members (append_member ms l v) ns ≡ append_members ms (member l v ns)
append_member-members end l v ns = refl
append_member-members (member k w ms) l v ns = ap (member k w) (append_member-members ms l v ns)

pub push_back-items :
    (xs : Items) (v : Json) (ys : Items)
    → append_items (push_back xs v) ys ≡ append_items xs (cons v ys)
push_back-items nil v ys = refl
push_back-items (cons w xs) v ys = ap (cons w) (push_back-items xs v ys)

pub append_members-end : (ms : Members) → append_members ms end ≡ ms
append_members-end end = refl
append_members-end (member k w ms) = ap (member k w) (append_members-end ms)

pub append_items-nil : (xs : Items) → append_items xs nil ≡ xs
append_items-nil nil = refl
append_items-nil (cons w xs) = ap (cons w) (append_items-nil xs)

-- What the code calls: AddMember, FindMember, an assignment to the value that FindMember finds, and
-- PushBack.
pub record Rapidjson : Type 0 where
  pub add : Members → List ℕ → Json → Members
  pub find : List ℕ → Members → Option Json
  pub assign : List ℕ → Json → Members → Members
  pub push : Items → Json → Items

-- What the library documents of them: members and items stay in the order in which they are added,
-- and of several members with one name the first is found.
pub record IsRapidjson (json : Rapidjson) : Type 0 where
  pub add-last : (ms : Members) (k : List ℕ) (v : Json) → json.add ms k v ≡ append_member ms k v
  pub find-first : (k : List ℕ) (ms : Members) → json.find k ms ≡ find_member k ms
  pub assign-first :
      (k : List ℕ) (v : Json) (ms : Members) → json.assign k v ms ≡ assign_member k v ms
  pub push-last : (xs : Items) (v : Json) → json.push xs v ≡ push_back xs v

-- Functions that do what is documented.
abbrev pub standard : Rapidjson
standard = record {
  add = append_member;
  find = find_member;
  assign = assign_member;
  push = push_back;
}

pub standard-IsRapidjson : IsRapidjson standard
standard-IsRapidjson = record {
  add-last = λ ms k v. refl;
  find-first = λ k ms. refl;
  assign-first = λ k v ms. refl;
  push-last = λ xs v. refl;
}

-- The documented behaviour leaves no choice.
pub IsRapidjson-standard : {json : Rapidjson} → IsRapidjson json → standard ≡ json
IsRapidjson-standard h i = record {
  add = λ ms k v. sym (h.add-last ms k v) i;
  find = λ k ms. sym (h.find-first k ms) i;
  assign = λ k v ms. sym (h.assign-first k v ms) i;
  push = λ xs v. sym (h.push-last xs v) i;
}

-- An object to which the members are added in turn.
unfoldable pub build : Rapidjson → Members → List (List ℕ × Json) → Members
build json ms [] = ms
build json ms ((k, v) ∷ l) = build json (json.add ms k v) l
