-- ===== src/Tdf/Parser/Parses.antt =====
-- Parser::Read on the bytes of a tree, on a little-endian host: ReadValue and the loops by induction
-- on the tree.
use recap_server.Prelude.{
  ℕ, zero, suc, ◌+◌, ◌≤◌, ◌<◌, ◌≡◌, ◌≢◌, refl, sym, ap, subst, ◌∙◌, List, [], ◌∷◌, ◌++◌, some, none,
  Option, arith, length, ◌>>=◌, ◌==◌, if◌then◌else◌, false, append_assoc, length-append,
}
use recap_server.DataBuffer.{DataBuffer}
use recap_server.DataBuffer.Reads.{Unread, advance}
use recap_server.DataBuffer.Varint.Septets.{tdf_bytes}
use recap_server.Json.{
  standard, Json, object, Items, nil, Members, end, find_member, text_eq, append_member,
  append_members, append_items, push_back, append_member-members, append_members-end,
}
use recap_server.Tdf.Codec.{struct, tagged_union}
use recap_server.Tdf.Tree.{type_member}
use recap_server.Tdf.Keys.{key_type, key_address_member}
use recap_server.Tdf.Parser.{
  Reader, return, read_case, read_value, read_until_zero, read_struct_value, read_union, read_list,
  read_content, read_each, is_stub, union_json,
}
use recap_server.Tdf.Parser.Reads.{
  Next, Next-append, Reads, Reads->>>, Reads-then, Reads-u8, advance-append,
}
use recap_server.Tdf.Parser.Cases
use recap_server.Tdf.Parser.Cases.{each_nil, each_cons}
use recap_server.Tdf.Parser.Steps.{
  peek-Unread, value_add, field_bytes, field_first, until_more, until_zero, ReadsFields,
  struct-Reads,
}
use recap_server.Tdf.Tree.{
  Tdf, num, str, blob, structure, unset, choice, integers, pair, triple, number_items, text_items,
  struct_items, text_map, Fields, last, entry, Structs, no_more, more, type_of, count_structs,
  parsed, parsed_fields, parsed_structs, sized_list, address,
}
use recap_server.Tdf.Tree.Wire.{
  bytes, fields_bytes, structs_bytes, IsName, IsEncodable, EachEncodable, AllStructs, Fresh, size,
  size_fields, size_structs,
}

tdf_bytes-pos : (v : ℕ) → 0 < length (tdf_bytes v)
unfolding tdf_bytes
tdf_bytes-pos v = ground arith

append-pos : (xs ys : List ℕ) → 0 < length xs → 0 < length (xs ++ ys)
append-pos xs ys h = omega (arith, length-append xs ys)

pub bytes-pos : (t : Tdf) → 0 < length (bytes false t)
bytes-pos (num v) = tdf_bytes-pos v
bytes-pos (str s) = append-pos (tdf_bytes (length s + 1)) _ (tdf_bytes-pos (length s + 1))
bytes-pos (blob s) = append-pos (tdf_bytes (length s)) s (tdf_bytes-pos (length s))
bytes-pos (structure fs) = omega (arith, length-append (fields_bytes false fs) (0 ∷ []))
bytes-pos (pair x y) = append-pos (tdf_bytes x) (tdf_bytes y) (tdf_bytes-pos x)
bytes-pos (triple x y z) = append-pos (tdf_bytes x) _ (tdf_bytes-pos x)
bytes-pos t = omega arith

-- A name of four characters at most is none of the parser's own names.
short_ne : (l key : List ℕ) → length l < length key → text_eq l key ≡ false
short_ne [] [] h = absurd (omega arith)
short_ne [] (y ∷ ys) h = refl
short_ne (x ∷ xs) [] h = refl
short_ne (x ∷ xs) (y ∷ ys) h = ground (arith, short_ne xs ys)

union_fresh :
    (l : List ℕ) (n : ℕ) → IsName l → find_member l (type_member tagged_union (address n)) ≡ none
union_fresh l n (some_left, short, ok) =
    rw (short_ne l key_type (omega arith), short_ne l key_address_member (omega arith)) refl

chosen-Reads :
    (v : Json → Reader Json) (n : ℕ) (xs : List ℕ) (j : Json)
    → n ≢ 127
    → Reads (v (object (type_member tagged_union (address n)))) xs j
    → Reads (read_union standard v) ((n ∷ []) ++ xs) j
unfolding read_union
chosen-Reads v n xs j ne p =
    let test : (n == 127) ≡ false = ground arith in
    Reads->>> _ (n ∷ []) xs n (Reads-u8 n) (
      subst
        (λ t. Reads (if t then return (union_json standard n) else v (union_json standard n)) xs j)
        (sym test) p)

-- A list of structs whose first byte is not the mark of a stub.
not_stub :
    {b : DataBuffer} (c : ℕ) (xs : List ℕ)
    → c ≢ 2
    → Unread b (c ∷ xs)
    → is_stub struct b ≡ some false
unfolding is_stub
not_stub c xs ne u =
    let test : (c == 2) ≡ false = ground arith in rw (peek-Unread c xs u, ◌>>=◌, test) refl

content-Reads :
    (r : Reader Json) (loop : Json → Reader Json) (n : ℕ) (xs cs : List ℕ) (c : ℕ) (ys : Items)
    → xs ≡ c ∷ cs
    → c ≢ 2
    → Reads (read_each standard r n nil) xs ys
    → Reads
        (λ b. is_stub struct b >>= λ stub. read_content standard r loop 3 n stub b)
        xs
        (sized_list struct n ys)
unfolding read_content
content-Reads r loop n xs cs c ys e ne p b rest next =
    let u = subst (λ t. Unread b (t ++ rest)) e next.unread in
    rw (not_stub c (cs ++ rest) ne u, ◌>>=◌) (rw (p b rest next, ◌>>=◌) refl)

list-Reads :
    (r : Reader Json) (loop : Json → Reader Json) (n : ℕ) (xs cs : List ℕ) (c : ℕ) (ys : Items)
    → xs ≡ c ∷ cs
    → c ≢ 2
    → Reads (read_each standard r n nil) xs ys
    → Reads (read_list standard r loop) ((3 ∷ []) ++ ((n ∷ []) ++ xs)) (sized_list struct n ys)
unfolding read_list
list-Reads r loop n xs cs c ys e ne p =
    Reads->>> _ (3 ∷ []) _ 3 (Reads-u8 3)
      (Reads->>> _ (n ∷ []) xs n (Reads-u8 n) (content-Reads r loop n xs cs c ys e ne p))

-- How the bytes of a struct begin.
struct_first :
    (fs : Fields) (ys : List ℕ)
    → EachEncodable fs
    → (c : ℕ) × (cs : List ℕ) × ((fields_bytes false fs ++ 0 ∷ []) ++ ys ≡ c ∷ cs) × (c ≢ 2)
struct_first last ys ok = (0, ys, refl, omega arith)
struct_first (entry l t fs) ys (name, ok, rest) =
    let (c, cs, e, large) = field_first l (type_of t) (bytes false t) name in
    (
      c,
      (cs ++ fields_bytes false fs ++ 0 ∷ []) ++ ys,
      ap (λ xs. (xs ++ fields_bytes false fs ++ 0 ∷ []) ++ ys) e,
      omega arith,
    )

-- Under a label in an object, then the loop on what comes next.
field-Reads :
    (f : ℕ) (l : List ℕ) (t : Tdf) (ms : Members) (ys : List ℕ) (ns : Members)
    → IsName l
    → Reads
        (read_value standard false f (object ms))
        (field_bytes l (type_of t) (bytes false t))
        (object (append_member ms l (parsed t)))
    → ReadsFields f (append_member ms l (parsed t)) ys ns
    → ReadsFields (suc f) ms (field_bytes l (type_of t) (bytes false t) ++ ys) ns
field-Reads f l t ms ys ns name p q b rest n =
    let xs = field_bytes l (type_of t) (bytes false t) in
    let tail = ys ++ 0 ∷ [] in
    let (first, second) =
      Next-append xs tail rest (subst (λ t. Next b t rest) (append_assoc xs ys (0 ∷ [])) n) in
    let (c, cs, e, large) = field_first l (type_of t) (bytes false t) name in
    let u = subst (λ t. Unread b (t ++ (tail ++ rest))) e first.unread in
    until_more f c (object ms) (object (append_member ms l (parsed t))) b (advance b (length xs))
      (peek-Unread c (cs ++ (tail ++ rest)) u) (omega arith) (p b (tail ++ rest) first)
      (q (advance b (length xs)) rest second
        ∙ ap (λ d. some (object ns, d)) (advance-append b xs ys))

last-Reads : (f : ℕ) (ms : Members) → ReadsFields (suc f) ms [] (append_members ms end)
last-Reads f ms b rest n =
    until_zero f (object ms) b rest n.unread
    ∙ ap (λ t. some (object t, advance b 0)) (sym (append_members-end ms))

-- ReadStruct, ReadValue and the loop up to a zero byte, with fuel `f`.
abbrev structs : ℕ → Reader Json
structs f = read_struct_value standard false f

abbrev values : ℕ → Json → Reader Json
values f = read_value standard false f

abbrev loop : ℕ → Json → Reader Json
loop f = read_until_zero standard false f

-- The readers that a value with fuel `f` uses inside.
abbrev case : ℕ → Tdf → Reader (Option Json)
case f t =
    read_case standard (read_struct_value standard false f) (read_value standard false f)
      (read_until_zero standard false f) (type_of t)

pub size_fields-pos : (fs : Fields) → 0 < size_fields fs
size_fields-pos last = omega arith
size_fields-pos (entry l t fs) = omega arith

mutual
  unfolding read_case

  case-Reads :
      (t : Tdf) (f : ℕ)
      → size t ≤ f
      → IsEncodable t
      → Reads (case f t) (bytes false t) (some (parsed t))
  case-Reads (num v) f h ok = Cases.case-num (structs f) (values f) (loop f) v ok
  case-Reads (str s) f h ok = Cases.case-str (structs f) (values f) (loop f) s ok
  case-Reads (blob s) f h ok = Cases.case-blob (structs f) (values f) (loop f) s ok
  case-Reads (structure fs) zero h ok = absurd (omega arith)
  case-Reads (structure fs) (suc f) h (ok, fresh) = Reads-then some _ _ (
      struct-Reads f (fields_bytes false fs) (type_member struct (parsed_fields fs))
        (fields-Reads fs f (type_member struct end) (omega arith) ok fresh))
  case-Reads unset f h ok = Cases.case-unset (structs f) (values f) (loop f)
  case-Reads (choice n l t) zero h ok = absurd (omega arith)
  case-Reads (choice n l t) (suc f) h (small, ne, name, ok) = Reads-then some _ _ (
      chosen-Reads (read_value standard false (suc f)) n _ _ ne (
        value_add f l t (type_member tagged_union (address n)) (bytes false t) name
          (union_fresh l n name) (bytes-pos t) (case-Reads t f (omega arith) ok)))
  case-Reads (integers xs) f h (few, ok) = Reads-then some _ _ (Cases.integers_read xs ok)
  case-Reads (pair x y) f h (hx, hy) = Reads-then some _ _ (Cases.pair_read x y hx hy)
  case-Reads (triple x y z) f h (hx, hy, hz) =
      Reads-then some _ _ (Cases.triple_read x y z hx hy hz)
  case-Reads (number_items xs) f h (few, ok) =
      Reads-then some _ _ (Cases.numbers_read (structs f) (values f) (loop f) xs ok)
  case-Reads (text_items ss) f h (few, ok) =
      Reads-then some _ _ (Cases.texts_read (structs f) (values f) (loop f) ss ok)
  case-Reads (struct_items no_more) f h ok = absurd (omega arith)
  case-Reads (struct_items (more fs ss)) f h (few, most, ok) =
      let (c, cs, e, ne) = struct_first fs (structs_bytes false ss) ok.0 in
      Reads-then some _ _ (
        list-Reads (structs f) (loop f) (count_structs (more fs ss)) _ cs c _ e ne
          (structs-Reads (more fs ss) f nil h ok))
  case-Reads (text_map es) f h (few, ok) =
      Reads-then some _ _ (Cases.map_read (structs f) (values f) (loop f) es ok)

  fields-Reads :
      (fs : Fields) (f : ℕ) (ms : Members)
      → size_fields fs ≤ f
      → EachEncodable fs
      → Fresh ms fs
      → ReadsFields f ms (fields_bytes false fs) (append_members ms (parsed_fields fs))
  fields-Reads last zero ms h ok fresh = absurd (omega arith)
  fields-Reads last (suc f) ms h ok fresh = last-Reads f ms
  fields-Reads (entry l t fs) zero ms h ok fresh = absurd (omega arith)
  fields-Reads (entry l t fs) (suc zero) ms h ok fresh = absurd (omega arith)
  fields-Reads (entry l t fs) (suc (suc f)) ms h (name, ok, rest) (new, fresh) =
      subst (ReadsFields (suc (suc f)) ms (fields_bytes false (entry l t fs)))
        (append_member-members ms l (parsed t) (parsed_fields fs))
        (field-Reads (suc f) l t ms (fields_bytes false fs) _ name
          (value_add f l t ms (bytes false t) name new (bytes-pos t)
            (case-Reads t f (omega (arith, size_fields-pos fs)) ok))
          (fields-Reads fs (suc f) (append_member ms l (parsed t)) (omega arith) rest fresh))

  structs-Reads :
      (ss : Structs) (f : ℕ) (acc : Items)
      → size_structs ss ≤ f
      → AllStructs ss
      → Reads
          (read_each standard (read_struct_value standard false f) (count_structs ss) acc)
          (structs_bytes false ss)
          (append_items acc (parsed_structs ss))
  structs-Reads no_more f acc h ok = each_nil (structs f) acc
  structs-Reads (more fs ss) zero acc h ok = absurd (omega arith)
  structs-Reads (more fs ss) (suc f) acc h (ok, fresh, rest) =
      each_cons _ (count_structs ss) acc (fields_bytes false fs ++ 0 ∷ []) (structs_bytes false ss)
        _ (parsed_structs ss)
        (struct-Reads f (fields_bytes false fs) (type_member struct (parsed_fields fs))
          (fields-Reads fs f (type_member struct end) (omega arith) ok fresh))
        (structs-Reads ss (suc f) (push_back acc (object (type_member struct (parsed_fields fs))))
          (omega arith) rest)

-- ReadValue with fuel enough, into an object without the label.
pub value-Reads :
    (l : List ℕ) (t : Tdf) (f : ℕ) (ms : Members)
    → size t + 1 ≤ f
    → IsName l
    → IsEncodable t
    → find_member l ms ≡ none
    → Reads
        (read_value standard false f (object ms))
        (field_bytes l (type_of t) (bytes false t))
        (object (append_member ms l (parsed t)))
value-Reads l t zero ms h name ok new = absurd (omega arith)
value-Reads l t (suc f) ms h name ok new =
    value_add f l t ms (bytes false t) name new (bytes-pos t) (case-Reads t f (omega arith) ok)
