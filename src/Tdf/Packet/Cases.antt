-- ===== src/Tdf/Packet/Cases.antt =====
-- WriteType on each kind of value in the document of a Packet, where no other value is inside.
use recap_server.Prelude.{
  ℕ, suc, ◌%◌, ◌^◌, ◌<◌, ◌≡◌, refl, sym, ap, subst, Bool, List, [], ◌∷◌, ◌++◌, Option, none, some,
  arith, length, ◌>>=◌,
}
use recap_server.Prelude.Bytes.{u16_mod}
use recap_server.DataBuffer.{DataBuffer, impl_write}
use recap_server.DataBuffer.Varint.{encode_tdf_integer, write_u8}
use recap_server.DataBuffer.Varint.Septets.{tdf_bytes}
use recap_server.Utils.CText.{c_string}
use recap_server.Json.{standard, Json, number, text, array, end, count_items, count_members}
use recap_server.Tdf.Labels.{IsLabel}
use recap_server.Tdf.Codec.{
  TdfType, binary, integer, integer_list, list, dictionary, tagged_union, object_type, object_id,
  string, write_header, write_text,
}
use recap_server.Tdf.Codec.RoundTrip.{text_bytes}
use recap_server.Tdf.Packet.Write.{
  each_member, first_items, encode_item, write_value, write_entry, write, write_type,
}
use recap_server.Tdf.Packet.Writes.{
  Writes, Writes-eq, Writes-nil, Writes->>=, Writes-u8, Writes-raw, Writes-integer, Writes-text,
  Writes-header,
}
use recap_server.Tdf.Tree.{
  Tdf, num, unset, integers, pair, triple, number_items, text_items, text_map, Structs, no_more,
  more, type_of, count_structs, packed, packed_structs, numbers, texts, text_members, wrapped,
}
use recap_server.Tdf.Tree.Wire.{
  header_bytes, bytes, numbers_bytes, texts_bytes, entries_bytes, NoZero, AllSmall, IsText,
  AllTexts, AllEntries, IsName,
}

c_string-NoZero : (s : List ℕ) → NoZero s → c_string s ≡ s
unfolding c_string
c_string-NoZero [] h = refl
c_string-NoZero (c ∷ cs) h = ground (arith, c_string-NoZero cs h.1)

NoZero-IsLabel : (l : List ℕ) → IsLabel l → NoZero l
NoZero-IsLabel [] h = tt
NoZero-IsLabel (c ∷ cs) (low, high, h) = (omega arith, NoZero-IsLabel cs h)

count_numbers : (xs : List ℕ) → count_items (numbers xs) ≡ length xs
count_numbers [] = refl
count_numbers (x ∷ xs) = ap suc (count_numbers xs)

count_texts : (ss : List (List ℕ)) → count_items (texts ss) ≡ length ss
count_texts [] = refl
count_texts (s ∷ ss) = ap suc (count_texts ss)

pub count_packed_structs : (ss : Structs) → count_items (packed_structs ss) ≡ count_structs ss
count_packed_structs no_more = refl
count_packed_structs (more fs ss) = ap suc (count_packed_structs ss)

count_text_members : (es : List (List ℕ × List ℕ)) → count_members (text_members es) ≡ length es
count_text_members [] = refl
count_text_members ((k, s) ∷ es) = ap suc (count_text_members es)

-- A count that fits in a byte.
pub byte_count : {c n : ℕ} → c ≡ n → n < 256 → c % 256 ≡ n
byte_count e h = omega arith

module _ (big : Bool) where
  -- Write with a name, and WriteType without one.
  abbrev pub named : ℕ → List ℕ → Json → DataBuffer → Option DataBuffer
  named f n = write standard big f (some n)

  abbrev pub unnamed : ℕ → TdfType → Json → DataBuffer → Option DataBuffer
  unnamed f type = write_type standard big f type none

  -- A text value.
  Writes-get_string :
      (s : List ℕ) → IsText s → Writes (λ b. write_text big b (c_string s)) (text_bytes s)
  Writes-get_string s (small, clean) =
      subst (λ x. Writes (λ b. write_text big b x) (text_bytes s)) (sym (c_string-NoZero s clean))
        (Writes-text big s small)

  named_lem :
      (l : List ℕ) (t : Tdf) (f : ℕ) (b : DataBuffer)
      → c_string l ≡ l
      → named (suc (suc f)) l (packed t) b ≡ (
          write_header big b l (type_of t)
          >>= write_value standard big (named f) (unnamed f) (type_of t) (packed t))
  unfolding write
  named_lem l (num v) f b e = rw e refl
  named_lem l t f b e = rw e refl

  -- The header of a name and a value without one, as Write does them.
  pub Writes-named :
      (l : List ℕ) (t : Tdf) (f : ℕ) (xs : List ℕ)
      → IsName l
      → Writes (write_value standard big (named f) (unnamed f) (type_of t) (packed t)) xs
      → Writes (named (suc (suc f)) l (packed t)) (header_bytes big l (type_of t) ++ xs)
  Writes-named l t f xs (some_left, short, ok) w =
      Writes-eq (λ b. named_lem l t f b (c_string-NoZero l (NoZero-IsLabel l ok)))
        (Writes->>= (header_bytes big l (type_of t)) xs (Writes-header big l (type_of t)) w)

  pub value-num :
      (f v : ℕ)
      → v < 2 ^ 55
      → Writes (write_value standard big (named f) (unnamed f) integer (number v)) (tdf_bytes v)
  unfolding write_value
  value-num f v h = Writes-integer v (omega arith)

  pub value-str :
      (f : ℕ) (s : List ℕ)
      → IsText s
      → Writes (write_value standard big (named f) (unnamed f) string (text s)) (text_bytes s)
  unfolding write_value
  value-str f s h = Writes-get_string s h

  pub value-blob :
      (f : ℕ) (s : List ℕ)
      → IsText s
      → Writes
          (write_value standard big (named f) (unnamed f) binary (wrapped binary end (text s) end))
          (tdf_bytes (length s) ++ s)
  unfolding write_value
  value-blob f s (small, clean) =
      subst
        (λ x.
          Writes (λ b. encode_tdf_integer b (length x) >>= λ b'. impl_write b' x)
            (tdf_bytes (length s) ++ s))
        (sym (c_string-NoZero s clean))
        (Writes->>= (tdf_bytes (length s)) s (Writes-integer (length s) (omega arith))
          (Writes-raw s))

  pub each-number :
      (xs : List ℕ)
      → AllSmall xs
      → Writes (first_items encode_item (length xs) (numbers xs)) (numbers_bytes xs)
  unfolding first_items encode_item encode_tdf_integer
  each-number [] h = Writes-nil
  each-number (x ∷ xs) (small, h) =
      Writes->>= (tdf_bytes x) (numbers_bytes xs) (Writes-integer x (omega arith))
        (each-number xs h)

  -- Two bytes before what comes next.
  pub Writes-two :
      {w : DataBuffer → Option DataBuffer} (m n : ℕ) (xs : List ℕ)
      → m < 256
      → n < 256
      → Writes w xs
      → Writes (λ b. write_u8 b m >>= λ b'. write_u8 b' n >>= w) ((m ∷ []) ++ ((n ∷ []) ++ xs))
  Writes-two m n xs small small' w =
      Writes->>= (m ∷ []) ((n ∷ []) ++ xs) (Writes-u8 m small)
        (Writes->>= (n ∷ []) xs (Writes-u8 n small') w)

  pub value-integers :
      (f : ℕ) (xs : List ℕ)
      → length xs < 256
      → AllSmall xs
      → Writes
          (write_value standard big
            (named f)
            (unnamed f)
            integer_list
            (wrapped integer_list end (array (numbers xs)) end))
          (bytes big (integers xs))
  unfolding write_value
  value-integers f xs few h = rw (byte_count (count_numbers xs) few) (
      Writes->>= (length xs ∷ []) (numbers_bytes xs) (Writes-u8 (length xs) few) (each-number xs h))

  pub value-pair :
      (f x y : ℕ)
      → x < u16_mod
      → y < u16_mod
      → Writes
          (write_value standard big (named f) (unnamed f) object_type (packed (pair x y)))
          (bytes big (pair x y))
  unfolding write_value
  value-pair f x y hx hy =
      Writes->>= (tdf_bytes x) (tdf_bytes y) (Writes-integer x (omega arith))
        (Writes-integer y (omega arith))

  pub value-triple :
      (f x y z : ℕ)
      → x < u16_mod
      → y < u16_mod
      → z < 2 ^ 55
      → Writes
          (write_value standard big (named f) (unnamed f) object_id (packed (triple x y z)))
          (bytes big (triple x y z))
  unfolding write_value
  value-triple f x y z hx hy hz =
      Writes->>= (tdf_bytes x) (tdf_bytes y ++ tdf_bytes z) (Writes-integer x (omega arith)) (
        Writes->>= (tdf_bytes y) (tdf_bytes z) (Writes-integer y (omega arith))
          (Writes-integer z (omega arith)))

  pub value-unset :
      (f : ℕ)
      → Writes
          (write_value standard big (named f) (unnamed f) tagged_union (packed unset))
          (127 ∷ [])
  unfolding write_value
  value-unset f = Writes->>= (127 ∷ []) [] (Writes-u8 127 (omega arith)) Writes-nil

  -- WriteType without a name on an item of a list or a map.
  item-number :
      (f : ℕ) (xs : List ℕ)
      → AllSmall xs
      → Writes (first_items (unnamed (suc f) integer) (length xs) (numbers xs)) (numbers_bytes xs)
  unfolding write_type first_items
  item-number f [] h = Writes-nil
  item-number f (x ∷ xs) (small, h) =
      Writes->>= (tdf_bytes x) (numbers_bytes xs) (Writes-integer x (omega arith))
        (item-number f xs h)

  item-text :
      (f : ℕ) (ss : List (List ℕ))
      → AllTexts ss
      → Writes (first_items (unnamed (suc f) string) (length ss) (texts ss)) (texts_bytes ss)
  unfolding write_type first_items
  item-text f [] h = Writes-nil
  item-text f (s ∷ ss) (ok, h) =
      Writes->>= (text_bytes s) (texts_bytes ss) (Writes-get_string s ok) (item-text f ss h)

  item-entry :
      (f : ℕ) (es : List (List ℕ × List ℕ))
      → AllEntries es
      → Writes
          (each_member (write_entry (unnamed (suc f)) string string) (text_members es))
          (entries_bytes es)
  unfolding write_type each_member
  item-entry f [] h = Writes-nil
  item-entry f ((k, s) ∷ es) (ok, ok', h) =
      Writes->>= (text_bytes k ++ text_bytes s) (entries_bytes es)
        (Writes->>= (text_bytes k) (text_bytes s) (Writes-get_string k ok)
          (Writes-get_string s ok'))
        (item-entry f es h)

  pub value-number_items :
      (f : ℕ) (xs : List ℕ)
      → length xs < 256
      → AllSmall xs
      → Writes
          (write_value standard big
            (named (suc f))
            (unnamed (suc f))
            list
            (packed (number_items xs)))
          (bytes big (number_items xs))
  unfolding write_value
  value-number_items f xs few h =
      rw (byte_count (count_numbers xs) few)
        (Writes-two 0 (length xs) (numbers_bytes xs) (omega arith) few (item-number f xs h))

  pub value-text_items :
      (f : ℕ) (ss : List (List ℕ))
      → length ss < 256
      → AllTexts ss
      → Writes
          (write_value standard big (named (suc f)) (unnamed (suc f)) list (packed (text_items ss)))
          (bytes big (text_items ss))
  unfolding write_value
  value-text_items f ss few h =
      rw (byte_count (count_texts ss) few)
        (Writes-two 1 (length ss) (texts_bytes ss) (omega arith) few (item-text f ss h))

  pub value-text_map :
      (f : ℕ) (es : List (List ℕ × List ℕ))
      → length es < 256
      → AllEntries es
      → Writes
          (write_value standard big
            (named (suc f))
            (unnamed (suc f))
            dictionary
            (packed (text_map es)))
          (bytes big (text_map es))
  unfolding write_value
  value-text_map f es few h = rw (byte_count (count_text_members es) few) (
      Writes->>= (1 ∷ []) _ (Writes-u8 1 (omega arith))
        (Writes-two 1 (length es) (entries_bytes es) (omega arith) few (item-entry f es h)))
