-- ===== src/Tdf/Packet/Refines.antt =====
-- Packet::Write on the document of a tree writes the bytes of the tree.
use recap_server.Prelude.{
  ℕ, zero, suc, ◌%◌, ◌≤◌, ◌<◌, ◌≡◌, ◌≢◌, subst, Bool, true, false, List, [], ◌∷◌, ◌++◌, Option,
  some, arith, append-nil, ltb, ◌>>=◌, ◌==◌,
}
use recap_server.Prelude.Bytes.{u32_mod}
use recap_server.DataBuffer.{DataBuffer}
use recap_server.Json.{standard, object, nil, end}
use recap_server.Tdf.Codec.{struct}
use recap_server.Tdf.Packet.Write.{
  each_member, first_items, write_value, write_type, write_document,
}
use recap_server.Tdf.Packet.Writes.{Writes, Writes-nil, Writes->>=, Writes-u8}
use recap_server.Tdf.Packet.Cases
use recap_server.Tdf.Packet.Cases.{
  named, unnamed, Writes-named, Writes-two, byte_count, count_packed_structs,
}
use recap_server.Tdf.Tree.{
  Tdf, num, str, blob, structure, unset, choice, integers, pair, triple, number_items, text_items,
  struct_items, text_map, Fields, last, entry, Structs, no_more, more, type_of, count_structs,
  packed, packed_fields, packed_structs,
}
use recap_server.Tdf.Tree.Wire.{
  header_bytes, bytes, fields_bytes, structs_bytes, IsEncodable, EachEncodable, AllStructs, size,
  size_fields, size_structs,
}

module _ (big : Bool) where
  -- WriteType on the value of a tree, without its name.
  abbrev value : ℕ → Tdf → DataBuffer → Option DataBuffer
  value f t = write_value standard big (named big f) (unnamed big f) (type_of t) (packed t)

  struct_value :
      (f : ℕ) (fs : Fields)
      → Writes (each_member (named big f) (packed_fields fs)) (fields_bytes big fs)
      → Writes (value f (structure fs)) (fields_bytes big fs ++ 0 ∷ [])
  unfolding write_value
  struct_value f fs w = Writes->>= (fields_bytes big fs) (0 ∷ []) w (Writes-u8 0 (omega arith))

  struct_item :
      (f : ℕ) (fs : Fields) (ss : Structs)
      → Writes (value f (structure fs)) (fields_bytes big fs ++ 0 ∷ [])
      → Writes
          (first_items (unnamed big (suc f) struct) (count_structs ss) (packed_structs ss))
          (structs_bytes big ss)
      → Writes
          (first_items
            (unnamed big (suc f) struct)
            (count_structs (more fs ss))
            (packed_structs (more fs ss)))
          (structs_bytes big (more fs ss))
  unfolding first_items write_type
  struct_item f fs ss v w = Writes->>= (fields_bytes big fs ++ 0 ∷ []) (structs_bytes big ss) v w

  struct_list :
      (f : ℕ) (ss : Structs)
      → count_structs ss < 256
      → Writes
          (first_items (unnamed big f struct) (count_structs ss) (packed_structs ss))
          (structs_bytes big ss)
      → Writes (value f (struct_items ss)) (bytes big (struct_items ss))
  unfolding write_value
  struct_list f ss few w =
      rw (byte_count (count_packed_structs ss) few)
        (Writes-two big 3 (count_structs ss) (structs_bytes big ss) (omega arith) few w)

  -- A bind that does nothing more.
  only_one :
      {w : DataBuffer → Option DataBuffer} (xs : List ℕ)
      → Writes w xs
      → Writes (λ b. w b >>= some) xs
  only_one {w} xs p =
      subst (Writes (λ b. w b >>= some)) (append-nil xs) (Writes->>= xs [] p Writes-nil)

  chosen :
      (f n : ℕ) (l : List ℕ) (t : Tdf)
      → n < 256
      → n ≢ 127
      → Writes (named big f l (packed t)) (header_bytes big l (type_of t) ++ bytes big t)
      → Writes (value f (choice n l t)) (bytes big (choice n l t))
  unfolding write_value each_member
  chosen f n l t small ne w =
      let xs = header_bytes big l (type_of t) ++ bytes big t in
      let word : ltb n u32_mod ≡ true = ground arith in
      let byte : n % 256 ≡ n = omega arith in
      let test : (n == 127) ≡ false = ground arith in
      rw (word, byte, test) (Writes->>= (n ∷ []) xs (Writes-u8 n small) (only_one xs w))

  one_field :
      (f : ℕ) (l : List ℕ) (t : Tdf) (fs : Fields)
      → Writes (named big f l (packed t)) (header_bytes big l (type_of t) ++ bytes big t)
      → Writes (each_member (named big f) (packed_fields fs)) (fields_bytes big fs)
      → Writes
          (each_member (named big f) (packed_fields (entry l t fs)))
          (fields_bytes big (entry l t fs))
  unfolding each_member
  one_field f l t fs v w =
      Writes->>= (header_bytes big l (type_of t) ++ bytes big t) (fields_bytes big fs) v w

  no_field : (f : ℕ) → Writes (each_member (named big f) end) []
  unfolding each_member
  no_field f = Writes-nil

  no_item : (f : ℕ) → Writes (first_items (unnamed big f struct) 0 nil) []
  unfolding first_items
  no_item f = Writes-nil

  size_fields-pos : (fs : Fields) → 0 < size_fields fs
  size_fields-pos last = omega arith
  size_fields-pos (entry l t fs) = omega arith

  mutual
    value-Writes : (t : Tdf) (f : ℕ) → size t < f → IsEncodable t → Writes (value f t) (bytes big t)
    value-Writes t zero h ok = absurd (omega arith)
    value-Writes (num v) (suc f) h ok = Cases.value-num big (suc f) v ok
    value-Writes (str s) (suc f) h ok = Cases.value-str big (suc f) s ok
    value-Writes (blob s) (suc f) h ok = Cases.value-blob big (suc f) s ok
    value-Writes (structure fs) (suc f) h ok =
        struct_value (suc f) fs (fields-Writes fs (suc f) (omega arith) ok.0)
    value-Writes unset (suc f) h ok = Cases.value-unset big (suc f)
    value-Writes (choice n l t) (suc zero) h ok = absurd (omega arith)
    value-Writes (choice n l t) (suc (suc f)) h (small, ne, name, ok) =
        chosen (suc (suc f)) n l t small ne
          (Writes-named big l t f (bytes big t) name (value-Writes t f (omega arith) ok))
    value-Writes (integers xs) (suc f) h ok = Cases.value-integers big (suc f) xs ok.0 ok.1
    value-Writes (pair x y) (suc f) h ok = Cases.value-pair big (suc f) x y ok.0 ok.1
    value-Writes (triple x y z) (suc f) h ok = Cases.value-triple big (suc f) x y z ok.0 ok.1 ok.2
    value-Writes (number_items xs) (suc f) h ok = Cases.value-number_items big f xs ok.0 ok.1
    value-Writes (text_items ss) (suc f) h ok = Cases.value-text_items big f ss ok.0 ok.1
    value-Writes (struct_items ss) (suc f) h ok =
        struct_list (suc f) ss ok.1 (structs-Writes ss (suc f) (omega arith) ok.2)
    value-Writes (text_map es) (suc f) h ok = Cases.value-text_map big f es ok.0 ok.1

    fields-Writes :
        (fs : Fields) (f : ℕ)
        → size_fields fs ≤ f
        → EachEncodable fs
        → Writes (each_member (named big f) (packed_fields fs)) (fields_bytes big fs)
    fields-Writes last f h ok = no_field f
    fields-Writes (entry l t fs) zero h ok = absurd (omega arith)
    fields-Writes (entry l t fs) (suc zero) h ok = absurd (omega arith)
    fields-Writes (entry l t fs) (suc (suc f)) h (name, ok, rest) =
        one_field (suc (suc f)) l t fs
          (Writes-named big l t f (bytes big t) name
            (value-Writes t f (omega (arith, size_fields-pos fs)) ok))
          (fields-Writes fs (suc (suc f)) (omega arith) rest)

    structs-Writes :
        (ss : Structs) (f : ℕ)
        → size_structs ss ≤ f
        → AllStructs ss
        → Writes
            (first_items (unnamed big f struct) (count_structs ss) (packed_structs ss))
            (structs_bytes big ss)
    structs-Writes no_more f h ok = no_item f
    structs-Writes (more fs ss) zero h ok = absurd (omega arith)
    structs-Writes (more fs ss) (suc f) h (ok, fresh, rest) =
        struct_item f fs ss (struct_value f fs (fields-Writes fs f (omega arith) ok))
          (structs-Writes ss (suc f) (omega arith) rest)

  pub document-Writes :
      (fs : Fields) (f : ℕ)
      → size_fields fs ≤ f
      → EachEncodable fs
      → Writes (write_document standard big f (object (packed_fields fs))) (fields_bytes big fs)
  unfolding write_document
  document-Writes fs f h ok = fields-Writes fs f h ok
