-- ===== src/Tests/TdfTrees.antt =====
-- Packets and parsers at small trees.
use recap_server.Prelude.{
  ◌≡◌, ◌<◌, refl, false, true, [], ◌∷◌, Option, some, none, arith, length, ◌>>=◌,
}
use recap_server.Prelude.Bytes.{u64_mod}
use recap_server.DataBuffer.{DataBuffer, empty, impl_write}
use recap_server.DataBuffer.Writes.{Wrote}
use recap_server.DataBuffer.Varint.{write_u8}
use recap_server.DataBuffer.Varint.Septets.{tdf_bytes}
use recap_server.DataBuffer.Endian.{native_bytes}
use recap_server.Tdf.Labels.{compress_label}
use recap_server.Utils.Hash.{codes}
use recap_server.Json.{
  standard, standard-IsRapidjson, Json, object, end, member, number, text, array, cons, nil,
  boolean,
}
use recap_server.Tdf.Codec.{string, binary, struct}
use recap_server.Tdf.Keys.{key_type, key_list_type, key_list_size, key_stub, key_content}
use recap_server.Tdf.Packet.{Packet, new, put, put_integer, push_struct, push_list, pop, document}
use recap_server.Tdf.Packet.Write.{write_document, write_type, stoull}
use recap_server.Tdf.Packet.Writes.{Ready}
use recap_server.Tdf.Packet.Calls.{describe, describe_fields, describe-put}
use recap_server.Tdf.Parser.{read}
use recap_server.Tdf.Tree.{
  num, str, blob, structure, choice, integers, triple, struct_items, Fields, last, entry, no_more,
  more, packed, parsed_fields,
}
use recap_server.Tdf.Tree.Wire.{fields_bytes, EachEncodable, Fresh}
use recap_server.Tdf.Tree.RoundTrip.{
  write_document-describe_fields, read-write_document, write_type-zero,
}

-- A name, a level, an address, and a list of one struct.
abbrev user : Fields
user = entry (codes "NAME") (str (codes "ada")) (
    entry (codes "LVL") (num 300) (
      entry (codes "ADDR")
        (choice 2 (codes "VALU") (structure (entry (codes "PORT") (num 80) last)))
        (entry (codes "LIST") (struct_items (more (entry (codes "ID") (triple 1 2 3) last) no_more))
          last)))

user-Fresh : Fresh end user
user-Fresh = (refl, (refl, (refl, (refl, tt))))

user-EachEncodable : EachEncodable user
user-EachEncodable = (
  omega arith,
  omega arith,
  (
    omega arith,
    omega arith,
    (
      omega arith,
      (omega arith, omega arith, omega arith, (omega arith, (refl, tt))),
      (omega arith, (omega arith, omega arith, (omega arith, (refl, tt), tt)), tt),
    ),
  ),
)

ready : Ready empty (length (fields_bytes false user))
unfolding empty tdf_bytes native_bytes compress_label
ready = record { inside = omega arith; used = omega arith; fits = omega arith }

write_document-describe_fields_example :
    (b' : DataBuffer) × (write_document standard false 20
        (document standard (describe_fields standard user new))
        empty
      ≡ some b')
    × Wrote empty (fields_bytes false user) b'
write_document-describe_fields_example =
    write_document-describe_fields standard standard-IsRapidjson false user 20 empty (omega arith)
      user-EachEncodable ready

read-write_document_example :
    (b' : DataBuffer) × (write_document standard false 20
        (document standard (describe_fields standard user new))
        empty
      ≡ some b')
    × (length b'.buffer < u64_mod
        → read standard false 20 (record b' { position = empty.position })
          ≡ some (object (parsed_fields user), b'))
unfolding empty
read-write_document_example =
    read-write_document standard standard-IsRapidjson user 20 empty (omega arith) user-EachEncodable
      user-Fresh refl ready

describe-put_example :
    describe standard (integers (3 ∷ 4 ∷ [])) (codes "NUMS") new
    ≡ put standard (codes "NUMS") (packed (integers (3 ∷ 4 ∷ []))) new
describe-put_example =
    describe-put standard standard-IsRapidjson (integers (3 ∷ 4 ∷ [])) (codes "NUMS") new
      (omega arith)

write_type-zero_example :
    (write_type standard false 1 binary none (packed (blob (7 ∷ 0 ∷ 8 ∷ []))) empty
      ≡ write_type standard false 1 binary none (packed (blob (7 ∷ []))) empty)
    × (write_type standard false 1 string none (text (7 ∷ 0 ∷ 8 ∷ [])) empty
        ≡ write_type standard false 1 string none (text (7 ∷ [])) empty)
write_type-zero_example =
    write_type-zero standard standard-IsRapidjson false 1 none (7 ∷ []) (8 ∷ []) empty
      (omega arith, tt)

-- What a parser makes of the document of a packet.
abbrev carried : Packet → Option Json
carried p = write_document standard false 20 (document standard p) empty >>= λ b.
    read standard false 20 (record b { position = 0 }) >>= λ r. some r.0

read_back : carried (describe_fields standard user new) ≡ some (object (parsed_fields user))
unfolding empty write_document read describe document new impl_write write_u8
read_back = refl

-- A list of structs that is marked as a stub, with one struct in it: its field is read as an item.
abbrev stub_list : Packet
stub_list = pop standard (
    pop standard (
      put_integer standard (codes "ID") 5
        (push_struct standard [] (push_list standard (codes "LIST") struct true new))))

stub_lost :
    carried stub_list
    ≡ some (
        object (
          member
            (codes "LIST")
            (object (
              member key_type (number 4) (
                member key_list_type (number 3) (
                  member key_list_size (number 1) (
                    member key_stub
                      (boolean true)
                      (member key_content (array (cons (number 5) nil)) end))))))
            end))
unfolding empty write_document read put_integer push_struct push_list pop document new impl_write
    write_u8
stub_lost = refl

hexadecimal : stoull (codes "0x1F") ≡ some 31
unfolding stoull
hexadecimal = refl

octal : stoull (codes " 017") ≡ some 15
unfolding stoull
octal = refl
