-- ===== src/Tdf/Tree/RoundTrip.antt =====
-- A tree from the calls on a Packet over the wire to the document of a Parser.
use recap_server.Prelude.{
  ℕ, zero, suc, ◌+◌, ◌≤◌, ◌<◌, ◌≡◌, refl, sym, ap, subst, ◌∙◌, List, [], ◌∷◌, ◌++◌, some, Option,
  arith, length, ◌>>=◌, Bool, true, false, leb, drop, length-append,
}
use recap_server.Prelude.Bytes.{u64_mod}
use recap_server.DataBuffer.{DataBuffer, eof}
use recap_server.DataBuffer.Writes.{Wrote}
use recap_server.DataBuffer.Reads.{advance, Wrote-Unread}
use recap_server.Utils.CText.{c_string}
use recap_server.Json.{
  Rapidjson, IsRapidjson, IsRapidjson-standard, standard, Json, object, Members, end, append_member,
  append_members, append_member-members, append_members-end, text,
}
use recap_server.Tdf.Codec.{binary, string}
use recap_server.Tdf.Packet.{new, document}
use recap_server.Tdf.Packet.Write.{write_document, write_type}
use recap_server.Tdf.Packet.Writes.{Ready}
use recap_server.Tdf.Packet.Calls.{describe_fields, document-describe}
use recap_server.Tdf.Packet.Refines.{document-Writes}
use recap_server.Tdf.Parser.{read, read_all, read_value}
use recap_server.Tdf.Parser.Reads.{Next, Next-append, advance-append}
use recap_server.Tdf.Parser.Parses.{value-Reads, bytes-pos, size_fields-pos}
use recap_server.Tdf.Tree.{Fields, last, entry, type_of, packed, parsed, parsed_fields, blob}
use recap_server.Tdf.Tree.Wire.{
  header_bytes, bytes, fields_bytes, EachEncodable, Fresh, size_fields, NoZero,
}

all_more :
    (f : ℕ) (ms ms' : Members) (b c : DataBuffer) {r : Option (Json × DataBuffer)}
    → b.position < b.size
    → read_value standard false f (object ms) b ≡ some (object ms', c)
    → read_all standard false f (object ms') c ≡ r
    → read_all standard false (suc f) (object ms) b ≡ r
unfolding read_all eof
all_more f ms ms' b c more run rest =
    let t : leb b.size b.position ≡ false = ground arith in rw (t, run, ◌>>=◌) rest

all_done :
    (f : ℕ) (parent : Json) (b : DataBuffer)
    → b.size ≤ b.position
    → read_all standard false (suc f) parent b ≡ some (parent, advance b 0)
unfolding read_all eof
all_done f parent b over =
    let t : leb b.size b.position ≡ true = ground arith in rw t (ground arith)

all-Reads :
    (fs : Fields) (f : ℕ) (ms : Members) (b : DataBuffer) (rest : List ℕ)
    → size_fields fs ≤ f
    → EachEncodable fs
    → Fresh ms fs
    → Next b (fields_bytes false fs) rest
    → b.position + length (fields_bytes false fs) ≡ b.size
    → read_all standard false f (object ms) b
      ≡ some (
        object (append_members ms (parsed_fields fs)),
        advance b (length (fields_bytes false fs)),
      )
all-Reads last zero ms b rest h ok fresh n e = absurd (omega arith)
all-Reads last (suc f) ms b rest h ok fresh n e =
    all_done f (object ms) b (omega (arith, e))
    ∙ ap (λ t. some (object t, advance b 0)) (sym (append_members-end ms))
all-Reads (entry l t fs) zero ms b rest h ok fresh n e = absurd (omega arith)
all-Reads (entry l t fs) (suc f) ms b rest h (name, ok, others) (new_name, fresh) n e =
    let xs = header_bytes false l (type_of t) ++ bytes false t in
    let ys = fields_bytes false fs in
    let sum = length-append xs ys in
    let pos : 0 < length xs =
      omega
        (arith, length-append (header_bytes false l (type_of t)) (bytes false t), bytes-pos t) in
    let (first, second) = Next-append xs ys rest n in
    all_more f ms (append_member ms l (parsed t)) b (advance b (length xs))
      (omega (arith, e, sum, pos))
      (value-Reads l t f ms (omega (arith, size_fields-pos fs)) name ok new_name b (ys ++ rest)
        first)
      (all-Reads fs f (append_member ms l (parsed t)) (advance b (length xs)) rest (omega arith)
          others fresh second (omega (arith, e, sum))
        ∙ λ i. some (
          object (append_member-members ms l (parsed t) (parsed_fields fs) i),
          advance-append b xs ys i,
        ))

c_string-zero : (s rest : List ℕ) → NoZero s → c_string (s ++ (0 ∷ rest)) ≡ c_string s
unfolding c_string
c_string-zero [] rest h = refl
c_string-zero (c ∷ cs) rest h = ground (arith, c_string-zero cs rest h.1)

-- The document of the calls on a new packet, on the wire.
standard-Wrote :
    (big : Bool) (fs : Fields) (f : ℕ) (b : DataBuffer)
    → size_fields fs ≤ f
    → EachEncodable fs
    → Ready b (length (fields_bytes big fs))
    → (b' : DataBuffer) × (write_document standard big f
          (document standard (describe_fields standard fs new))
          b
        ≡ some b')
      × Wrote b (fields_bytes big fs) b'
standard-Wrote big fs f b enough ok ready =
    let (b', run, w) = document-Writes big fs f enough ok b ready in
    (b', ap (λ d. write_document standard big f d b) (document-describe fs ok) ∙ run, w)

-- It is read back.
standard-read :
    (fs : Fields) (f : ℕ) (b b' : DataBuffer)
    → size_fields fs ≤ f
    → EachEncodable fs
    → Fresh end fs
    → b.position ≡ b.size
    → b.position ≤ length b.buffer
    → Wrote b (fields_bytes false fs) b'
    → length b'.buffer < u64_mod
    → read standard false f (record b' { position = b.position })
      ≡ some (object (parsed_fields fs), b')
unfolding read
standard-read fs f b b' enough ok fresh atend inside w small =
    all-Reads fs f end (record b' { position = b.position }) (drop b'.position b'.buffer) enough ok
      fresh
      (record {
        unread = Wrote-Unread (fields_bytes false fs) inside small w;
        used = omega (arith, w.cursor, w.extent);
      })
      (omega (arith, w.cursor, w.extent, atend))
    ∙ ap (λ k. some (object (parsed_fields fs), record b' { position = k })) (sym w.cursor)

standard-zero :
    (big : Bool) (f : ℕ) (name : Option (List ℕ)) (s rest : List ℕ) (b : DataBuffer)
    → NoZero s
    → (write_type standard big f binary name (packed (blob (s ++ (0 ∷ rest)))) b
        ≡ write_type standard big f binary name (packed (blob s)) b)
      × (write_type standard big f string name (text (s ++ (0 ∷ rest))) b
          ≡ write_type standard big f string name (text s) b)
unfolding write_type
standard-zero big zero name s rest b clean = (refl, refl)
standard-zero big (suc f) name s rest b clean =
    (rw (c_string-zero s rest clean) refl, rw (c_string-zero s rest clean) refl)

module _ (json : Rapidjson) (lib : IsRapidjson json) where
  -- Over a JSON library that behaves as documented, Packet::Write of the document that the calls for
  -- encodable fields build on a new Packet, with fuel of at least the size of the fields and at a
  -- cursor in the bytes in use, 32 bytes and the bytes of the fields below 2 ^ 64, returns on a host
  -- of either byte order and has written the headers and values of the fields in their order.
  pub write_document-describe_fields :
      (big : Bool) (fs : Fields) (f : ℕ) (b : DataBuffer)
      → size_fields fs ≤ f
      → EachEncodable fs
      → Ready b (length (fields_bytes big fs))
      → (b' : DataBuffer) × (write_document json big f
            (document json (describe_fields json fs new))
            b
          ≡ some b')
        × Wrote b (fields_bytes big fs) b'
  write_document-describe_fields big fs f b enough ok ready =
      subst
        (λ j.
          (b' : DataBuffer) × (write_document j big f (document j (describe_fields j fs new)) b
            ≡ some b')
          × Wrote b (fields_bytes big fs) b')
        (IsRapidjson-standard lib) (standard-Wrote big fs f b enough ok ready)

  -- Over a JSON library that behaves as documented and on a little-endian host, for encodable fields
  -- whose labels differ, at the end of a buffer in use with 32 bytes and the bytes of the fields
  -- below 2 ^ 64: Packet::Write of the document that the calls for the fields build on a new Packet
  -- returns, and where the vector is then shorter than 2 ^ 64, Parser::Read from the place where the
  -- write began gives the document that the fields describe and ends where the write ended. Fuel of
  -- the size of the fields is enough for both.
  pub read-write_document :
      (fs : Fields) (f : ℕ) (b : DataBuffer)
      → size_fields fs ≤ f
      → EachEncodable fs
      → Fresh end fs
      → b.position ≡ b.size
      → Ready b (length (fields_bytes false fs))
      → (b' : DataBuffer) × (write_document json false f
            (document json (describe_fields json fs new))
            b
          ≡ some b')
        × (length b'.buffer < u64_mod
            → read json false f (record b' { position = b.position })
              ≡ some (object (parsed_fields fs), b'))
  read-write_document fs f b enough ok fresh atend ready =
      let (b', run, w) = write_document-describe_fields false fs f b enough ok ready in
      (
        b',
        run,
        λ small.
            subst
              (λ j.
                read j false f (record b' { position = b.position })
                ≡ some (object (parsed_fields fs), b'))
              (IsRapidjson-standard lib)
              (standard-read fs f b b' enough ok fresh atend ready.inside w small),
      )

  -- A blob or a text with a zero byte in it is written as if it ended before the first zero byte.
  pub write_type-zero :
      (big : Bool) (f : ℕ) (name : Option (List ℕ)) (s rest : List ℕ) (b : DataBuffer)
      → NoZero s
      → (write_type json big f binary name (packed (blob (s ++ (0 ∷ rest)))) b
          ≡ write_type json big f binary name (packed (blob s)) b)
        × (write_type json big f string name (text (s ++ (0 ∷ rest))) b
            ≡ write_type json big f string name (text s) b)
  write_type-zero big f name s rest b clean =
      subst
        (λ j.
          (write_type j big f binary name (packed (blob (s ++ (0 ∷ rest)))) b
            ≡ write_type j big f binary name (packed (blob s)) b)
          × (write_type j big f string name (text (s ++ (0 ∷ rest))) b
              ≡ write_type j big f string name (text s) b))
        (IsRapidjson-standard lib) (standard-zero big f name s rest b clean)
