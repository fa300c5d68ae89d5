-- ===== src/Uri.antt =====
-- HTTP::URI (HTTP/URI.cpp): a decoded path taken apart into its parts and its query.
pub mod Escapes
pub mod Query
use recap_server.Prelude.{
  ℕ, zero, suc, ◌+◌, ◌-◌, ◌*◌, ◌%◌, ◌^◌, Bool, true, false, ◌||◌, ◌&&◌, List, [], ◌∷◌, ◌++◌, Option,
  none, some, ◌==◌, ltb, leb, if◌then◌else◌, drop, length, ◌>>=◌,
}
use recap_server.Utils.Explode.{explode_string}
use recap_server.Utils.Hash.{codes}
use recap_server.Utils.Numbers.{is_space}
use recap_server.Utils.Strings.{same, find_char, find_from, rfind_char, find_text, substr}
use recap_server.Utils.Xml.{Text}

-- The query holds each name once; the order in which std::map goes through it is left out.
pub record Uri : Type 0 where
  pub query : List (Text × Text)
  pub protocol : Text
  pub domain : Text
  pub resource : Text
  pub fragment : Text
  pub port : ℕ

unfoldable pub new : Uri
new = record { query = []; protocol = []; domain = []; resource = []; fragment = []; port = 0 }

-- A digit of base 16, or 16 for another character.
unfoldable pub hex_digit : ℕ → ℕ
hex_digit c =
    if leb b'0' c && leb c b'9'
    then c - b'0'
    else if leb b'a' c && leb c b'f'
    then c - b'a' + 10
    else if leb b'A' c && leb c b'F'
    then c - b'A' + 10
    else 16

-- A character that is no digit counts as nothing.
digit_or_zero : ℕ → ℕ
unfolding hex_digit
digit_or_zero c = if ltb (hex_digit c) 16 then hex_digit c else 0

-- `to_number<char>` of two characters in base 16: the digits up to the first other character, after
-- a space or a sign, as a byte.
unfoldable pub to_byte : ℕ → ℕ → ℕ
unfolding hex_digit digit_or_zero is_space
to_byte a b =
    if ltb (hex_digit a) 16
    then if ltb (hex_digit b) 16 then hex_digit a * 16 + hex_digit b else hex_digit a
    else if a == b'-'
    then (256 - digit_or_zero b) % 256
    else if a == b'+' || is_space a
    then digit_or_zero b
    else 0

-- A character that is not followed by two: a percent sign is dropped.
plain : ℕ → Text
plain c = if c == b'%' then [] else if c == b'+' then b' ' ∷ [] else c ∷ []

unfoldable pub decode : Text → Text
unfolding plain to_byte
decode [] = []
decode (c ∷ []) = plain c
decode (c ∷ a ∷ []) = plain c ++ decode (a ∷ [])
decode (c ∷ a ∷ b ∷ rest) = elim (c == b'%') [
  | true ↦ to_byte a b ∷ decode rest
  | false ↦ plain c ++ decode (a ∷ b ∷ rest)
]

-- `mQuery.find`.
unfoldable pub find : List (Text × Text) → Text → Option Text
find [] name = none
find ((k, v) ∷ rest) name = if same k name then some v else find rest name

-- The value of a name, which is empty where there is none.
unfoldable pub value_or_empty : Option Text → Text
value_or_empty none = []
value_or_empty (some v) = v

unfoldable pub parameter : Uri → Text → Text
unfolding find value_or_empty
parameter u name = value_or_empty (find u.query name)

-- `emplace` and `try_emplace`: a name that is there keeps its value.
unfoldable pub emplace : List (Text × Text) → Text → Text → List (Text × Text)
emplace [] name value = (name, value) ∷ []
emplace ((k, v) ∷ rest) name value =
    if same k name then (k, v) ∷ rest else (k, v) ∷ emplace rest name value

-- A name that is there gets the value.
unfoldable pub put : List (Text × Text) → Text → Text → List (Text × Text)
put [] name value = (name, value) ∷ []
put ((k, v) ∷ rest) name value =
    if same k name then (k, value) ∷ rest else (k, v) ∷ put rest name value

unfoldable pub set_parameter : Uri → Text → Text → Uri
unfolding put
set_parameter u name value = record u { query = put u.query name value }

-- A variable of a query: what is before the first equals sign, and what is behind it.
unfoldable pub split : Text → Text × Text
unfolding find_char
split variable = elim (find_char b'=' variable) [
  | none ↦ (variable, [])
  | some i ↦ (substr variable 0 i, drop (i + 1) variable)
]

unfoldable pub add_variables : List (Text × Text) → List Text → List (Text × Text)
unfolding split emplace
add_variables query [] = query
add_variables query (variable ∷ rest) =
    let (name, value) = split variable in add_variables (emplace query name value) rest

unfoldable pub parse_query : Uri → Text → Uri
unfolding add_variables explode_string
parse_query u text = record u { query = add_variables u.query (explode_string b'&' text) }

-- The end of the scheme, with the protocol.
unfoldable pub parse_scheme : Uri → Text → Uri × ℕ
unfolding find_text
parse_scheme u path = elim (find_text (codes "://") path) [
  | some i ↦ (record u { protocol = substr path 0 i }, i + 3)
  | none ↦ (record u { protocol = codes "http" }, 0)
]

default_port : Uri → ℕ
default_port u =
    if same u.protocol (codes "https") || same u.protocol (codes "wss") then 443 else 80

-- `std::from_chars` of a `uint16_t`: the leading digits, of which there is one, if they fit.
leading : ℕ → Text → ℕ
leading n [] = n
leading n (c ∷ cs) =
    let rest = leading (n * 10 + (c - b'0')) cs in if leb b'0' c && leb c b'9' then rest else n

from_chars : Text → Option ℕ
unfolding leading
from_chars [] = none
from_chars (c ∷ cs) =
    let n = leading 0 (c ∷ cs) in
    if leb b'0' c && leb c b'9' then if ltb n (2 ^ 16) then some n else none else none

-- A port that is not a number leaves the default.
with_port : Uri → Text → Uri
unfolding from_chars default_port
with_port u text = elim (from_chars text) [
  | some n ↦ record u { port = n }
  | none ↦ record u { port = default_port u }
]

-- The domain and the port before the first slash.
authority : Uri → Text → ℕ → ℕ → Uri
unfolding with_port default_port rfind_char
authority u path offset position =
    let whole = record u {
      port = default_port u;
      domain = substr path offset (position - offset);
    } in
    elim (rfind_char b':' path position) [
      | some i ↦
          if ltb offset i
          then record (with_port u (substr path (i + 1) (position - i - 1))) {
            domain = substr path offset (i - offset);
          }
          else whole
      | none ↦ whole
    ]

-- The end of the authority, which is its begin where there is no slash.
unfoldable pub parse_authority : Uri → Text → ℕ → Uri × ℕ
unfolding authority find_from default_port
parse_authority u path offset = elim (find_from b'/' path offset) [
  | some position ↦ (authority u path offset position, position)
  | none ↦ (record u { port = default_port u; domain = drop offset path }, offset)
]

-- The query up to the fragment.
query_part : Uri → Text → ℕ → Uri
unfolding find_from parse_query
query_part u path position = elim (find_from b'#' path position) [
  | some f ↦ record (parse_query u (substr path (position + 1) (f - position - 1))) {
    fragment = drop (f + 1) path;
  }
  | none ↦ parse_query u (drop (position + 1) path)
]

-- Without a query the fragment keeps its number sign.
no_query : Uri → Text → ℕ → Uri
unfolding find_from
no_query u path offset = elim (find_from b'#' path offset) [
  | some f ↦ record u { fragment = drop f path; resource = substr path offset (f - offset) }
  | none ↦ record u { resource = drop offset path }
]

unfoldable pub parse_path : Uri → Text → ℕ → Uri
unfolding query_part no_query find_from
parse_path u path offset = elim (find_from b'?' path offset) [
  | some position ↦ record (query_part u path position) {
    resource = substr path offset (position - offset);
  }
  | none ↦ no_query u path offset
]

-- The whole text is decoded first.
parse_parts : Uri → Text → Uri
unfolding parse_scheme parse_authority parse_path
parse_parts u path =
    let (schemed, scheme_end) = parse_scheme u path in
    let (placed, authority_end) = parse_authority schemed path scheme_end in
    if ltb (authority_end + 1) (length path) then parse_path placed path authority_end else placed

unfoldable pub parse : Uri → Text → Uri
unfolding parse_parts decode
parse u path = parse_parts u (decode path)
