-- ===== src/Tdf/Keys.antt =====
-- The names of the members by which TDF.cpp describes a value in a document.
use recap_server.Prelude.{ℕ, List}
use recap_server.Utils.Hash.{codes}

abbrev pub key_type : List ℕ
key_type = codes "_Type"

abbrev pub key_content : List ℕ
key_content = codes "_Content"

abbrev pub key_list_type : List ℕ
key_list_type = codes "_ListType"

abbrev pub key_list_size : List ℕ
key_list_size = codes "_ListSize"

abbrev pub key_stub : List ℕ
key_stub = codes "_Stub"

abbrev pub key_key_type : List ℕ
key_key_type = codes "_KeyType"

abbrev pub key_value_type : List ℕ
key_value_type = codes "_ValueType"

abbrev pub key_map_size : List ℕ
key_map_size = codes "_MapSize"

abbrev pub key_address_member : List ℕ
key_address_member = codes "_AddressMember"

abbrev pub key_x : List ℕ
key_x = codes "_X"

abbrev pub key_y : List ℕ
key_y = codes "_Y"

abbrev pub key_z : List ℕ
key_z = codes "_Z"
