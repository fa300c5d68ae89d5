-- ===== src/Utils/CText.antt =====
-- A std::string as the C string that `c_str` gives.
use recap_server.Prelude.{ℕ, List, [], ◌∷◌, ◌==◌, true, false}

-- It ends before its first zero.
unfoldable pub c_string : List ℕ → List ℕ
c_string [] = []
c_string (c ∷ cs) = elim (c == 0) [ true ↦ [] | false ↦ c ∷ c_string cs ]
