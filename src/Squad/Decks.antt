-- ===== src/Squad/Decks.antt =====
-- SporeNet::Squads (SporeNet/Squad.cpp): at most three squads in a vector, under the name "decks".
use recap_server.Prelude.{
  ℕ, zero, suc, Bool, true, false, List, [], ◌∷◌, ◌++◌, Option, none, some, leb, if◌then◌else◌,
  length,
}
use recap_server.Utils.Xml.{Xml, Numbered, child}
use recap_server.Squad.{Squad, new, read, write}

module _ (xml : Xml) (num : Numbered xml) where
  open xml use {Node, children, element, append_child}

  -- A child of another name leaves a new squad behind.
  read_each : List Squad → List Node → List Squad
  unfolding read new
  read_each squads [] = squads
  read_each squads (n ∷ nodes) = read_each (squads ++ (read xml num new n).0 ∷ []) nodes

  read_from : Option Node → List Squad → List Squad
  unfolding read_each
  read_from none squads = squads
  read_from (some n) squads = read_each squads (children n)

  unfoldable pub read_decks : List Squad → Node → List Squad
  unfolding read_from
  read_decks squads n = read_from (child xml n "decks") squads

  write_each : Node → List Squad → Node
  unfolding write
  write_each n [] = n
  write_each n (s ∷ squads) = write_each (write xml num n s) squads

  unfoldable pub write_decks : Node → List Squad → Node
  unfolding write_each
  write_decks n squads = append_child n (write_each (element "decks") squads)

-- Squads::Create, with whether there was a place.
unfoldable pub create : List Squad → List Squad × Bool
unfolding new
create squads = if leb 3 (length squads) then (squads, false) else (squads ++ new ∷ [], true)

unfoldable pub remove : List Squad → ℕ → List Squad
remove [] index = []
remove (s ∷ squads) zero = squads
remove (s ∷ squads) (suc index) = s ∷ remove squads index

unfoldable pub get : List Squad → ℕ → Option Squad
get [] index = none
get (s ∷ squads) zero = some s
get (s ∷ squads) (suc index) = get squads index
