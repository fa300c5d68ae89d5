-- ===== src/Creature/StatTexts.antt =====
-- The stats of a creature as a text: `name,max,current;` for each (SporeNet/Creature.cpp).
pub mod RoundTrip
use recap_server.Prelude.{
  ℕ, zero, suc, ◌+◌, ◌<◌, ◌≤◌, ◌≡◌, ◌≢◌, refl, ap, sym, ◌∙◌, List, [], ◌∷◌, ◌++◌, Option, none,
  some, ◌>>=◌, arith, append_assoc, append-nil, ltb, if◌then◌else◌, length,
}
use recap_server.Prelude.Bytes.{u32_mod, u64_mod}
use recap_server.Utils.Explode.{explode_string, explode_string-join, join, Avoids, AllAvoid}
use recap_server.Utils.Numbers.{to_number, to_string}
use recap_server.Utils.Xml.{Text}

pub record Stats : Type 0 where
  pub stat_name : Text
  pub max_value : ℕ
  pub current_value : ℕ

-- The first three pieces of a stat, where there are three.
unfoldable pub stat_of : List Text → Option Stats
unfolding to_number
stat_of [] = none
stat_of (a ∷ []) = none
stat_of (a ∷ b ∷ []) = none
stat_of (a ∷ b ∷ c ∷ rest) =
    some (record {
      stat_name = a;
      max_value = to_number u32_mod b;
      current_value = to_number u32_mod c;
    })

-- A stat that is there goes to the end.
unfoldable pub add_stat : Option Stats → List Stats → List Stats
add_stat none stats = stats
add_stat (some s) stats = stats ++ s ∷ []

-- The loop of Creature::Update: empty pieces and those of fewer than three parts are skipped.
unfoldable pub parse_each : List Stats → List Text → List Stats
unfolding stat_of add_stat explode_string
parse_each stats [] = stats
parse_each stats ([] ∷ pieces) = parse_each stats pieces
parse_each stats ((c ∷ cs) ∷ pieces) =
    parse_each (add_stat (stat_of (explode_string b',' (c ∷ cs))) stats) pieces

unfoldable pub parse_stats : Text → List Stats
unfolding parse_each explode_string
parse_stats text = parse_each [] (explode_string b';' text)

-- The last loop of TemplateCreature::Read and ReadJson, which does not ask for the number of parts:
-- an index past the end of the parts is `none`.
unfoldable pub load_each : List Stats → List Text → Option (List Stats)
unfolding stat_of explode_string
load_each stats [] = some stats
load_each stats ([] ∷ pieces) = load_each stats pieces
load_each stats ((c ∷ cs) ∷ pieces) =
    stat_of (explode_string b',' (c ∷ cs)) >>= λ s. load_each (stats ++ s ∷ []) pieces

unfoldable pub load_stats : Text → Option (List Stats)
unfolding load_each explode_string
load_stats text = load_each [] (explode_string b';' text)

-- A stat without the semicolon.
unfoldable pub print_stat : Stats → Text
unfolding to_string
print_stat s = s.stat_name ++ b',' ∷ (to_string s.max_value ++ b',' ∷ to_string s.current_value)

unfoldable pub print_stats : List Stats → Text
unfolding print_stat
print_stats [] = []
print_stats (s ∷ stats) = print_stat s ++ b';' ∷ print_stats stats
