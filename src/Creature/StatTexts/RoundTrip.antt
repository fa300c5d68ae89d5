-- ===== src/Creature/StatTexts/RoundTrip.antt =====
-- Stats that are printed and parsed again, and texts that are not well-formed.
use recap_server.Prelude.{
  ℕ, suc, ◌<◌, ◌≡◌, refl, ap, sym, ◌∙◌, List, [], ◌∷◌, ◌++◌, none, some, ◌>>=◌, arith, append_assoc,
  append-nil, leb, if◌then◌else◌, length, Bool, true, ◌&&◌, ◌⊎◌, inl, inr,
}
use recap_server.Prelude.Bytes.{u32_mod}
use recap_server.Utils.Explode.{explode_string, explode_string-join, join, Avoids, AllAvoid}
use recap_server.Utils.Numbers.{to_number, to_string}
use recap_server.Utils.Numbers.RoundTrip.{AreDigits, to_string-AreDigits, to_number-to_string}
use recap_server.Utils.Xml.{Text}
use recap_server.Creature.StatTexts.{
  Stats, stat_of, add_stat, parse_each, parse_stats, load_each, load_stats, print_stat, print_stats,
}

-- A name without a comma or a semicolon, and numbers of 32 bits.
pub record IsValid (s : Stats) : Type 0 where
  pub no_comma : Avoids b',' s.stat_name
  pub no_semicolon : Avoids b';' s.stat_name
  pub max_small : s.max_value < u32_mod
  pub current_small : s.current_value < u32_mod

abbrev pub AllValid : List Stats → Type 0
AllValid [] = Unit {0}
AllValid (s ∷ ss) = IsValid s × AllValid ss

Avoids-append : (d : ℕ) (v w : Text) → Avoids d v → Avoids d w → Avoids d (v ++ w)
Avoids-append d [] w h k = k
Avoids-append d (c ∷ v) w (ne, h) k = (ne, Avoids-append d v w h k)

AreDigits-Avoids : (d : ℕ) (w : Text) → d < 48 ⊎ 57 < d → AreDigits w → Avoids d w
AreDigits-Avoids d [] out h = tt
AreDigits-Avoids d (c ∷ w) out (range, h) = (ground (arith, out, range), AreDigits-Avoids d w out h)

to_string-Avoids : (d n : ℕ) → d < 48 ⊎ 57 < d → Avoids d (to_string n)
to_string-Avoids d n out = AreDigits-Avoids d (to_string n) out (to_string-AreDigits n)

print_stat-Avoids : (s : Stats) → IsValid s → Avoids b';' (print_stat s)
unfolding print_stat
print_stat-Avoids s v = Avoids-append b';' s.stat_name _ v.no_semicolon (
  omega arith,
  Avoids-append b';' (to_string s.max_value) _
      (to_string-Avoids b';' s.max_value (inr (omega arith)))
      (omega arith, to_string-Avoids b';' s.current_value (inr (omega arith))),
)

stat_of-print_stat : (s : Stats) → IsValid s → stat_of (explode_string b',' (print_stat s)) ≡ some s
unfolding print_stat stat_of
stat_of-print_stat s v =
    ap stat_of (
      explode_string-join b',' s.stat_name (to_string s.max_value ∷ to_string s.current_value ∷ [])
        v.no_comma
        (
          to_string-Avoids b',' s.max_value (inl (omega arith)),
          (to_string-Avoids b',' s.current_value (inl (omega arith)), tt),
        ))
    ∙ ap
        (λ a. some (record {
          stat_name = s.stat_name;
          max_value = a;
          current_value = to_number u32_mod (to_string s.current_value);
        }))
        (to_number-to_string u32_mod s.max_value v.max_small (omega arith))
    ∙ ap
        (λ b. some (record { stat_name = s.stat_name; max_value = s.max_value; current_value = b }))
        (to_number-to_string u32_mod s.current_value v.current_small (omega arith))

-- The pieces of a printed list: its stats and the empty text behind the last semicolon.
pieces : List Stats → List Text
pieces [] = [] ∷ []
pieces (s ∷ ss) = print_stat s ∷ pieces ss

print_stats-join :
    (s : Stats) (ss : List Stats) → print_stats (s ∷ ss) ≡ join b';' (print_stat s) (pieces ss)
unfolding print_stats pieces
print_stats-join s [] = refl
print_stats-join s (t ∷ ss) = ap (λ w. print_stat s ++ b';' ∷ w) (print_stats-join t ss)

pieces-AllAvoid : (ss : List Stats) → AllValid ss → AllAvoid b';' (pieces ss)
unfolding pieces
pieces-AllAvoid [] h = (tt, tt)
pieces-AllAvoid (s ∷ ss) (v, h) = (print_stat-Avoids s v, pieces-AllAvoid ss h)

explode-print_stats :
    (ss : List Stats) → AllValid ss → explode_string b';' (print_stats ss) ≡ pieces ss
unfolding pieces explode_string print_stats
explode-print_stats [] h = refl
explode-print_stats (s ∷ ss) (v, h) =
    ap (explode_string b';') (print_stats-join s ss)
    ∙ explode_string-join b';' (print_stat s) (pieces ss) (print_stat-Avoids s v)
        (pieces-AllAvoid ss h)

parse_each-piece :
    (name rest : Text) (stats : List Stats) (ps : List Text)
    → parse_each stats ((name ++ b',' ∷ rest) ∷ ps)
      ≡ parse_each (add_stat (stat_of (explode_string b',' (name ++ b',' ∷ rest))) stats) ps
unfolding parse_each
parse_each-piece [] rest stats ps = refl
parse_each-piece (c ∷ cs) rest stats ps = refl

parse_each-pieces :
    (ss stats : List Stats) → AllValid ss → parse_each stats (pieces ss) ≡ stats ++ ss
unfolding pieces add_stat print_stat parse_each
parse_each-pieces [] stats h = sym (append-nil stats)
parse_each-pieces (s ∷ ss) stats (v, h) =
    parse_each-piece s.stat_name _ stats (pieces ss)
    ∙ ap (λ o. parse_each (add_stat o stats) (pieces ss)) (stat_of-print_stat s v)
    ∙ parse_each-pieces ss (stats ++ s ∷ []) h
    ∙ append_assoc stats (s ∷ []) ss

-- Stats whose names have no comma and no semicolon and whose numbers have 32 bits are read back by
-- Creature::Update as TemplateCreature::WriteApi prints them.
pub parse_stats-print_stats : (ss : List Stats) → AllValid ss → parse_stats (print_stats ss) ≡ ss
unfolding parse_stats
parse_stats-print_stats ss h =
    ap (parse_each []) (explode-print_stats ss h) ∙ parse_each-pieces ss [] h

-- Every piece is empty or has three parts.
abbrev pub all_complete : List Text → Bool
all_complete [] = true
all_complete ([] ∷ ps) = all_complete ps
all_complete ((c ∷ cs) ∷ ps) = leb 3 (length (explode_string b',' (c ∷ cs))) && all_complete ps

load_each-parts :
    (parts ps : List Text) (stats : List Stats)
    → ((later : List Stats)
        → load_each later ps ≡ (if all_complete ps then some (parse_each later ps) else none))
    → (stat_of parts >>= λ s. load_each (stats ++ s ∷ []) ps) ≡ (
        if leb 3 (length parts) && all_complete ps
        then some (parse_each (add_stat (stat_of parts) stats) ps)
        else none)
unfolding stat_of add_stat to_number
load_each-parts [] ps stats rest = refl
load_each-parts (a ∷ []) ps stats rest = refl
load_each-parts (a ∷ b ∷ []) ps stats rest = refl
load_each-parts (a ∷ b ∷ c ∷ parts) ps stats rest =
    let enough : leb 3 (suc (suc (suc (length parts)))) ≡ true = ground arith in rw enough (rest _)

load_each-parse_each :
    (ps : List Text) (stats : List Stats)
    → load_each stats ps ≡ (if all_complete ps then some (parse_each stats ps) else none)
unfolding load_each parse_each
load_each-parse_each [] stats = refl
load_each-parse_each ([] ∷ ps) stats = load_each-parse_each ps stats
load_each-parse_each ((c ∷ cs) ∷ ps) stats =
    load_each-parts (explode_string b',' (c ∷ cs)) ps stats (load_each-parse_each ps)

-- The stats that TemplateCreature::Read makes of a text are those that Creature::Update makes of it,
-- if each piece of the text between semicolons is empty or has three parts between commas; if some
-- piece has fewer, TemplateCreature::Read reads past the end of the parts.
pub load_stats-parse_stats :
    (text : Text)
    → load_stats text
      ≡ (if all_complete (explode_string b';' text) then some (parse_stats text) else none)
unfolding load_stats parse_stats
load_stats-parse_stats text = load_each-parse_each (explode_string b';' text) []
