-- ===== src/Tests/Attribute.antt =====
-- Game::Attributes at small inputs.
use recap_server.Prelude.{
  ℕ, List, ◌≡◌, refl, ◌||◌, false, [], ◌∷◌, none, some, arith, if◌then◌else◌, ◌==◌, ltb, ◌&&◌,
  ◌>>=◌,
}
use recap_server.Attributes.{
  Float, reflection, reset_reflection_bits, Attributes, client_count, find, erase_index, new,
  get_value, set_value,
}
use recap_server.Attributes.Reflection.{apply}
use recap_server.Attributes.Sync.{set_values, reflection-set_values}
use recap_server.Attributes.Values.{IsValid}
use recap_server.Attributes.Writes.{
  read_back, set_value-IsValid, get_value-set_value, set_value-set_value,
}

-- Whole numbers in place of floats.
abbrev whole : Float
whole = record { Value = ℕ; zero = 0; is_zero = λ n. n == 0; is_zero-zero = refl }

-- Strength is 7 and mind is 9.
abbrev none_set : Attributes whole
none_set = new whole

abbrev start : Attributes whole
start = record none_set { values = (0, 7) ∷ (2, 9) ∷ [] }

abbrev start-IsValid : IsValid whole start
start-IsValid = (omega arith, (omega arith, tt))

abbrev with_dexterity : Attributes whole
with_dexterity = record none_set {
  values = (0, 7) ∷ (1, 5) ∷ (2, 9) ∷ [];
  data_bits = λ i. i == 1 || false;
}

run : set_value whole start 1 5 ≡ some with_dexterity
unfolding set_value
run = refl

set_value-IsValid_example : IsValid whole with_dexterity
set_value-IsValid_example = set_value-IsValid whole start with_dexterity 1 5 start-IsValid run

get_value-set_value_example :
    get_value whole with_dexterity 1
    ≡ (if ltb 1 client_count && (1 == 1) then read_back whole 5 else get_value whole start 1)
get_value-set_value_example = get_value-set_value whole start with_dexterity 1 1 5 start-IsValid run

set_value-set_value_example : (set_value whole start 1 0 >>= λ b. set_value whole b 1 5) ≡ none
unfolding find erase_index
set_value-set_value_example = set_value-set_value whole start 1 5 (omega arith) refl refl refl

-- Dexterity is set, changed and taken back, and mind becomes zero.
abbrev changes : List (ℕ × ℕ)
changes = (1, 5) ∷ (2, 0) ∷ (1, 6) ∷ (1, 0) ∷ (1, 4) ∷ []

abbrev changed_start : Attributes whole
changed_start = record none_set {
  values = (0, 7) ∷ (1, 4) ∷ [];
  erased_data = 2 ∷ [];
  data_bits = λ i. i == 1 || (i == 1 || (i == 1 || (i == 2 || (i == 1 || false))));
}

run_changes : set_values whole changes (reset_reflection_bits whole start) ≡ some changed_start
unfolding set_value set_values reset_reflection_bits
run_changes = refl

reflection-set_values_example :
    apply whole (reflection whole changed_start) (get_value whole start) 2
    ≡ get_value whole changed_start 2
reflection-set_values_example =
    reflection-set_values whole changes start changed_start 2 start-IsValid run_changes
      (omega arith)
