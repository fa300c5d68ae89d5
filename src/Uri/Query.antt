-- ===== src/Uri/Query.antt =====
-- The parameters of a query.
use recap_server.Prelude.{
  ℕ, suc, ◌+◌, ◌≡◌, refl, ap, ◌∙◌, Bool, true, false, List, [], ◌∷◌, ◌++◌, Option, none, some,
  if◌then◌else◌, arith, Bool-cases, inl, inr, length, take, drop, map,
}
use recap_server.Utils.Explode.{explode_string-join, join, Avoids, AllAvoid}
use recap_server.Utils.Strings.{same, same-of_same, same_apart, find_char}
use recap_server.Utils.Xml.{Text}
use recap_server.Uri.{
  Uri, parameter, set_parameter, parse_query, find, emplace, put, split, add_variables,
  value_or_empty,
}

-- The first result that is there.
abbrev pub or_else : Option Text → Option Text → Option Text
or_else none o = o
or_else (some v) o = some v

or_else-none : (o : Option Text) → o ≡ or_else o none
or_else-none none = refl
or_else-none (some v) = refl

or_else_assoc :
    (o p : Option Text) (b : Bool) (v : Text)
    → or_else (or_else o (if b then some v else none)) p ≡ or_else o (if b then some v else p)
or_else_assoc none p true v = refl
or_else_assoc none p false v = refl
or_else_assoc (some w) p b v = refl

find-emplace :
    (q : List (Text × Text)) (k v name : Text)
    → find (emplace q k v) name ≡ or_else (find q name) (if same k name then some v else none)
unfolding find emplace
find-emplace [] k v name = refl
find-emplace ((j, w) ∷ q) k v name = elim (Bool-cases (same j k)) [
  | inl e ↦ ground (arith, same-of_same j k name e, e)
  | inr e ↦ ground (arith, find-emplace q k v name, e)
]

find-put :
    (q : List (Text × Text)) (k v name : Text)
    → find (put q k v) name ≡ (if same k name then some v else find q name)
unfolding find put
find-put [] k v name = refl
find-put ((j, w) ∷ q) k v name = elim (Bool-cases (same j k)) [
  | inl e ↦ ground (arith, same-of_same j k name e, e)
  | inr e ↦ elim (Bool-cases (same k name)) [
    | inl t ↦ ground (arith, find-put q k v name, e, t, same_apart j k name e t)
    | inr t ↦ ground (arith, find-put q k v name, e, t)
  ]
]

parameter-set_parameter :
    (u : Uri) (k v name : Text)
    → parameter (set_parameter u k v) name ≡ (if same k name then v else parameter u name)
unfolding parameter set_parameter value_or_empty
parameter-set_parameter u k v name = ground (arith, find-put u.query k v name)

find_char-append : (d : ℕ) (k v : Text) → Avoids d k → find_char d (k ++ d ∷ v) ≡ some (length k)
unfolding find_char
find_char-append d [] v h = ground arith
find_char-append d (c ∷ k) v (ne, h) = ground (arith, find_char-append d k v h)

take-append : (k v : Text) → take (length k) (k ++ v) ≡ k
take-append [] v = refl
take-append (c ∷ k) v = ap (λ t. c ∷ t) (take-append k v)

drop-append : (k v : Text) → drop (length k) (k ++ v) ≡ v
drop-append [] v = refl
drop-append (c ∷ k) v = drop-append k v

drop-suc : (d : ℕ) (k v : Text) → drop (suc (length k)) (k ++ d ∷ v) ≡ v
drop-suc d [] v = refl
drop-suc d (c ∷ k) v = drop-suc d k v

drop_past : (d : ℕ) (k v : Text) → drop (length k + 1) (k ++ d ∷ v) ≡ v
drop_past d k v =
    let next : length k + 1 ≡ suc (length k) = omega arith in
    ap (λ n. drop n (k ++ d ∷ v)) next ∙ drop-suc d k v

-- A name, an equals sign and a value.
abbrev pub variable : Text × Text → Text
variable (k, v) = k ++ b'=' ∷ v

split-variable : (k v : Text) → Avoids b'=' k → split (variable (k, v)) ≡ (k, v)
unfolding split
split-variable k v h =
    rw (split, find_char-append b'=' k v h)
      (λ i. (take-append k (b'=' ∷ v) i, drop_past b'=' k v i))

-- Names without an equals sign or an ampersand, and values without an ampersand.
abbrev pub AllPlain : List (Text × Text) → Type 0
AllPlain [] = Unit {0}
AllPlain ((k, v) ∷ es) = (Avoids b'=' k × (Avoids b'&' k × Avoids b'&' v)) × AllPlain es

find-add_variables :
    (es q : List (Text × Text)) (name : Text)
    → AllPlain es
    → find (add_variables q (map variable es)) name ≡ or_else (find q name) (find es name)
unfolding add_variables find
find-add_variables [] q name h = or_else-none (find q name)
find-add_variables ((k, v) ∷ es) q name ((hk, amps), h) =
    ap (λ (p : Text × Text). find (add_variables (emplace q p.0 p.1) (map variable es)) name)
      (split-variable k v hk)
    ∙ find-add_variables es (emplace q k v) name h
    ∙ ap (λ o. or_else o (find es name)) (find-emplace q k v name)
    ∙ or_else_assoc (find q name) (find es name) (same k name) v

Avoids-variable : (k v : Text) → Avoids b'&' k → Avoids b'&' v → Avoids b'&' (variable (k, v))
Avoids-variable [] v hk hv = (omega arith, hv)
Avoids-variable (c ∷ k) v (ne, hk) hv = (ne, Avoids-variable k v hk hv)

variables-AllAvoid : (es : List (Text × Text)) → AllPlain es → AllAvoid b'&' (map variable es)
variables-AllAvoid [] h = tt
variables-AllAvoid ((k, v) ∷ es) ((hk, (ka, va)), h) =
    (Avoids-variable k v ka va, variables-AllAvoid es h)

-- After parse_query of variables joined by ampersands, each a name, an equals sign and a value, with
-- no equals sign in a name and no ampersand in any, a parameter has the value it had before, or else
-- that of the first variable of its name, or else none.
pub parameter-parse_query :
    (u : Uri) (e : Text × Text) (es : List (Text × Text)) (name : Text)
    → AllPlain (e ∷ es)
    → parameter (parse_query u (join b'&' (variable e) (map variable es))) name
      ≡ value_or_empty (or_else (find u.query name) (find (e ∷ es) name))
unfolding parameter parse_query
parameter-parse_query u (k, v) es name ((hk, (ka, va)), h) =
    ap (λ l. value_or_empty (find (add_variables u.query l) name))
      (explode_string-join b'&' (variable (k, v)) (map variable es) (Avoids-variable k v ka va)
        (variables-AllAvoid es h))
    ∙ ap value_or_empty (find-add_variables ((k, v) ∷ es) u.query name ((hk, (ka, va)), h))
