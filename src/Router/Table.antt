-- ===== src/Router/Table.antt =====
-- The routes as a table from methods and paths to functions.
use recap_server.Prelude.{
  ℕ, ◌≡◌, refl, ap, sym, ◌∙◌, true, false, ◌||◌, List, [], ◌∷◌, Option, none, some, ◌==◌,
  if◌then◌else◌, arith, Bool, subst, not, ◌>>=◌, some-injective, Bool-cases, inl, inr,
}
use recap_server.Router.{RoutePath, new_route, set_method, add, get_verb, post_verb}
use recap_server.Utils.Strings.{same, eq_of_same, same-of_same, same_apart, same_flip}
use recap_server.Utils.Xml.{Text}

module _ (F : Type 0) where
  -- A method and a path as one key.
  abbrev pub key : RoutePath F → Text
  key r = r.method ∷ r.path

  -- The function of the first route of a key.
  abbrev pub function_of : List (RoutePath F) → Text → Option F
  function_of [] k = none
  function_of (r ∷ routes) k = if same (key r) k then some r.function else function_of routes k

  -- No two routes have one key.
  abbrev pub IsUnique : List (RoutePath F) → Type 0
  IsUnique [] = Unit {0}
  IsUnique (r ∷ routes) = (function_of routes (key r) ≡ none) × IsUnique routes

  -- A new route is made for a path that boost::regex does not take.
  abbrev pub refused : (Text → Bool) → List (RoutePath F) → ℕ → Text → Option F → Bool
  refused compiles routes m p none = false
  refused compiles routes m p (some f) = elim (function_of routes (m ∷ p)) [
    | none ↦ not (compiles p)
    | some g ↦ false
  ]

  module _ (compiles : Text → Bool) where
    module _ (r : RoutePath F) (routes : List (RoutePath F)) (m : ℕ) (p : Text) where
      here :
          (f : Option F)
          → same (key r) (m ∷ p) ≡ true
          → set_method F compiles (r ∷ routes) m p f
            ≡ (elim f [ none ↦ some routes | some g ↦ some (record r { function = g } ∷ routes) ])
      unfolding set_method
      here f e = ground (arith, e)

      there :
          (f : Option F)
          → same (key r) (m ∷ p) ≡ false
          → set_method F compiles (r ∷ routes) m p f
            ≡ (set_method F compiles routes m p f >>= λ rs. some (r ∷ rs))
      unfolding set_method
      there f e = ground (arith, e)

      refused_here :
          (f : Option F) → same (key r) (m ∷ p) ≡ true → refused compiles (r ∷ routes) m p f ≡ false
      refused_here none e = refl
      refused_here (some f) e = rw (e, refused) refl

      refused_there :
          (f : Option F)
          → same (key r) (m ∷ p) ≡ false
          → refused compiles (r ∷ routes) m p f ≡ refused compiles routes m p f
      refused_there none e = refl
      refused_there (some f) e = rw (e, refused) refl

    -- The function of a key after the call, if the call returns.
    abbrev pub looked_up : Option (List (RoutePath F)) → Text → Option (Option F)
    looked_up o k = o >>= λ rs. some (function_of rs k)

    looked_up-cons :
        (r : RoutePath F) (o : Option (List (RoutePath F))) (k : Text)
        → looked_up (o >>= λ rs. some (r ∷ rs)) k
          ≡ (looked_up o k >>= λ g. some (if same (key r) k then some r.function else g))
    looked_up-cons r none k = refl
    looked_up-cons r (some rs) k = refl

    replaced :
        (r : RoutePath F) (routes : List (RoutePath F)) (m : ℕ) (p : Text) (f : Option F) (k : Text)
        → function_of routes (key r) ≡ none
        → same (key r) (m ∷ p) ≡ true
        → looked_up
            (elim f [ none ↦ some routes | some g ↦ some (record r { function = g } ∷ routes) ])
            k
          ≡ some (if same (m ∷ p) k then f else function_of (r ∷ routes) k)
    replaced r routes m p (some f) k alone e = ground (arith, same-of_same (key r) (m ∷ p) k e, e)
    replaced r routes m p none k alone e = elim (Bool-cases (same (key r) k)) [
      | inl t ↦
          let gone = ap (function_of routes) (sym (eq_of_same (key r) k t)) ∙ alone in
          ground (arith, gone, same-of_same (key r) (m ∷ p) k e, e, t)
      | inr t ↦ ground (arith, same-of_same (key r) (m ∷ p) k e, e, t)
    ]

    -- The two keys differ, so that the order of the tests does not matter.
    apart :
        (r : RoutePath F) (routes : List (RoutePath F)) (m : ℕ) (p : Text) (f : Option F) (k : Text)
        → same (key r) (m ∷ p) ≡ false
        → ((if refused compiles routes m p f
              then none
              else some (if same (m ∷ p) k then f else function_of routes k))
            >>= λ g. some (if same (key r) k then some r.function else g))
          ≡ (if refused compiles (r ∷ routes) m p f
              then none
              else some (if same (m ∷ p) k then f else function_of (r ∷ routes) k))
    apart r routes m p f k e =
        rw (refused_there r routes m p f e) (elim (Bool-cases (refused compiles routes m p f)) [
          | inl b ↦ rw b refl
          | inr b ↦ rw b (elim (Bool-cases (same (m ∷ p) k)) [
            | inl t ↦ rw (t, same_apart (key r) (m ∷ p) k e t) refl
            | inr t ↦ rw t refl
          ])
        ])

    function-set_method :
        (routes : List (RoutePath F)) (m : ℕ) (p : Text) (f : Option F) (k : Text)
        → IsUnique routes
        → looked_up (set_method F compiles routes m p f) k ≡ (
            if refused compiles routes m p f
            then none
            else some (if same (m ∷ p) k then f else function_of routes k))
    unfolding set_method new_route
    function-set_method [] m p none k h = elim (Bool-cases (same (m ∷ p) k)) [
      | inl e ↦ rw e refl
      | inr e ↦ rw e refl
    ]
    function-set_method [] m p (some f) k h = elim (Bool-cases (compiles p)) [
      | inl e ↦ rw e refl
      | inr e ↦ rw e refl
    ]
    function-set_method (r ∷ routes) m p f k (alone, h) = elim (Bool-cases (same (key r) (m ∷ p))) [
      | inl e ↦
          ap (λ o. looked_up o k) (here r routes m p f e)
          ∙ replaced r routes m p f k alone e
          ∙ rw (refused_here r routes m p f e) refl
      | inr e ↦
          ap (λ o. looked_up o k) (there r routes m p f e)
          ∙ looked_up-cons r (set_method F compiles routes m p f) k
          ∙ ap (λ o. o >>= λ g. some (if same (key r) k then some r.function else g))
              (function-set_method routes m p f k h)
          ∙ apart r routes m p f k e
    ]

    -- The routes that a call leaves, if it returns, have different keys.
    abbrev Kept : Option (List (RoutePath F)) → Type 0
    Kept none = Unit {0}
    Kept (some rs) = IsUnique rs

    nothing : (b : Bool) (g : Option F) → some g ≡ (if b then none else some none) → g ≡ none
    nothing true g e = absurd (ground (arith, e))
    nothing false g e = some-injective e

    Kept-cons :
        (r : RoutePath F) (o : Option (List (RoutePath F))) (b : Bool)
        → Kept o
        → looked_up o (key r) ≡ (if b then none else some none)
        → Kept (o >>= λ rs. some (r ∷ rs))
    Kept-cons r none b h e = tt
    Kept-cons r (some rs) b h e = (nothing b (function_of rs (key r)) e, h)

    replaced-Kept :
        (r : RoutePath F) (routes : List (RoutePath F)) (f : Option F)
        → IsUnique (r ∷ routes)
        → Kept (elim f [ none ↦ some routes | some g ↦ some (record r { function = g } ∷ routes) ])
    replaced-Kept r routes none (alone, h) = h
    replaced-Kept r routes (some g) (alone, h) = (alone, h)

    set_method-Kept :
        (routes : List (RoutePath F)) (m : ℕ) (p : Text) (f : Option F)
        → IsUnique routes
        → Kept (set_method F compiles routes m p f)
    unfolding set_method new_route
    set_method-Kept [] m p none h = tt
    set_method-Kept [] m p (some f) h = elim (Bool-cases (compiles p)) [
      | inl e ↦ rw e (refl, tt)
      | inr e ↦ rw e tt
    ]
    set_method-Kept (r ∷ routes) m p f (alone, h) = elim (Bool-cases (same (key r) (m ∷ p))) [
      | inl e ↦ subst Kept (sym (here r routes m p f e)) (replaced-Kept r routes f (alone, h))
      | inr e ↦
          let flip = same_flip (key r) (m ∷ p) e in
          let still =
            function-set_method routes m p f (key r) h
            ∙ ap
                (λ c.
                  if refused compiles routes m p f
                  then none
                  else some (if c then f else function_of routes (key r)))
                flip
            ∙ ap (λ g. if refused compiles routes m p f then none else some g) alone in
          subst Kept (sym (there r routes m p f e)) (
            Kept-cons r (set_method F compiles routes m p f) (refused compiles routes m p f)
              (set_method-Kept routes m p f h) still)
    ]

    add-Kept :
        (routes : List (RoutePath F)) (m : ℕ) (p : Text) (f : Option F)
        → IsUnique routes
        → Kept (add F compiles routes m p f)
    unfolding add
    add-Kept routes m p f h = elim (Bool-cases (m == get_verb || m == post_verb)) [
      | inl e ↦ rw (add, e) (set_method-Kept routes m p f h)
      | inr e ↦ rw (add, e) h
    ]

    -- Over routes of which no two have one method and path, Router::add of GET or POST under a path
    -- throws if there is a function, no route of this method and path, and boost::regex does not
    -- take the path for an expression. Otherwise it sets the function of this method and path, or
    -- takes it out where there is no function, and leaves the function of every other method and
    -- path; of any other method it changes nothing.
    pub function-add :
        (routes : List (RoutePath F)) (m : ℕ) (p : Text) (f : Option F) (k : Text)
        → IsUnique routes
        → looked_up (add F compiles routes m p f) k ≡ (
            if m == get_verb || m == post_verb
            then if refused compiles routes m p f
              then none
              else some (if same (m ∷ p) k then f else function_of routes k)
            else some (function_of routes k))
    unfolding add
    function-add routes m p f k h = elim (Bool-cases (m == get_verb || m == post_verb)) [
      | inl e ↦ rw (add, e) (function-set_method routes m p f k h)
      | inr e ↦ rw (add, e) refl
    ]
