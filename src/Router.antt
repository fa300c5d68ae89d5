-- ===== src/Router.antt =====
-- HTTP::Router (HTTP/Router.cpp): routes by method and path, over boost's regular expressions.
pub mod Table
use recap_server.Prelude.{
  ℕ, Bool, true, false, ◌||◌, ◌&&◌, List, [], ◌∷◌, ◌++◌, Option, none, some, ◌==◌, ◌>>=◌,
  if◌then◌else◌,
}
use recap_server.Uri.{Uri, parse}
use recap_server.Utils.Strings.{same}
use recap_server.Utils.Xml.{Text}

-- The numbers of `verb::get` and `verb::post`.
abbrev pub get_verb : ℕ
get_verb = 2

abbrev pub post_verb : ℕ
post_verb = 4

-- Functions of a type F.
module _ (F : Type 0) where
  pub record RoutePath : Type 0 where
    pub method : ℕ
    pub path : Text
    pub function : F

  -- `compiles` says whether boost::regex takes a path for an expression: otherwise the constructor
  -- of the route throws, and so does Router::add, which is `none`.
  module _ (compiles : Text → Bool) where
    -- The constructor of RoutePath, and set_function.
    unfoldable pub new_route : ℕ → Text → F → Option RoutePath
    new_route method path f =
        if compiles path then some (record { method = method; path = path; function = f }) else none

    -- `set_method` of Router::add. No function takes the route out.
    unfoldable pub set_method : List RoutePath → ℕ → Text → Option F → Option (List RoutePath)
    unfolding new_route
    set_method [] method path none = some []
    set_method [] method path (some f) = new_route method path f >>= λ r. some (r ∷ [])
    set_method (r ∷ routes) method path function =
        let rest = set_method routes method path function in
        if r.method == method && same r.path path
        then elim function [
          | none ↦ some routes
          | some f ↦ some (record r { function = f } ∷ routes)
        ]
        else (rest >>= λ rs. some (r ∷ rs))

    -- Router::add; every other method is passed over.
    unfoldable pub add : List RoutePath → ℕ → Text → Option F → Option (List RoutePath)
    unfolding set_method
    add routes method path function =
        if method == get_verb || method == post_verb
        then set_method routes method path function
        else some routes

    unfoldable pub add_all : List RoutePath → List ℕ → Text → Option F → Option (List RoutePath)
    unfolding add
    add_all routes [] path function = some routes
    add_all routes (m ∷ methods) path function =
        add routes m path function >>= λ rs. add_all rs methods path function

  -- `regex_match` of the expression of a path.
  module _ (regex_match : Text → Text → Bool) where
    -- The loop of Router::run.
    unfoldable pub first_route : List RoutePath → ℕ → Text → Option RoutePath
    first_route [] method resource = none
    first_route (r ∷ routes) method resource =
        if r.method == method && regex_match r.path resource
        then some r
        else first_route routes method resource

pub record Request : Type 0 where
  pub uri : Uri
  pub target : Text
  pub method : ℕ
  pub version : ℕ
  pub keep_alive : Bool

-- What Router::run sets of a response.
pub record Response : Type 0 where
  pub method : ℕ
  pub version : ℕ
  pub keep_alive : Bool

-- The request with its URI, and the function that is called with its response, where there is one.
unfoldable pub run :
    (F : Type 0)
    → (Text → Text → Bool)
    → List (RoutePath F)
    → Request
    → Request × Option (F × Response)
unfolding first_route parse
run F regex_match routes request =
    let uri = parse request.uri request.target in
    (
      record request { uri = uri },
      elim (first_route F regex_match routes request.method uri.resource) [
        | none ↦ none
        | some r ↦ some (
          r.function,
          record {
            method = request.method;
            version = request.version;
            keep_alive = request.keep_alive;
          },
        )
      ],
    )
