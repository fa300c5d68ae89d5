-- ===== src/Tests/Uris.antt =====
-- HTTP::URI and HTTP::Router at small inputs.
use recap_server.Prelude.{
  Bool, not, [], ℕ, ◌==◌, refl, true, arith, none, ◌≡◌, map, ◌∷◌, List, some, ◌||◌, if◌then◌else◌,
}
use recap_server.Utils.Explode.{join}
use recap_server.Utils.Hash.{codes}
use recap_server.Uri.{new, parse, decode, parameter, parse_query, value_or_empty, find}
use recap_server.Utils.Xml.{Text}
use recap_server.Uri.Escapes.{escape, decode-escape}
use recap_server.Router.{RoutePath, Request, add, run, get_verb, post_verb}
use recap_server.Router.Table.{function_of, refused, looked_up, function-add}
use recap_server.Utils.Strings.{same}
use recap_server.Uri.Query.{or_else, variable, parameter-parse_query}

decode-escape_example : decode (escape (codes "a b&c=%")) ≡ codes "a b&c=%"
decode-escape_example = decode-escape (codes "a b&c=%") (
  omega arith,
  (omega arith, (omega arith, (omega arith, (omega arith, (omega arith, (omega arith, tt)))))),
)

parameter-parse_query_example :
    parameter
      (parse_query new (
        join b'&' (variable (codes "id", codes "7")) (map variable ((codes "id", codes "8") ∷ []))))
      (codes "id")
    ≡ value_or_empty (
        or_else
          (find new.query (codes "id"))
          (find ((codes "id", codes "7") ∷ (codes "id", codes "8") ∷ []) (codes "id")))
parameter-parse_query_example =
    parameter-parse_query new (codes "id", codes "7") ((codes "id", codes "8") ∷ []) (codes "id")
      (
        ((omega arith, (omega arith, tt)), ((omega arith, (omega arith, tt)), (omega arith, tt))),
        (
          ((omega arith, (omega arith, tt)), ((omega arith, (omega arith, tt)), (omega arith, tt))),
          tt,
        ),
      )

whole : parse new (codes "https://host:8080/a/b?x=1&y#top") ≡ record {
  query = (codes "x", codes "1") ∷ (codes "y", []) ∷ [];
  protocol = codes "https";
  domain = codes "host";
  resource = codes "/a/b";
  fragment = codes "top";
  port = 8080;
}
unfolding parse decode new
whole = refl

-- An escaped ampersand in a value ends the value.
cut_value : parameter (parse new (codes "/a?x=1%262")) (codes "x") ≡ codes "1"
unfolding parse decode parameter new
cut_value = refl

-- A scheme in a value is taken for the scheme of the whole.
scheme_in_value : (parse new (codes "/a?next=http://h/b")).protocol ≡ codes "/a?next=http"
unfolding parse decode
scheme_in_value = refl

-- A domain without a slash is the resource as well.
no_slash : (parse new (codes "http://host")).resource ≡ codes "host"
unfolding parse decode
no_slash = refl

-- Functions are numbers here.
abbrev routes : List (RoutePath ℕ)
routes =
    record { method = get_verb; path = codes "/a"; function = 1 }
    ∷ record { method = post_verb; path = codes "/a"; function = 2 }
    ∷ []

-- An expression that is only an opening parenthesis is refused.
abbrev compiles : Text → Bool
compiles path = not (same path (codes "("))

function-add_example :
    looked_up ℕ compiles (add ℕ compiles routes get_verb (codes "/a") none) (2 ∷ codes "/a") ≡ (
      if get_verb == get_verb || get_verb == post_verb
      then if refused ℕ compiles routes get_verb (codes "/a") none
        then none
        else some (
            if same (get_verb ∷ codes "/a") (2 ∷ codes "/a")
            then none
            else function_of ℕ routes (2 ∷ codes "/a"))
      else some (function_of ℕ routes (2 ∷ codes "/a")))
function-add_example =
    function-add ℕ compiles routes get_verb (codes "/a") none (2 ∷ codes "/a") (refl, (refl, tt))

throws : add ℕ compiles routes get_verb (codes "(") (some 3) ≡ none
unfolding add
throws = refl

abbrev request : Request
request = record {
  uri = new;
  target = codes "http://h/a?x=1";
  method = post_verb;
  version = 11;
  keep_alive = true;
}

-- With plain paths for the expressions.
posted :
    (run ℕ same routes request).1
    ≡ some (2, record { method = post_verb; version = 11; keep_alive = true })
unfolding run decode new parse
posted = refl
