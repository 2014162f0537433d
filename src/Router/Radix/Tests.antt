-- ===== src/Router/Radix/Tests.antt =====
-- Runs of the route tree.
use rivaas.Prelude.{
  ◌≡◌, refl, List, [], ◌∷◌, some, none, ℕ, prepend, join, codes, eqb, split, trim, is_empty,
  contains, cut_suffix,
}
use rivaas.Router.Params.{fresh, store}
use rivaas.Router.Radix.{
  Constraint, Tree, empty_tree, add_route, get_route, validate_constraints, default_param_name,
  skip_slash, is_param, param_name, get_static,
}
use rivaas.Router.Radix.RoundTrip.{Fits, end, literal, capture, store_all, get_route-add_route}
use rivaas.Router.Radix.Children.{child_of}
use rivaas.Router.Radix.Wildcards.{get_route-add_wildcard}

abbrev h1 : List ℕ
h1 = 1 ∷ []

abbrev h2 : List ℕ
h2 = 2 ∷ []

abbrev h3 : List ℕ
h3 = 3 ∷ []

abbrev h4 : List ℕ
h4 = 4 ∷ []

abbrev with_user : Tree ℕ
with_user = add_route (codes "/users/:id") (some h1) [] empty_tree

finds_user : get_route (codes "/users/42") with_user fresh ≡ record {
  handlers = some h1;
  pattern = codes "/users/:id";
  params = store (codes "id") (codes "42") fresh;
}
unfolding get_route add_route empty_tree eqb cut_suffix contains split prepend trim is_empty
    param_name is_param
finds_user = refl

-- A pattern whose constraint lets only "42" through.
abbrev is_42 : Constraint
is_42 = record { param = codes "id"; match_string = λ v. eqb v (codes "42") }

rejects :
    (get_route
      (codes "/users/43")
      (add_route (codes "/users/:id") (some h1) (is_42 ∷ []) empty_tree)
      fresh).handlers
    ≡ none
unfolding get_route add_route empty_tree fresh eqb cut_suffix contains split prepend trim is_empty
    param_name is_param
rejects = refl

Fits-user :
    Fits
      (codes "users" ∷ codes ":id" ∷ [])
      (codes "users" ∷ codes "42" ∷ [])
      ((codes "id", codes "42") ∷ [])
unfolding eqb cut_suffix contains split prepend trim is_empty param_name is_param
Fits-user = literal refl refl (capture refl refl refl end)

get_route-add_route_example :
    get_route
      (codes "/users/42")
      (add_route (codes "/users/:id") (some h1) (is_42 ∷ []) empty_tree)
      fresh
    ≡ record {
      handlers = some h1;
      pattern = codes "/users/:id";
      params = store (codes "id") (codes "42") fresh;
    }
unfolding store_all validate_constraints fresh empty_tree is_param is_empty contains cut_suffix
    split trim skip_slash store eqb prepend param_name get_static child_of join
get_route-add_route_example =
    get_route-add_route (codes "/users/:id") (codes "/users/42") empty_tree h1 (is_42 ∷ [])
      ((codes "id", codes "42") ∷ []) fresh refl refl refl Fits-user (refl, tt, tt) refl

get_route-add_wildcard_example :
    get_route (codes "/files/a/b.txt") (add_route (codes "/files/*") (some h3) [] empty_tree) fresh
    ≡ record {
      handlers = some h3;
      pattern = codes "/files/*";
      params = store default_param_name (codes "a/b.txt") fresh;
    }
unfolding cut_suffix is_empty split trim skip_slash empty_tree eqb contains prepend param_name
    is_param get_static child_of join
get_route-add_wildcard_example =
    get_route-add_wildcard (codes "/files/*") (codes "/files") (codes "/files/a/b.txt") empty_tree
      h3 [] fresh (codes "a") (codes "b.txt" ∷ []) refl refl refl refl refl (refl, (refl, tt))
      (refl, refl, refl)

found_literally :
    (get_route
      (codes "/users/:id/files/x")
      (add_route (codes "/users/:id/files/*") (some h4) [] empty_tree)
      fresh).handlers
    ≡ some h4
unfolding get_route add_route empty_tree eqb cut_suffix contains split prepend trim is_empty
    param_name is_param
found_literally = refl

-- The parameter of a wildcard's prefix is not one.
not_found_by_value :
    (get_route
      (codes "/users/42/files/x")
      (add_route (codes "/users/:id/files/*") (some h4) [] empty_tree)
      fresh).handlers
    ≡ none
unfolding get_route add_route empty_tree eqb cut_suffix contains split prepend trim is_empty
    param_name is_param
not_found_by_value = refl
