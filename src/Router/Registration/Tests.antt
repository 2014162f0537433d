-- ===== src/Router/Registration/Tests.antt =====
-- A subrouter with one route.
use rivaas.Prelude.{ℕ, Bool, false, List, [], ◌∷◌, Option, some, Bytes, codes, eqb}
use rivaas.Router.Constraints.{int, Compiled, anchored}
use rivaas.Router.Registration.{Route, Router, new_route, new_router}
use rivaas.Router.Registration.Mount.{MountOption, inherit, with_middleware, named}

abbrev quote : Bytes → Bytes
quote s = s

-- An expression that matches its own text.
abbrev literal : Bytes → Option (Bytes → Bool)
literal text = some (λ s. eqb text s)

abbrev exactly_a : Compiled
exactly_a = record {
  param = codes "kind";
  text = anchored (codes "a");
  match_string = λ s. eqb (anchored (codes "a")) s;
}

abbrev users : Route ℕ
users = record (new_route [] (codes "GET") (codes "/:kind/:id") (7 ∷ [])) {
  constraints = exactly_a ∷ [];
  typed = (codes "id", int) ∷ [];
}

abbrev start : Router ℕ
start = record (new_router 1000 3 false false) { middleware = 1 ∷ [] }

abbrev sub : Router ℕ
sub = record (new_router 1000 3 false false) { middleware = 2 ∷ []; pending = users ∷ [] }

abbrev options : List (MountOption ℕ)
options = inherit ∷ with_middleware (3 ∷ []) ∷ named (codes "admin.") ∷ []
