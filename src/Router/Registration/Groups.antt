-- ===== src/Router/Registration/Groups.antt =====
-- Groups of routes (router/route/group.go, and VersionGroup of router/versioning.go).
use rivaas.Prelude.{
  Bool, List, [], ◌∷◌, ◌++◌, Option, ◌>>=◌, if◌then◌else◌, Bytes, is_empty, ◌≡◌, refl, sym,
  append-nil,
}
use rivaas.Compiler.Fnv.{Fnv}
use rivaas.Router.Trees.{method_of}
use rivaas.Router.Registration.{Router, add_route, version_route}

pub record Group {ℓ} (H : Type ℓ) : Type ℓ where
  pub prefix : Bytes
  pub middleware : List H
  pub name_prefix : Bytes

-- A prefix before a path: one that is empty adds nothing.
unfoldable pub joined : Bytes → Bytes → Bytes
joined prefix path =
    if is_empty prefix then path else if is_empty path then prefix else prefix ++ path

pub joined-append : (prefix path : Bytes) → joined prefix path ≡ prefix ++ path
unfolding joined is_empty
joined-append [] path = refl
joined-append (a ∷ prefix) [] = sym (append-nil (a ∷ prefix))
joined-append (a ∷ prefix) (b ∷ path) = refl

module _ {ℓ} {H : Type ℓ} where
  -- NewGroup
  unfoldable pub new_group : Bytes → List H → Group H
  new_group prefix middleware = record {
    prefix = prefix;
    middleware = middleware;
    name_prefix = [];
  }

  -- Use
  unfoldable pub use_in : List H → Group H → Group H
  use_in ms g = record g { middleware = g.middleware ++ ms }

  -- SetNamePrefix
  unfoldable pub set_name_prefix : Bytes → Group H → Group H
  set_name_prefix prefix g = record g { name_prefix = g.name_prefix ++ prefix }

  -- Group of a group
  unfoldable pub sub_group : Bytes → List H → Group H → Group H
  unfolding joined
  sub_group prefix middleware g = record {
    prefix = joined g.prefix prefix;
    middleware = g.middleware ++ middleware;
    name_prefix = g.name_prefix;
  }

module _ {ℓ} {H : Type ℓ} (fnv : Fnv) (quote_meta : Bytes → Bytes)
    (compile : Bytes → Option (Bytes → Bool)) where
  -- addRoute of a group
  unfoldable pub add_to_group : Bytes → Bytes → List H → Group H → Router H → Option (Router H)
  unfolding joined add_route
  add_to_group method path handlers g r =
      add_route fnv quote_meta compile method (joined g.prefix path) (g.middleware ++ handlers) r

  -- Handle of a group, which refuses a method that no switch knows
  unfoldable pub handle : Bytes → Bytes → List H → Group H → Router H → Option (Router H)
  unfolding add_to_group
  handle method path handlers g r = method_of method >>= λ _. add_to_group method path handlers g r

  -- Handle of a group of a version
  unfoldable pub handle_version :
      Bytes → Bytes → Bytes → List H → Group H → Router H → Option (Router H)
  unfolding version_route
  handle_version version method path handlers g r =
      version_route fnv quote_meta compile version method (g.prefix ++ path)
        (g.middleware ++ handlers) r
