-- ===== src/Router/Registration/Mount/Waiting.antt =====
-- A subrouter that is mounted on a router whose routes wait.
use rivaas.Prelude.{Bool, true, ◌≡◌, List, [], ◌∷◌, ◌++◌, Option, some, Bytes, IsMap, All}
use rivaas.Compiler.Fnv.{Fnv}
use rivaas.Router.Constraints.{Compiled, constraint_from_pattern}
use rivaas.Router.Registration.{Route, Router, new_route}
use rivaas.Router.Registration.Mount.{is_copied, mounted_path}

module _ {ℓ} {H : Type ℓ} where
  -- A mounted route.
  abbrev pub mounted : Bytes → List H → Route H → Route H
  mounted prefix chain rt =
      record (new_route [] rt.method (mounted_path prefix rt.path) (chain ++ rt.handlers)) {
        constraints = rt.constraints;
        typed = rt.typed;
      }

  -- The router whose last waiting route is the given one, behind the given others.
  abbrev with_last : Router H → List (Route H) → Route H → Router H
  with_last r xs rt = record r { pending = xs ++ rt ∷ [] }

module _ (quote_meta : Bytes → Bytes) (compile : Bytes → Option (Bytes → Bool)) where
  -- The constraint was made from a pattern.
  abbrev pub IsMade : Compiled → Type 0
  IsMade c =
      (pattern : Bytes) × (constraint_from_pattern quote_meta compile c.param pattern ≡ some c)

  -- The route has no name, its constraints were made from patterns, and its typed ones have a kind.
  abbrev pub IsMountable {ℓ} : {H : Type ℓ} → Route H → Type 0
  IsMountable rt =
      (rt.name ≡ [])
      × All IsMade rt.constraints
      × IsMap rt.typed
      × All (λ t. is_copied t.1 ≡ true) rt.typed
