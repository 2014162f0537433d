-- ===== src/Router/Constraints/Patterns.antt =====
-- A constraint that is taken apart for a mount and made again.
use rivaas.Prelude.{◌≡◌, refl, [], ◌∷◌, ◌++◌, some, Bytes}
use rivaas.Router.Constraints.{anchored, before_dollar, extract_constraint_pattern}

before_dollar-append : (pattern : Bytes) → before_dollar (pattern ++ b'$' ∷ []) ≡ some pattern
unfolding before_dollar
before_dollar-append [] = refl
before_dollar-append (a ∷ []) = refl
before_dollar-append (a ∷ b ∷ s) = rw (before_dollar-append (b ∷ s)) refl

-- The pattern of a constraint that was made from a pattern is that pattern, whatever it holds.
pub extract_constraint_pattern-anchored :
    (pattern : Bytes) → extract_constraint_pattern (anchored pattern) ≡ pattern
unfolding extract_constraint_pattern anchored
extract_constraint_pattern-anchored pattern = rw (before_dollar-append pattern) refl
