-- ===== src/Router/Constraints.antt =====
-- Constraints on route parameters (router/route/constraint.go, ConstraintFromPattern of
-- router/route/registrar.go, ExtractConstraintPattern of router/route/mount.go). The package regexp
-- is a parameter: `compile` gives what MatchString of a compiled text answers, or an error.
pub mod Patterns
use rivaas.Prelude.{
  Bool, List, [], ◌∷◌, ◌++◌, Option, none, some, ◌>>=◌, ◌==◌, if◌then◌else◌, Bytes, codes, map,
}
use rivaas.Router.Radix.{Constraint}

-- ParamConstraint, by its kind
pub data ParamConstraint : Type 0 where
  unconstrained : ParamConstraint
  int : ParamConstraint
  float : ParamConstraint
  uuid : ParamConstraint
  regex : Bytes → ParamConstraint
  enum : List Bytes → ParamConstraint
  date : ParamConstraint
  date_time : ParamConstraint

-- A constraint with the text of its regular expression, which the package keeps.
pub record Compiled : Type 0 where
  pub param : Bytes
  pub text : Bytes
  pub match_string : Bytes → Bool

abbrev pub constraint_of : Compiled → Constraint
constraint_of c = record { param = c.param; match_string = c.match_string }

-- strings.Join(values, "|")
unfoldable pub alternatives : List Bytes → Bytes
alternatives [] = []
alternatives (v ∷ []) = v
alternatives (v ∷ w ∷ vs) = v ++ b'|' ∷ alternatives (w ∷ vs)

-- "^" + pattern + "$"
unfoldable pub anchored : Bytes → Bytes
anchored pattern = b'^' ∷ pattern ++ b'$' ∷ []

-- pattern[1 : len(pattern)-1] of a text that ends in '$', after its first byte
unfoldable pub before_dollar : Bytes → Option Bytes
before_dollar [] = none
before_dollar (a ∷ []) = if a == b'$' then some [] else none
before_dollar (a ∷ b ∷ s) = before_dollar (b ∷ s) >>= λ init. some (a ∷ init)

unfoldable pub or_text : Bytes → Option Bytes → Bytes
or_text text none = text
or_text text (some pattern) = pattern

-- ExtractConstraintPattern, of the text of the expression
unfoldable pub extract_constraint_pattern : Bytes → Bytes
unfolding before_dollar or_text
extract_constraint_pattern [] = []
extract_constraint_pattern (a ∷ s) = if a == b'^' then or_text (a ∷ s) (before_dollar s) else a ∷ s

module _ (quote_meta : Bytes → Bytes) (compile : Bytes → Option (Bytes → Bool)) where
  -- The pattern of a kind.
  unfoldable pub pattern_of : ParamConstraint → Option Bytes
  unfolding alternatives
  pattern_of unconstrained = none
  pattern_of int = some (codes "\\d+")
  pattern_of float = some (codes "-?(?:\\d+\\.?\\d*|\\.\\d+)(?:[eE][+-]?\\d+)?")
  pattern_of uuid = some (
      codes
        "[0-9a-fA-F]{8}-[0-9a-fA-F]{4}-[1-5][0-9a-fA-F]{3}-[89abAB][0-9a-fA-F]{3}-[0-9a-fA-F]{12}")
  pattern_of (regex pattern) = some pattern
  pattern_of (enum values) = some (b'(' ∷ alternatives (map quote_meta values) ++ b')' ∷ [])
  pattern_of date = some (codes "\\d{4}-\\d{2}-\\d{2}")
  pattern_of date_time =
      some (codes "\\d{4}-\\d{2}-\\d{2}T\\d{2}:\\d{2}:\\d{2}(?:\\.\\d+)?(?:Z|[+-]\\d{2}:\\d{2})")

  -- ConstraintFromPattern; `none` is its panic
  unfoldable pub constraint_from_pattern : Bytes → Bytes → Option Compiled
  unfolding anchored
  constraint_from_pattern param pattern = compile (anchored pattern) >>= λ match_string.
      some (record { param = param; text = anchored pattern; match_string = match_string })

  -- ToRegexConstraint: a pattern that does not compile gives no constraint.
  unfoldable pub to_regex_constraint : Bytes → ParamConstraint → Option Compiled
  unfolding pattern_of constraint_from_pattern
  to_regex_constraint name pc = pattern_of pc >>= λ pattern. constraint_from_pattern name pattern

  unfoldable pub add_constraint : Option Compiled → List Compiled → List Compiled
  add_constraint none cs = cs
  add_constraint (some c) cs = c ∷ cs

  -- convertTypedConstraintsToRegex
  unfoldable pub convert_typed_constraints : List (Bytes × ParamConstraint) → List Compiled
  unfolding to_regex_constraint add_constraint
  convert_typed_constraints [] = []
  convert_typed_constraints ((name, pc) ∷ typed) =
      add_constraint (to_regex_constraint name pc) (convert_typed_constraints typed)
