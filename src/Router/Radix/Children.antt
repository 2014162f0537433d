-- ===== src/Router/Radix/Children.antt =====
-- The edges of a node: what is found after `enter_child`.
use mathlib.Core.Option
use rivaas.Prelude.{◌≡◌, refl, some, arith, if◌then◌else◌, Bytes, eqb, eqb_iff}
use rivaas.Router.Radix.Defs.{Node, Edges, no_edges, edge, find_child, enter_child, empty_node}

module _ {ℓ} {H : Type ℓ} where
  -- The child that `enter_child` goes on from.
  unfoldable pub child_of : Bytes → Edges H → Node H
  unfolding find_child
  child_of s es = Option.get_or (find_child s es) empty_node

  pub find_child-enter_child :
      (s t : Bytes) (k : Node H → Node H) (es : Edges H)
      → find_child t (enter_child s k es)
        ≡ (if eqb s t then some (k (child_of s es)) else find_child t es)
  unfolding find_child enter_child child_of
  find_child-enter_child s t k no_edges = refl
  find_child-enter_child s t k (edge label n es) =
      ground (arith, eqb_iff label s, eqb_iff label t, eqb_iff s t, find_child-enter_child s t k es)
