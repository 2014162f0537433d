-- ===== src/Router/Chain/Order.antt =====
-- The order in which a chain starts its handlers.
use rivaas.Prelude.{ℕ, ◌+◌, ◌-◌, ◌≤◌, ◌<◌, List, [], ◌∷◌, arith, Bool}
use rivaas.Router.Chain.Rule.{Keeps, call_next_keeps}
use rivaas.Router.Chain.{Handler, Event, started, worked, aborting, Chain, initial, call_next}

-- The started handlers, the last one first, fall strictly, and the first of them is below `bound`.
abbrev pub Ordered : ℕ → List Event → Type 0
Ordered bound [] = Unit
Ordered bound (started i ∷ t) = (i < bound) × Ordered i t
Ordered bound (worked _ ∷ t) = Ordered bound t
Ordered bound (aborting ∷ t) = Ordered bound t

Ordered-mono : (a b : ℕ) (t : List Event) → a ≤ b → Ordered a t → Ordered b t
Ordered-mono a b [] h o = tt
Ordered-mono a b (started i ∷ t) h o = (omega arith, o.1)
Ordered-mono a b (worked _ ∷ t) h o = Ordered-mono a b t h o
Ordered-mono a b (aborting ∷ t) h o = Ordered-mono a b t h o

abbrev pub IsOrdered : Chain → Type 0
IsOrdered c = Ordered c.index c.trace

IsOrdered-keeps : Keeps IsOrdered
IsOrdered-keeps = record {
  advances = λ c o. Ordered-mono c.index (c.index + 1) c.trace (omega arith) o;
  starts =
      λ c h o e s. (omega arith, Ordered-mono c.index (c.index + 1 - 1) c.trace (omega arith) o);
  within = record { works = λ c n o. o; cancels = λ c o. o; aborts = λ c o. o };
}

-- However often the handlers call `Next` and `Abort`, the handlers start in the order of their
-- registration, and none starts twice.
pub call_next-IsOrdered :
    (hs : List Handler) (check : Bool) → IsOrdered (call_next (initial hs check))
unfolding initial
call_next-IsOrdered hs check = call_next_keeps IsOrdered-keeps (initial hs check) tt
