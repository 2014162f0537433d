-- ===== src/Router/Chain/Progress.antt =====
-- The chain runs to its end: the loop stops by its own tests, and leaves no handler out.
use rivaas.Prelude.{
  ℕ, zero, suc, ◌+◌, ◌-◌, ◌≤◌, ◌<◌, ◌≡◌, refl, ap, ◌⊎◌, inl, inr, Bool, true, false, List, [], ◌∷◌,
  arith, length, get_elem?, Bool-cases, Option-cases, get_elem?-none,
}
use rivaas.Router.Chain.Rule.{Keeps, run_keeps, loop_keeps}
use rivaas.Router.Chain.{
  Handler, Event, started, worked, aborting, Chain, initial, call_next, advance, start, stopped,
  loop, run,
}

-- One of the tests by which the loop of `Next` ends: no handler is left, or the chain was stopped.
abbrev pub Ended : Chain → Type 0
Ended c = (length c.handlers < c.index) ⊎ (stopped c ≡ true)

abbrev Grown : Chain → Chain → Type 0
Grown c d = (d.handlers ≡ c.handlers) × (c.index ≤ d.index)

Grown-keeps : (c : Chain) → Keeps (Grown c)
Grown-keeps c = record {
  advances = λ d g. (g.0, omega arith);
  starts = λ d h g e s. (g.0, omega arith);
  within = record { works = λ d n g. g; cancels = λ d g. g; aborts = λ d g. g };
}

-- After the handler at the index one round less is enough.
rounds_left :
    (c d : Chain) (rounds : ℕ)
    → Grown (start (advance c)) d
    → length c.handlers ≤ c.index + suc rounds
    → length d.handlers ≤ d.index + rounds
rounds_left c d rounds g h = omega (arith, ap length g.0)

loop-Ended :
    (rounds : ℕ) (c : Chain)
    → length c.handlers ≤ c.index + rounds
    → Ended (loop rounds (advance c))
unfolding loop
loop-Ended zero c h = inl (omega arith)
loop-Ended (suc rounds) c h = elim (Option-cases (get_elem? c.handlers (c.index + 1 - 1))) [
  | inl e ↦ rw (e, loop) (inl (omega (arith, get_elem?-none c.handlers (c.index + 1 - 1) e)))
  | inr (g, e) ↦ elim (Bool-cases (stopped (advance c))) [
    | inl s ↦ rw (e, loop, s) (inr s)
    | inr s ↦
        rw (e, loop, s)
          (loop-Ended rounds (run (λ d. loop rounds (advance d)) g (start (advance c))) (
            rounds_left c (run (λ d. loop rounds (advance d)) g (start (advance c))) rounds
              (run_keeps (Grown-keeps (start (advance c))).within (λ d. loop rounds (advance d))
                (loop_keeps (Grown-keeps (start (advance c))) rounds) g (start (advance c))
                (refl, omega arith))
              h))
  ]
]

-- `Next` always ends by one of its own tests: the index has passed the last handler, or the chain
-- was aborted, or its request cancelled while cancellation is checked.
pub call_next-Ended : (hs : List Handler) (check : Bool) → Ended (call_next (initial hs check))
unfolding call_next initial
call_next-Ended hs check = loop-Ended (length hs) (initial hs check) (omega arith)

-- The handler at position i has started.
abbrev pub HasStarted : ℕ → List Event → Type 0
HasStarted i [] = ⊥
HasStarted i (started j ∷ t) = (i ≡ j) ⊎ HasStarted i t
HasStarted i (worked _ ∷ t) = HasStarted i t
HasStarted i (aborting ∷ t) = HasStarted i t

-- Unless the chain was stopped, every handler that the index has passed has started.
abbrev Covered : Chain → Type 0
Covered c = stopped c ≡ false → (i : ℕ) → i < c.index → i < length c.handlers → HasStarted i c.trace

-- Enough rounds are left, and all is covered.
abbrev Enough : ℕ → Chain → Type 0
Enough rounds c = (length c.handlers ≤ c.index + rounds) × Covered c
