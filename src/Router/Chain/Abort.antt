-- ===== src/Router/Chain/Abort.antt =====
-- What `Abort` does to the handlers that have not started.
use rivaas.Prelude.{◌≡◌, Bool, false, List, [], ◌∷◌, arith}
use rivaas.Router.Chain.Rule.{Keeps, call_next_keeps}
use rivaas.Router.Chain.{
  Handler, Event, started, worked, aborting, Chain, initial, call_next, advance, stopped,
}

-- No call of `Abort` in the trace.
abbrev pub NoAbort : List Event → Type 0
NoAbort [] = Unit
NoAbort (started _ ∷ t) = NoAbort t
NoAbort (worked _ ∷ t) = NoAbort t
NoAbort (aborting ∷ t) = ⊥

-- Every handler started before the first call of `Abort`.
abbrev pub StartsBeforeAbort : List Event → Type 0
StartsBeforeAbort [] = Unit
StartsBeforeAbort (started _ ∷ t) = NoAbort t × StartsBeforeAbort t
StartsBeforeAbort (worked _ ∷ t) = StartsBeforeAbort t
StartsBeforeAbort (aborting ∷ t) = StartsBeforeAbort t

abbrev IsQuiet : Chain → Type 0
IsQuiet c = StartsBeforeAbort c.trace × (c.aborted ≡ false → NoAbort c.trace)

not_stopped : (c : Chain) → stopped c ≡ false → c.aborted ≡ false
unfolding stopped
not_stopped c s = ground arith

IsQuiet-keeps : Keeps IsQuiet
IsQuiet-keeps = record {
  advances = λ c q. q;
  starts = λ c h q e s. ((q.1 (not_stopped (advance c) s), q.0), q.1);
  within = record { works = λ c n q. q; cancels = λ c q. q; aborts = λ c q. (q.0, λ e. cc) };
}

-- Once a handler has called `Abort` no further handler starts, however the handlers nest their
-- calls of `Next`.
pub call_next-StartsBeforeAbort :
    (hs : List Handler) (check : Bool) → StartsBeforeAbort (call_next (initial hs check)).trace
unfolding initial
call_next-StartsBeforeAbort hs check =
    (call_next_keeps IsQuiet-keeps (initial hs check) (tt, λ e. tt)).0
