-- ===== src/Router/Chain.antt =====
-- The handler chain of a `Context` (router/context.go: Next, Abort, IsAborted). A handler is a Go
-- function, known here by what it does to the context: its own work, and its calls of `Next` and
-- `Abort`, in order. The number that a work step carries names it in the trace.
pub mod Rule
pub mod Order
pub mod Abort
pub mod Progress
mod Tests
use rivaas.Prelude.{
  ℕ, zero, suc, ◌+◌, ◌-◌, ◌≤◌, Bool, true, false, ◌&&◌, not, List, [], ◌∷◌, Option, none, some, ltb,
  if◌then◌else◌, length, get_elem?,
}

pub data Handler : Type 0 where
  -- return
  done : Handler
  -- some work of the handler's own, such as writing to the response, then the rest
  work : ℕ → Handler → Handler
  -- the request's context.Context is cancelled from here on, then the rest
  cancel : Handler → Handler
  -- c.Next(), then the rest
  next : Handler → Handler
  -- c.Abort(), then the rest
  abort : Handler → Handler
  -- if c.IsAborted() { … } else { … }
  branch : Handler → Handler → Handler

-- What can be observed of a run.
pub data Event : Type 0 where
  started : ℕ → Event
  worked : ℕ → Event
  aborting : Event

-- `index` is the field of that name plus one, since it starts at -1. `trace` is no field of the
-- program: it records the run, the last event first.
pub record Chain : Type 0 where
  pub handlers : List Handler
  pub index : ℕ
  pub aborted : Bool
  pub check_cancellation : Bool
  pub cancelled : Bool
  pub trace : List Event

-- A context before its first `Next`.
unfoldable pub initial : List Handler → Bool → Chain
initial handlers check = record {
  handlers = handlers;
  index = 0;
  aborted = false;
  check_cancellation = check;
  cancelled = false;
  trace = [];
}

-- The body of one handler, where `call_next` is what `c.Next()` does.
unfoldable pub run : (Chain → Chain) → Handler → Chain → Chain
run call_next done c = c
run call_next (work n h) c = run call_next h (record c { trace = worked n ∷ c.trace })
run call_next (cancel h) c = run call_next h (record c { cancelled = true })
run call_next (next h) c = run call_next h (call_next c)
run call_next (abort h) c =
    run call_next h (record c { aborted = true; trace = aborting ∷ c.trace })
run call_next (branch h k) c = elim c.aborted [
  | true ↦ run call_next h c
  | false ↦ run call_next k c
]

-- `c.index++`
abbrev pub advance : Chain → Chain
advance c = record c { index = c.index + 1 }

-- The tests of the loop before it starts a handler: `index < handlersLen` is the read itself.
unfoldable pub stopped : Chain → Bool
stopped c = if c.aborted then true else c.check_cancellation && c.cancelled

abbrev pub start : Chain → Chain
start c = record c { trace = started (c.index - 1) ∷ c.trace }

-- The loop of `Next`, for at most `rounds` handlers. `Next` called by a handler goes on from the
-- handler's own index, with one round less.
unfoldable pub loop : ℕ → Chain → Chain
unfolding run stopped
loop zero c = c
loop (suc rounds) c = elim (get_elem? c.handlers (c.index - 1)) [
  | none ↦ c
  | some h ↦ elim (stopped c) [
    | true ↦ c
    | false ↦ loop rounds (advance (run (λ d. loop rounds (advance d)) h (start c)))
  ]
]

-- `Context.Next`. The index never falls, so as many rounds as there are handlers are enough.
unfoldable pub call_next : Chain → Chain
unfolding loop
call_next c = loop (length c.handlers) (advance c)
