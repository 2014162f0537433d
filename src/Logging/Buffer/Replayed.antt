-- ===== src/Logging/Buffer/Replayed.antt =====
-- The buffer changes when records are written, and not what is written.
use rivaas.Prelude.{
  ◌≡◌, ◌⊎◌, refl, sym, ap, subst, ◌∙◌, Bool, true, false, List, [], ◌∷◌, ◌++◌, inl, inr,
}
use rivaas.Logging.Buffer.{
  BufferState, Handler, plain, wrapped, Logger, handle_if, handle_buffered, replay, flush, start_of,
  start_buffering, flush_of, flush_buffer, log_by, log,
}

pub data Call (R : Type 0) : Type 0 where
  started : Call R
  flushed : Call R
  logged : R → Call R

unfoldable pub records_of : {R : Type 0} → List (Call R) → List R
records_of [] = []
records_of (started ∷ calls) = records_of calls
records_of (flushed ∷ calls) = records_of calls
records_of (logged r ∷ calls) = r ∷ records_of calls

module _ {U R S : Type 0} (handle : U → R → S → S × Bool) (u : U) where
  unfoldable pub run : List (Call R) → Logger U R S → Logger U R S
  unfolding start_buffering flush_buffer log
  run [] l = l
  run (started ∷ calls) l = run calls (start_buffering handle l)
  run (flushed ∷ calls) l = run calls (flush_buffer handle l).0
  run (logged r ∷ calls) l = run calls (log handle r l)

  -- A logger without a buffer, with the handler `u`.
  unfoldable pub direct : List R → S → S
  direct [] s = s
  direct (r ∷ rs) s = direct rs (handle u r s).0

  module _ (succeeds : (r : R) (s : S) → (handle u r s).1 ≡ true) where
    replay-direct : (rs : List R) (s : S) → (replay handle u rs s).0 ≡ direct rs s
    unfolding replay direct
    replay-direct [] s = refl
    replay-direct (r ∷ rs) s = rw (succeeds r s) (replay-direct rs (handle u r s).0)

    direct-append : (rs more : List R) (s : S) → direct (rs ++ more) s ≡ direct more (direct rs s)
    unfolding direct
    direct-append [] more s = refl
    direct-append (r ∷ rs) more s = direct-append rs more (handle u r s).0

    -- What was written and what waits are what a logger without a buffer writes. Nothing waits where
    -- the buffer is off.
    abbrev Holds : BufferState R → S → S → Type 0
    Holds state s goal =
        (direct state.records s ≡ goal) × ((state.buffering ≡ true) ⊎ (state.records ≡ []))

    abbrev Owes : Handler U → BufferState R → S → S → Type 0
    Owes (plain u') state s goal = (u' ≡ u) × (s ≡ goal)
    Owes (wrapped u') state s goal = (u' ≡ u) × Holds state s goal

    abbrev OwesLogger : Logger U R S → S → Type 0
    OwesLogger l goal = Owes l.handler l.state l.written goal

    handle_if-Holds :
        (on : Bool) (r : R) (state : BufferState R) (s goal : S)
        → state.buffering ≡ on
        → Holds state s goal
        → let (state', s', _) = handle_if handle on u r state s in
          Holds state' s' (handle u r goal).0
    unfolding handle_if direct
    handle_if-Holds true r state s goal e (done, off) =
        (direct-append state.records (r ∷ []) s ∙ ap (λ g. (handle u r g).0) done, inl e)
    handle_if-Holds false r state s goal e (done, inl on) = cc
    handle_if-Holds false r state s goal e (done, inr empty) = (
      ap (λ rs. direct rs (handle u r s).0) empty
          ∙ ap (λ g. (handle u r g).0) (sym (ap (λ rs. direct rs s) empty) ∙ done),
      inr empty,
    )

    log-Owes :
        (h : Handler U) (r : R) (l : Logger U R S) (goal : S)
        → l.handler ≡ h
        → Owes h l.state l.written goal
        → OwesLogger (log_by handle h r l) (handle u r goal).0
    unfolding log_by handle_buffered
    log-Owes (plain u') r l goal e (same, done) =
        subst (λ h. Owes h l.state (handle u' r l.written).0 (handle u r goal).0) (sym e)
          (same, rw (same, done) refl)
    log-Owes (wrapped u') r l goal e (same, held) =
        subst
          (λ v.
            OwesLogger
              (record l {
                state = (handle_buffered handle v r l.state l.written).0;
                written = (handle_buffered handle v r l.state l.written).1;
              })
              (handle u r goal).0)
          (sym same)
          (subst
            (λ h.
              Owes h (handle_buffered handle u r l.state l.written).0
                (handle_buffered handle u r l.state l.written).1 (handle u r goal).0)
            (sym e) (same, handle_if-Holds l.state.buffering r l.state l.written goal refl held))

    start-Owes :
        (h : Handler U) (l : Logger U R S) (goal : S)
        → l.handler ≡ h
        → Owes h l.state l.written goal
        → OwesLogger (start_of handle h l) goal
    unfolding start_of direct
    start-Owes (plain u') l goal e (same, done) = (same, (done, inl refl))
    start-Owes (wrapped u') l goal e (same, (done, off)) =
        subst (λ h. Owes h (record { buffering = true; records = l.state.records }) l.written goal)
          (sym e) (same, (done, inl refl))

    flush-Owes :
        (h : Handler U) (l : Logger U R S) (goal : S)
        → l.handler ≡ h
        → Owes h l.state l.written goal
        → OwesLogger (flush_of handle h l).0 goal × ((flush_of handle h l).0.written ≡ goal)
    unfolding flush_of flush direct
    flush-Owes (plain u') l goal e (same, done) =
        (subst (λ h. Owes h l.state l.written goal) (sym e) (same, done), done)
    flush-Owes (wrapped u') l goal e (same, (done, off)) =
        let all : (replay handle u' l.state.records l.written).0 ≡ goal =
          ap (λ v. (replay handle v l.state.records l.written).0) same
          ∙ replay-direct l.state.records l.written
          ∙ done in
        (
          subst
              (λ h.
                Owes h (record { buffering = false; records = [] })
                  (replay handle u' l.state.records l.written).0 goal)
              (sym e) (same, (all, inr refl)),
          all,
        )

    run-Owes :
        (calls : List (Call R)) (l : Logger U R S) (goal : S)
        → OwesLogger l goal
        → OwesLogger (run calls l) (direct (records_of calls) goal)
    unfolding run start_buffering flush_buffer log records_of direct
    run-Owes [] l goal o = o
    run-Owes (started ∷ calls) l goal o =
        run-Owes calls (start_buffering handle l) goal (start-Owes l.handler l goal refl o)
    run-Owes (flushed ∷ calls) l goal o =
        run-Owes calls (flush_buffer handle l).0 goal (flush-Owes l.handler l goal refl o).0
    run-Owes (logged r ∷ calls) l goal o =
        run-Owes calls (log handle r l) (handle u r goal).0 (log-Owes l.handler r l goal refl o)

-- Whatever calls come before, a logger with a handler that does not fail has written after FlushBuffer
-- what it would have written without a buffer: every record once, in the order of the calls.
pub flush_buffer-run :
    {U R S : Type 0} (handle : U → R → S → S × Bool) (u : U) (calls : List (Call R))
    (state : BufferState R) (s : S)
    → ((r : R) (s : S) → (handle u r s).1 ≡ true)
    → (flush_buffer handle
        (run handle u calls (record { handler = plain u; state = state; written = s }))).0.written
      ≡ direct handle u (records_of calls) s
unfolding flush_buffer
flush_buffer-run handle u calls state s succeeds =
    let owes =
      run-Owes handle u succeeds calls (record { handler = plain u; state = state; written = s }) s
        (refl, refl) in
    (flush-Owes handle u succeeds _ _ _ refl owes).1
