-- ===== src/Logging/Batch/Order.antt =====
-- No entry of a batch is lost, repeated or moved before another.
use rivaas.Prelude.{
  ℕ, ◌<◌, ◌≡◌, refl, sym, ap, ◌∙◌, List, [], ◌∷◌, ◌++◌, append-nil, append_assoc, arith, leb,
  length, Bytes, Bool-cases, inl, inr,
}
use rivaas.Logging.Batch.{
  Level, debug, info, warn, error, Entry, BatchLogger, new_batch_logger, tell, write_entries,
  flush_locked, add, flush, close,
}

-- The calls of a batch logger: an entry, or a flush by the ticker or by hand.
pub data Call : Type 0 where
  log : Level → Bytes → List Bytes → Call
  flushed : Call

unfoldable pub run : List Call → BatchLogger → BatchLogger
unfolding add flush
run [] bl = bl
run (log level msg attrs ∷ calls) bl = run calls (add level msg attrs bl)
run (flushed ∷ calls) bl = run calls (flush bl)

-- The entries of the calls, in order.
unfoldable pub logged : List Call → List Entry
logged [] = []
logged (log level msg attrs ∷ calls) =
    record { level = level; msg = msg; attrs = attrs } ∷ logged calls
logged (flushed ∷ calls) = logged calls

keep_level :
    {level : Level} (e : Entry) (output : List Entry)
    → e.level ≡ level
    → output ++ record e { level = level } ∷ [] ≡ output ++ e ∷ []
keep_level e output h = ap (λ l. output ++ record e { level = l } ∷ []) (sym h)

tell-append :
    (level : Level) (e : Entry) (output : List Entry)
    → e.level ≡ level
    → tell level e output ≡ output ++ e ∷ []
unfolding tell
tell-append debug e output h = keep_level e output h
tell-append info e output h = keep_level e output h
tell-append warn e output h = keep_level e output h
tell-append error e output h = keep_level e output h

write_entries-append : (es output : List Entry) → write_entries es output ≡ output ++ es
unfolding write_entries
write_entries-append [] output = sym (append-nil output)
write_entries-append (e ∷ es) output =
    rw (tell-append e.level e output refl)
      (write_entries-append es (output ++ e ∷ []) ∙ append_assoc output (e ∷ []) es)

-- Everything that was told and is held, in order.
abbrev told : BatchLogger → List Entry
told bl = bl.output ++ bl.entries

flush_locked-told : (bl : BatchLogger) → (flush_locked bl).output ≡ told bl
unfolding flush_locked
flush_locked-told bl = write_entries-append bl.entries bl.output

flush-told : (bl : BatchLogger) → told (flush bl) ≡ told bl
unfolding flush flush_locked
flush-told bl = append-nil _ ∙ flush_locked-told bl

add-told :
    (level : Level) (msg : Bytes) (attrs : List Bytes) (bl : BatchLogger)
    → told (add level msg attrs bl)
      ≡ told bl ++ record { level = level; msg = msg; attrs = attrs } ∷ []
unfolding add flush
add-told level msg attrs bl =
    let e : Entry = record { level = level; msg = msg; attrs = attrs } in
    let more = bl.entries ++ e ∷ [] in
    elim (Bool-cases (leb bl.batch_size (length more))) [
      | inl full ↦ rw full (
          flush-told (record bl { entries = more })
          ∙ sym (append_assoc bl.output bl.entries (e ∷ [])))
      | inr room ↦ rw room (sym (append_assoc bl.output bl.entries (e ∷ [])))
    ]

run-told : (calls : List Call) (bl : BatchLogger) → told (run calls bl) ≡ told bl ++ logged calls
unfolding run logged
run-told [] bl = sym (append-nil (told bl))
run-told (log level msg attrs ∷ calls) bl =
    run-told calls (add level msg attrs bl)
    ∙ ap (λ l. l ++ logged calls) (add-told level msg attrs bl)
    ∙ append_assoc (told bl) _ (logged calls)
run-told (flushed ∷ calls) bl =
    run-told calls (flush bl) ∙ ap (λ l. l ++ logged calls) (flush-told bl)

-- The batch is not full.
abbrev HasRoom : ℕ → BatchLogger → Type 0
HasRoom size bl = (bl.batch_size ≡ size) × (length bl.entries < size)

add-HasRoom :
    (size : ℕ) (level : Level) (msg : Bytes) (attrs : List Bytes) (bl : BatchLogger)
    → 0 < size
    → HasRoom size bl
    → HasRoom size (add level msg attrs bl)
unfolding add flush_locked
add-HasRoom size level msg attrs bl positive h = ground arith

run-HasRoom :
    (size : ℕ) (calls : List Call) (bl : BatchLogger)
    → 0 < size
    → HasRoom size bl
    → HasRoom size (run calls bl)
unfolding run flush flush_locked
run-HasRoom size [] bl positive h = h
run-HasRoom size (log level msg attrs ∷ calls) bl positive h =
    run-HasRoom size calls (add level msg attrs bl) positive
      (add-HasRoom size level msg attrs bl positive h)
run-HasRoom size (flushed ∷ calls) bl positive (same, room) =
    run-HasRoom size calls (flush bl) positive (same, positive)

-- After any calls on a new batch logger of a positive size, what was written and what is held are
-- together the entries of the calls in order, fewer than a batch are held, and Close writes them, so that
-- all are written.
pub run-logged :
    (size : ℕ) (calls : List Call)
    → 0 < size
    → ((run calls (new_batch_logger size)).output ++ (run calls (new_batch_logger size)).entries
        ≡ logged calls)
      × (length (run calls (new_batch_logger size)).entries < size)
      × ((close (run calls (new_batch_logger size))).output ≡ logged calls)
      × ((close (run calls (new_batch_logger size))).entries ≡ [])
unfolding new_batch_logger close flush flush_locked
run-logged size calls positive =
    let bl = run calls (new_batch_logger size) in
    let all = run-told calls (new_batch_logger size) in
    let room = run-HasRoom size calls (new_batch_logger size) positive (refl, positive) in
    (all, room.1, flush_locked-told bl ∙ all, refl)
