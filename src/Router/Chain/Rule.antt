-- ===== src/Router/Chain/Rule.antt =====
-- The invariant rule of the handler chain: what the single steps keep, `Next` keeps.
use rivaas.Prelude.{
  ℕ, zero, suc, ◌+◌, ◌-◌, ◌≡◌, true, false, ◌∷◌, some, inl, inr, get_elem?, Bool-cases,
  Option-cases,
}
use rivaas.Router.Chain.{
  Handler, done, work, cancel, next, abort, branch, worked, aborting, Chain, run, loop, call_next,
  advance, start, stopped,
}

-- What a handler does of its own keeps `P`.
pub record Works (P : Chain → Type 0) : Type 0 where
  pub works : (c : Chain) (n : ℕ) → P c → P (record c { trace = worked n ∷ c.trace })
  pub cancels : (c : Chain) → P c → P (record c { cancelled = true })
  pub aborts : (c : Chain) → P c → P (record c { aborted = true; trace = aborting ∷ c.trace })

-- So do the steps of the chain.
pub record Keeps (P : Chain → Type 0) : Type 0 where
  pub advances : (c : Chain) → P c → P (advance c)
  pub starts :
      (c : Chain) (h : Handler)
      → P c
      → get_elem? c.handlers (c.index + 1 - 1) ≡ some h
      → stopped (advance c) ≡ false
      → P (start (advance c))
  pub within : Works P

module _ {P : Chain → Type 0} (k : Works P) where
  pub run_keeps :
      (cn : Chain → Chain)
      → ((c : Chain) → P c → P (cn c))
      → (h : Handler) (c : Chain) → P c
      → P (run cn h c)
  unfolding run
  run_keeps cn keep done c p = p
  run_keeps cn keep (work n h) c p = run_keeps cn keep h _ (k.works c n p)
  run_keeps cn keep (cancel h) c p = run_keeps cn keep h _ (k.cancels c p)
  run_keeps cn keep (next h) c p = run_keeps cn keep h (cn c) (keep c p)
  run_keeps cn keep (abort h) c p = run_keeps cn keep h _ (k.aborts c p)
  run_keeps cn keep (branch h g) c p = elim (Bool-cases c.aborted) [
    | inl e ↦ rw (e, run) (run_keeps cn keep h c p)
    | inr e ↦ rw (e, run) (run_keeps cn keep g c p)
  ]

module _ {P : Chain → Type 0} (k : Keeps P) where
  pub loop_keeps : (rounds : ℕ) (c : Chain) → P c → P (loop rounds (advance c))
  unfolding loop
  loop_keeps zero c p = k.advances c p
  loop_keeps (suc rounds) c p = elim (Option-cases (get_elem? c.handlers (c.index + 1 - 1))) [
    | inl e ↦ rw (e, loop) (k.advances c p)
    | inr (h, e) ↦ elim (Bool-cases (stopped (advance c))) [
      | inl s ↦ rw (e, loop, s) (k.advances c p)
      | inr s ↦
          rw (e, loop, s)
            (loop_keeps rounds _ (
              run_keeps k.within (λ d. loop rounds (advance d)) (loop_keeps rounds) h _
                (k.starts c h p e s)))
    ]
  ]

  pub call_next_keeps : (c : Chain) → P c → P (call_next c)
  unfolding call_next
  call_next_keeps c p = loop_keeps _ c p
