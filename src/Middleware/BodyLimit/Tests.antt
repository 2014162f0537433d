-- ===== src/Middleware/BodyLimit/Tests.antt =====
-- Bodies that are kept in memory, and a client that reads them.
use rivaas.Prelude.{
  ℕ, zero, suc, ◌≤◌, ◌<◌, ◌≡◌, refl, ap, true, List, [], ◌∷◌, ◌++◌, none, some, arith, length, take,
  drop, Bytes, codes,
}
use rivaas.Middleware.BodyLimit.{eof, limit_exceeded, Read, LimitedReader, Config}
use rivaas.Middleware.BodyLimit.Whole.{IsProgress, IsSteady, drain, delivered, delivered-within}

-- A reader of a text, like strings.Reader.
memory : ℕ → Bytes → Read Bytes
memory size [] = ([], [], some eof)
memory size (a ∷ s) = (drop size (a ∷ s), take size (a ∷ s), none)

take-drop : (n : ℕ) (s : Bytes) → s ≡ take n s ++ drop n s
take-drop zero s = refl
take-drop (suc n) [] = refl
take-drop (suc n) (a ∷ s) = ap (λ l. a ∷ l) (take-drop n s)

length-take : (n : ℕ) (s : Bytes) → length (take n s) ≤ n
length-take zero s = omega arith
length-take (suc n) [] = omega arith
length-take (suc n) (a ∷ s) = omega (arith, length-take n s)

memory-next : (size : ℕ) (s : Bytes) → s ≡ (memory size s).1 ++ (memory size s).0
unfolding memory
memory-next size [] = refl
memory-next size (a ∷ s) = take-drop size (a ∷ s)

memory-fits : (size : ℕ) (s : Bytes) → length (memory size s).1 ≤ size
unfolding memory
memory-fits size [] = omega arith
memory-fits size (a ∷ s) = length-take size (a ∷ s)

memory-IsProgress :
    (size : ℕ) (s : Bytes)
    → 0 < size
    → IsProgress (memory size s).1 (memory size s).0 (memory size s).2
unfolding memory
memory-IsProgress size [] h = refl
memory-IsProgress zero (a ∷ s) h = absurd (omega arith)
memory-IsProgress (suc n) (a ∷ s) h = omega arith

memory-IsSteady : IsSteady memory (λ s. s)
memory-IsSteady = record {
  next_bytes = memory-next;
  fits = memory-fits;
  progress = memory-IsProgress;
}

abbrev cfg : Config
cfg = record { limit = 4; skip_paths = (codes "/upload", true) ∷ [] }

abbrev sizes : List ℕ
sizes = 3 ∷ 5 ∷ 1 ∷ 2 ∷ 2 ∷ 2 ∷ 2 ∷ []

abbrev fresh : LimitedReader Bytes
fresh = record { reader = codes "hello"; limit = 4; read_so_far = 0 }

too_long : drain memory sizes fresh ≡ some (codes "hell", limit_exceeded)
unfolding drain memory
too_long = refl

-- A reader may return nothing and no error. If it does so when the limit is reached, the byte after the
-- limit is not seen, and the next Read says that the body ended.
abbrev hesitant : ℕ → ℕ × Bytes → Read (ℕ × Bytes)
hesitant size (zero, s) = ((1, drop size s), take size s, none)
hesitant size (suc zero, s) = ((2, s), [], none)
hesitant size (suc (suc n), s) = ((2, drop size s), take size s, none)

truncated :
    drain hesitant sizes (record { reader = (0, codes "hello"); limit = 3; read_so_far = 0 })
    ≡ some (codes "hel", eof)
unfolding drain
truncated = refl

delivered-within_example :
    let got = delivered memory sizes fresh in
    (length got ≤ 4) × ((rest : Bytes) × (codes "hello" ≡ got ++ rest))
delivered-within_example = delivered-within memory (λ s. s) 4 (codes "hello") sizes memory-IsSteady
