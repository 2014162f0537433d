-- ===== src/Middleware/BodyLimit/Whole.antt =====
-- What the readers of a limited body get.
use mathlib.Core.Option
use rivaas.Prelude.{
  ℕ, ◌+◌, ◌-◌, ◌≤◌, ◌<◌, ◌≡◌, refl, sym, ap, ◌∙◌, min, true, List, [], ◌∷◌, ◌++◌, append-nil,
  append_assoc, Option, none, some, arith, leb, length, length-append, Bytes, Bool-cases, inl, inr,
}
use rivaas.Middleware.BodyLimit.{
  ReadError, eof, limit_exceeded, failed, Read, LimitedReader, check_extra, after_read, advance,
  read,
}

-- What a Read may return with the rest that it leaves: something, or the end.
abbrev pub IsProgress : Bytes → Bytes → Option ReadError → Type 0
IsProgress bytes rest none = 0 < length bytes
IsProgress bytes rest (some eof) = rest ≡ []
IsProgress bytes rest (some limit_exceeded) = ⊥
IsProgress bytes rest (some failed) = ⊥

-- The documentation of io.Reader, for a body that arrives: a Read returns the next bytes of the
-- content, as many as fit at most, and makes progress with a buffer that is not empty.
pub record IsSteady {R : Type 0} (read_from : ℕ → R → Read R) (content : R → Bytes) : Type 0 where
  pub next_bytes :
      (size : ℕ) (r : R) → content r ≡ (read_from size r).1 ++ content (read_from size r).0
  pub fits : (size : ℕ) (r : R) → length (read_from size r).1 ≤ size
  pub progress :
      (size : ℕ) (r : R)
      → 0 < size
      → IsProgress (read_from size r).1 (content (read_from size r).0) (read_from size r).2

-- A client's next step after a Read: to go on, or to stop at the error.
unfoldable pub resume :
    {R : Type 0}
    → (LimitedReader R → Option (Bytes × ReadError))
    → Read (LimitedReader R)
    → Option (Bytes × ReadError)
resume next (lr, bytes, none) =
    Option.map (λ (p : Bytes × ReadError). (bytes ++ p.0, p.1)) (next lr)
resume next (lr, bytes, some e) = some (bytes, e)

module _ {R : Type 0} (read_from : ℕ → R → Read R) where
  -- A client that reads with buffers of the given sizes until there is an error: what it has then,
  -- and the error. `none` is a client that stopped before.
  unfoldable pub drain : List ℕ → LimitedReader R → Option (Bytes × ReadError)
  unfolding read resume
  drain [] lr = none
  drain (size ∷ sizes) lr = resume (drain sizes) (read read_from size lr)

  -- Everything that Read hands out, also to a client that goes on after an error.
  unfoldable pub delivered : List ℕ → LimitedReader R → Bytes
  unfolding read
  delivered [] lr = []
  delivered (size ∷ sizes) lr =
      let (lr', bytes, e) = read read_from size lr in bytes ++ delivered sizes lr'

module _ {R : Type 0} (read_from : ℕ → R → Read R) where
  -- A Read keeps the limit and counts what it hands out.
  abbrev Counts : LimitedReader R → Read (LimitedReader R) → Type 0
  Counts lr (lr', bytes, e) =
      (lr'.limit ≡ lr.limit)
      × (lr'.read_so_far ≡ lr.read_so_far + length bytes)
      × (lr'.read_so_far ≤ lr.limit)

  after_read-Counts :
      (lr : LimitedReader R) (reader : R) (bytes : Bytes) (e : Option ReadError)
      → lr.read_so_far + length bytes ≤ lr.limit
      → Counts lr (after_read read_from (advance lr (reader, bytes, e)) bytes e)
  unfolding after_read check_extra advance
  after_read-Counts lr reader bytes none h = ground arith
  after_read-Counts lr reader bytes (some e) h = omega arith

  read-Counts :
      (size : ℕ) (lr : LimitedReader R)
      → length (read_from (min size (lr.limit - lr.read_so_far)) lr.reader).1
        ≤ min size (lr.limit - lr.read_so_far)
      → lr.read_so_far ≤ lr.limit
      → Counts lr (read read_from size lr)
  unfolding read
  read-Counts size lr fits h = elim (Bool-cases (leb lr.limit lr.read_so_far)) [
    | inl full ↦ rw full (omega arith)
    | inr room ↦ rw room (
        let got = read_from (min size (lr.limit - lr.read_so_far)) lr.reader in
        after_read-Counts lr got.0 got.1 got.2 (ground arith))
  ]

  delivered-full :
      (sizes : List ℕ) (lr : LimitedReader R)
      → leb lr.limit lr.read_so_far ≡ true
      → delivered read_from sizes lr ≡ []
  unfolding delivered
  delivered-full [] lr full = refl
  delivered-full (size ∷ sizes) lr full = rw full (delivered-full sizes lr full)

module _ {R : Type 0} (read_from : ℕ → R → Read R) (content : R → Bytes)
    (steady : IsSteady read_from content) where
  -- What is handed out begins the content.
  abbrev Begins : Bytes → LimitedReader R → Type 0
  Begins bytes lr = (rest : Bytes) × (content lr.reader ≡ bytes ++ rest)

  Begins-append :
      (bytes more : Bytes) (reader : R) (lr' : LimitedReader R)
      → content reader ≡ bytes ++ content lr'.reader
      → Begins more lr'
      → (rest : Bytes) × (content reader ≡ (bytes ++ more) ++ rest)
  Begins-append bytes more reader lr' e (rest, h) =
      (rest, e ∙ ap (λ l. bytes ++ l) h ∙ sym (append_assoc bytes more rest))

  after_read-Begins :
      (sizes : List ℕ) (lr : LimitedReader R) (reader : R) (bytes : Bytes) (e : Option ReadError)
      → content reader ≡ bytes ++ content lr.reader
      → ((l : LimitedReader R) → Begins (delivered read_from sizes l) l)
      → let (lr', bytes', _) = after_read read_from lr bytes e in
        (rest : Bytes) × (content reader ≡ (bytes' ++ delivered read_from sizes lr') ++ rest)
  unfolding after_read check_extra
  after_read-Begins sizes lr reader bytes (some e) h ih = Begins-append bytes _ reader lr h (ih lr)
  after_read-Begins sizes lr reader bytes none h ih =
      elim (Bool-cases (leb lr.limit lr.read_so_far)) [
        | inl full ↦ rw full (
            rw
              (
                delivered-full read_from sizes (record lr { reader = (read_from 1 lr.reader).0 })
                    full,
                append-nil bytes,
              )
              (content lr.reader, h))
        | inr room ↦ rw room (Begins-append bytes _ reader lr h (ih lr))
      ]

  delivered-Begins :
      (sizes : List ℕ) (lr : LimitedReader R) → Begins (delivered read_from sizes lr) lr
  unfolding delivered read
  delivered-Begins [] lr = (content lr.reader, refl)
  delivered-Begins (size ∷ sizes) lr = elim (Bool-cases (leb lr.limit lr.read_so_far)) [
    | inl full ↦ rw full (delivered-Begins sizes lr)
    | inr room ↦ rw room (
        let room_left = min size (lr.limit - lr.read_so_far) in
        let got = read_from room_left lr.reader in
        after_read-Begins sizes (advance lr got) lr.reader got.1 got.2
          (steady.next_bytes room_left lr.reader) (delivered-Begins sizes))
  ]

  delivered-le :
      (sizes : List ℕ) (lr : LimitedReader R)
      → lr.read_so_far ≤ lr.limit
      → lr.read_so_far + length (delivered read_from sizes lr) ≤ lr.limit
  unfolding delivered
  delivered-le [] lr h = omega arith
  delivered-le (size ∷ sizes) lr h =
      let (same, count, within) = read-Counts read_from size lr (steady.fits _ lr.reader) h in
      let ih = delivered-le sizes (read read_from size lr).0 (omega arith) in
      let len =
        length-append (read read_from size lr).1
          (delivered read_from sizes (read read_from size lr).0) in
      omega arith

-- However often a client reads from the body, also after an error, it gets no more than the limit
-- together, and what it gets begins the content of the body.
pub delivered-within :
    {R : Type 0} (read_from : ℕ → R → Read R) (content : R → Bytes) (limit : ℕ) (body : R)
    (sizes : List ℕ)
    → IsSteady read_from content
    → let got =
        delivered read_from sizes (record { reader = body; limit = limit; read_so_far = 0 }) in
      (length got ≤ limit) × ((rest : Bytes) × (content body ≡ got ++ rest))
delivered-within {R} read_from content limit body sizes steady =
    let lr : LimitedReader R = record { reader = body; limit = limit; read_so_far = 0 } in
    (
      omega (arith, delivered-le read_from content steady sizes lr (omega arith)),
      delivered-Begins read_from content steady sizes lr,
    )
