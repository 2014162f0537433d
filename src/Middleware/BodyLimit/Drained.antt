-- ===== src/Middleware/BodyLimit/Drained.antt =====
-- A client that reads a limited body to its end gets the whole of it, or the error.
use rivaas.Prelude.{ℕ, ◌+◌, ◌-◌, ◌≡◌, Option, some, if◌then◌else◌, leb, length, take, Bytes}
use rivaas.Middleware.BodyLimit.{ReadError, eof, limit_exceeded, Read, LimitedReader}
use rivaas.Middleware.BodyLimit.Whole.{IsSteady}

-- What a client has at the end, of a body of which `c` is still to come.
unfoldable pub outcome : ℕ → ℕ → Bytes → Bytes × ReadError
outcome limit before c =
    if leb (before + length c) limit then (c, eof) else (take (limit - before) c, limit_exceeded)

module _ {R : Type 0} (read_from : ℕ → R → Read R) (content : R → Bytes)
    (steady : IsSteady read_from content) where
  -- The rest of the reading from `lr` on comes to the outcome.
  abbrev Comes : (LimitedReader R → Option (Bytes × ReadError)) → LimitedReader R → Type 0
  Comes next lr = next lr ≡ some (outcome lr.limit lr.read_so_far (content lr.reader))
