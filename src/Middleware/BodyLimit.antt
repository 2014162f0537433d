-- ===== src/Middleware/BodyLimit.antt =====
-- The limit on request bodies (middleware/bodylimit/bodylimit.go). The reader of the body is Go's:
-- its Read is a parameter, a function of its state and the length of the buffer.
pub mod Whole
pub mod Drained
mod Tests
use rivaas.Prelude.{
  ℕ, ◌+◌, ◌-◌, ◌≤◌, ◌<◌, ◌≡◌, ◌≢◌, min, Bool, true, false, ◌&&◌, List, [], ◌∷◌, ◌++◌, Option, none,
  some, if◌then◌else◌, leb, ltb, length, Bytes, find_key,
}
use rivaas.Prelude.Int.{ℤ, pos, ltb_ℤ}

-- The errors of a Read: io.EOF, ErrBodyLimitExceeded and any other.
pub data ReadError : Type 0 where
  eof : ReadError
  limit_exceeded : ReadError
  failed : ReadError

-- What a Read returns: the reader after it, what is in the buffer, and the error.
abbrev pub Read : Type 0 → Type 0
Read R = R × Bytes × Option ReadError

-- limitedReader
pub record LimitedReader (R : Type 0) : Type 0 where
  pub reader : R
  pub limit : ℕ
  pub read_so_far : ℕ

-- What the one byte after the limit tells.
unfoldable pub after_extra : Bytes → Option ReadError → Option ReadError
after_extra [] (some eof) = some eof
after_extra [] _ = none
after_extra (_ ∷ _) e = some limit_exceeded

-- The count of what was read grows with every Read of the reader.
unfoldable pub advance : {R : Type 0} → LimitedReader R → Read R → LimitedReader R
advance lr got = record lr { reader = got.0; read_so_far = lr.read_so_far + length got.1 }

module _ {R : Type 0} (read_from : ℕ → R → Read R) where
  unfoldable pub check_extra : LimitedReader R → Bytes → Read (LimitedReader R)
  unfolding after_extra
  check_extra lr bytes =
      let (reader, extra, e) = read_from 1 lr.reader in
      (record lr { reader = reader }, bytes, after_extra extra e)

  unfoldable pub after_read : LimitedReader R → Bytes → Option ReadError → Read (LimitedReader R)
  unfolding check_extra
  after_read lr bytes (some e) = (lr, bytes, some e)
  after_read lr bytes none =
      if leb lr.limit lr.read_so_far then check_extra lr bytes else (lr, bytes, none)

  -- limitedReader.Read with a buffer of `size` bytes
  unfoldable pub read : ℕ → LimitedReader R → Read (LimitedReader R)
  unfolding after_read advance
  read size lr =
      if leb lr.limit lr.read_so_far
      then (lr, [], some eof)
      else let got = read_from (min size (lr.limit - lr.read_so_far)) lr.reader in
        after_read (advance lr got) got.1 got.2

-- The configuration: the paths without a limit are the keys of a map.
pub record Config : Type 0 where
  pub limit : ℕ
  pub skip_paths : List (Bytes × Bool)

-- What the handler does: it refuses the request, or goes on with the body, limited or not.
pub data Admission (R : Type 0) : Type 0 where
  refused : Admission R
  unlimited : Option R → Admission R
  limited : Option (LimitedReader R) → Admission R

unfoldable pub wrap_body : {R : Type 0} → ℕ → Option R → Option (LimitedReader R)
wrap_body limit none = none
wrap_body limit (some body) = some record { reader = body; limit = limit; read_so_far = 0 }

-- Whether the header Content-Length, which strconv.ParseInt reads, is a number over the limit.
unfoldable pub is_too_long : (Bytes → Option ℤ) → ℕ → Bytes → Bool
is_too_long parse_int limit [] = false
is_too_long parse_int limit (c ∷ header) = elim (parse_int (c ∷ header)) [
  | none ↦ false
  | some size ↦ ltb_ℤ (pos limit) size
]

-- The handler of New
unfoldable pub admit :
    {R : Type 0} → (Bytes → Option ℤ) → Config → Bytes → Bytes → Option R → Admission R
unfolding wrap_body is_too_long find_key
admit parse_int cfg path content_length body = elim (find_key path cfg.skip_paths) [
  | some true ↦ unlimited body
  | _ ↦
      if is_too_long parse_int cfg.limit content_length
      then refused
      else limited (wrap_body cfg.limit body)
]
