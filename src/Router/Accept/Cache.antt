-- ===== src/Router/Accept/Cache.antt =====
-- The parts of the Accept header that a request's context keeps (router/accept.go: Accepts,
-- AcceptsCharsets and its like). Parts stand in the cells of an arena, which one request has one of: a
-- slice of at most sixteen parts is a view of the first cells, and changes with them.
use mathlib.Core.Option
use rivaas.Prelude.{
  ℕ, List, [], ◌∷◌, ◌++◌, Option, none, some, leb, if◌then◌else◌, ◌>>=◌, length, take, drop, Bytes,
  eqb, is_empty,
}
use rivaas.Router.Accept.Parse.{AcceptSpec, parse_accept}
use rivaas.Router.Accept.Choice.{choose, accept_header_match}

-- A slice of parts: the first cells of the arena, or memory of its own.
pub data Slice : Type 0 where
  view : ℕ → Slice
  own : List AcceptSpec → Slice

abbrev pub Cells : Type 0
Cells = List AcceptSpec

-- The fields of Context: cachedArena, cachedAcceptHeader and cachedAcceptSpecs.
pub record Request : Type 0 where
  pub arena : Option Cells
  pub cached_header : Bytes
  pub cached_specs : Option Slice

abbrev pub new_request : Request
new_request = record { arena = none; cached_header = []; cached_specs = none }

unfoldable pub contents : Cells → Slice → List AcceptSpec
contents cells (view n) = take n cells
contents cells (own specs) = specs

-- getSpecs, and what append does with the parts one after the other: the first sixteen are written to
-- the cells, and with one more they are copied.
unfoldable pub write : List AcceptSpec → Cells → Cells × Slice
write specs cells =
    if leb (length specs) 16
    then (specs ++ drop (length specs) cells, view (length specs))
    else (take 16 specs, own specs)

-- The cells of an arena are whatever the pool gives at first.
module _ (thousandth : ℕ) (parse_float : Bytes → Option ℕ) (pool : Cells) where
  unfoldable pub cells_of : Request → Cells
  cells_of c = elim c.arena [ none ↦ pool | some cells ↦ cells ]

  -- The parts that are kept for the header.
  unfoldable pub cached : Bytes → Request → Option (List AcceptSpec)
  unfolding cells_of contents
  cached header c =
      if eqb c.cached_header header then Option.map (contents (cells_of c)) c.cached_specs else none

  unfoldable pub parse_and_cache : Bytes → Request → Option (Request × List AcceptSpec)
  unfolding cells_of contents write
  parse_and_cache header c = do
    specs ← parse_accept thousandth parse_float header
    let written = write specs (cells_of c)
    some (
      record { arena = some written.0; cached_header = header; cached_specs = some written.1 },
      contents written.0 written.1,
    )

  unfoldable pub specs_for : Bytes → Request → Option (Request × List AcceptSpec)
  unfolding parse_and_cache cached
  specs_for header c = elim (cached header c) [
    | some specs ↦ some (c, specs)
    | none ↦ parse_and_cache header c
  ]

  -- Accepts, where `header` is the Accept header of the request
  unfoldable pub accepts : Bytes → List Bytes → Request → Option (Request × Bytes)
  unfolding specs_for
  accepts header [] c = some (c, [])
  accepts header (first ∷ offers) c =
      if is_empty header
      then some (c, first)
      else specs_for header c >>= λ found. some (found.0, choose first offers found.1)

  -- parseAcceptHeader
  unfoldable pub parse_accept_header : Bytes → Request → Option (Request × List AcceptSpec)
  unfolding cells_of contents write
  parse_accept_header header c =
      if is_empty header
      then some (c, [])
      else parse_accept thousandth parse_float header >>= λ specs.
          let written = write specs (cells_of c) in
          some (record c { arena = some written.0 }, contents written.0 written.1)

  -- AcceptsCharsets, AcceptsEncodings and AcceptsLanguages, each with its header
  unfoldable pub accepts_by_header : Bytes → List Bytes → Request → Option (Request × Bytes)
  unfolding parse_accept_header
  accepts_by_header header offers c =
      parse_accept_header header c >>= λ found. some (found.0, accept_header_match offers found.1)
