-- ===== src/Router/Accept/Calls.antt =====
-- Calls of Accepts answer as if nothing were kept.
use rivaas.Prelude.{
  ℕ, ◌+◌, ◌≡◌, ◌⊎◌, refl, ap, ◌∙◌, List, [], ◌∷◌, ◌++◌, append-nil, map, Option, none, some, arith,
  leb, if◌then◌else◌, ◌>>=◌, length, take, drop, take-append, Bytes, eqb_refl, is_empty, Bool-cases,
  inl, inr,
}
use rivaas.Router.Accept.Parse.{AcceptSpec, parse_accept}
use rivaas.Router.Accept.Choice.{choose}
use rivaas.Router.Accept.Cache.{
  Slice, Cells, Request, new_request, contents, write, cells_of, cached, parse_and_cache, specs_for,
  accepts,
}

contents-write :
    (specs : List AcceptSpec) (cells : Cells)
    → contents (write specs cells).0 (write specs cells).1 ≡ specs
unfolding write contents
contents-write specs cells = elim (Bool-cases (leb (length specs) 16)) [
  | inl few ↦ rw few (
      ap (λ n. take n (specs ++ drop (length specs) cells))
        (let e : length specs ≡ length specs + 0 = omega arith in e)
      ∙ take-append 0 specs (drop (length specs) cells)
      ∙ append-nil specs)
  | inr many ↦ rw many refl
]

-- The answer by the parts of the header.
unfoldable pub plain : Bytes → List AcceptSpec → List Bytes → Bytes
plain header specs [] = []
plain header specs (first ∷ offers) = if is_empty header then first else choose first offers specs

module _ (thousandth : ℕ) (parse_float : Bytes → Option ℕ) (pool : Cells) (header : Bytes) where
  -- Calls of Accepts for one request, one after the other.
  unfoldable pub accept_each : List (List Bytes) → Request → Option (List Bytes)
  unfolding accepts
  accept_each [] c = some []
  accept_each (offers ∷ calls) c = do
    found ← accepts thousandth parse_float pool header offers c
    answers ← accept_each calls found.0
    some (found.1 ∷ answers)

  -- What is kept for the header are its parts.
  abbrev IsIntact : List AcceptSpec → Request → Type 0
  IsIntact specs c =
      (cached thousandth parse_float pool header c ≡ none)
      ⊎ (cached thousandth parse_float pool header c ≡ some specs)

  cached_self :
      (cells : Cells) (slice : Slice)
      → cached thousandth parse_float pool header
          (record { arena = some cells; cached_header = header; cached_specs = some slice })
        ≡ some (contents cells slice)
  unfolding cached cells_of
  cached_self cells slice = rw (eqb_refl header) refl

  new_request-cached : cached thousandth parse_float pool header new_request ≡ none
  unfolding cached
  new_request-cached = ground arith

  specs_for-IsIntact :
      (specs : List AcceptSpec) (c : Request)
      → parse_accept thousandth parse_float header ≡ some specs
      → IsIntact specs c
      → (c' : Request) × (specs_for thousandth parse_float pool header c ≡ some (c', specs))
        × (cached thousandth parse_float pool header c' ≡ some specs)
  unfolding specs_for parse_and_cache
  specs_for-IsIntact specs c parsed (inr kept) = (c, rw (specs_for, kept) refl, kept)
  specs_for-IsIntact specs c parsed (inl new) =
      let written = write specs (cells_of thousandth parse_float pool c) in
      let c' : Request = record {
        arena = some written.0;
        cached_header = header;
        cached_specs = some written.1;
      } in
      let same = contents-write specs (cells_of thousandth parse_float pool c) in
      let stored : parse_and_cache thousandth parse_float pool header c ≡ some (c', specs) =
        rw parsed (ap (λ l. some (c', l)) same) in
      (c', rw (specs_for, new) stored, cached_self written.0 written.1 ∙ ap some same)

  accepts-plain :
      (specs : List AcceptSpec) (offers : List Bytes) (c : Request)
      → parse_accept thousandth parse_float header ≡ some specs
      → IsIntact specs c
      → (c' : Request) × (accepts thousandth parse_float pool header offers c
          ≡ some (c', plain header specs offers))
        × IsIntact specs c'
  unfolding accepts plain
  accepts-plain specs [] c parsed intact = (c, refl, intact)
  accepts-plain specs (first ∷ offers) c parsed intact = elim (Bool-cases (is_empty header)) [
    | inl empty ↦ (c, rw empty refl, intact)
    | inr named ↦
        let (c', found, kept) = specs_for-IsIntact specs c parsed intact in
        (c', rw (named, found) refl, inr kept)
  ]

  accept_each-plain_from :
      (specs : List AcceptSpec) (calls : List (List Bytes)) (c : Request)
      → parse_accept thousandth parse_float header ≡ some specs
      → IsIntact specs c
      → accept_each calls c ≡ some (map (plain header specs) calls)
  unfolding accept_each
  accept_each-plain_from specs [] c parsed intact = refl
  accept_each-plain_from specs (offers ∷ calls) c parsed intact =
      let (c', found, intact') = accepts-plain specs offers c parsed intact in
      rw (found, accept_each-plain_from specs calls c' parsed intact') refl

-- On a new request any calls of Accepts, with no call for another header between them, answer as the
-- parts of the Accept header say, whatever the arena held before and however many parts there are.
pub accept_each-plain :
    (thousandth : ℕ) (parse_float : Bytes → Option ℕ) (pool : Cells) (header : Bytes)
    (specs : List AcceptSpec) (calls : List (List Bytes))
    → parse_accept thousandth parse_float header ≡ some specs
    → accept_each thousandth parse_float pool header calls new_request
      ≡ some (map (plain header specs) calls)
accept_each-plain thousandth parse_float pool header specs calls parsed =
    accept_each-plain_from thousandth parse_float pool header specs calls new_request parsed
      (inl (new_request-cached thousandth parse_float pool header))
