-- ===== src/Router/Accept/Parse.antt =====
-- The parts of an Accept header (router/accept.go: parseAccept, parseAcceptPart, parseAcceptParam).
-- A quality is a multiple of a unit that is fine enough for every float64; `thousandth` tells how many
-- make a thousandth. strconv.ParseFloat is a parameter: the value in that unit, and `none` for an error
-- or a negative number. The outer `none` is a panic.
use rivaas.Prelude.{
  ℕ, ◌-◌, ◌*◌, ◌&&◌, List, [], ◌∷◌, Option, none, some, ◌==◌, leb, if◌then◌else◌, ◌>>=◌, take, drop,
  Bytes, codes, eqb, is_empty, split, put_key,
}
use rivaas.Router.Blanks.{trim_whitespace}
use rivaas.Router.Quality.{parse_quality}

pub record AcceptSpec : Type 0 where
  pub value : Bytes
  pub quality : ℕ
  pub params : List (Bytes × Bytes)
  pub raw_quality : Bytes

-- What the bounds of trimWhitespace enclose.
unfoldable pub trimmed : Bytes → Bytes
unfolding trim_whitespace
trimmed s = let (start, end) = trim_whitespace s in take (end - start) (drop start s)

-- What stands before the first `c`, and what stands after it, if there is one.
unfoldable pub cut : ℕ → Bytes → Bytes × Option Bytes
cut c [] = ([], none)
cut c (a ∷ s) =
    let (before, after) = cut c s in if a == c then ([], some s) else (a ∷ before, after)

-- The bytes before the last one, and the last one.
unfoldable pub split_last : ℕ → Bytes → Bytes × ℕ
split_last a [] = ([], a)
split_last a (b ∷ s) = let (before, last) = split_last b s in (a ∷ before, last)

-- A value without its quotes. A quote alone is both the first byte and the last: the bounds that are
-- left are out of order, and the slice panics.
unfoldable pub unquote : Bytes → Option Bytes
unfolding split_last
unquote [] = some []
unquote (a ∷ []) = if a == b'"' then none else some (a ∷ [])
unquote (a ∷ b ∷ s) =
    let (before, last) = split_last b s in
    if (a == b'"') && (last == b'"') then some before else some (a ∷ b ∷ s)

module _ (thousandth : ℕ) (parse_float : Bytes → Option ℕ) where
  unfoldable pub set_quality : Bytes → AcceptSpec → AcceptSpec
  set_quality value spec = elim (parse_quality value) [
    | some q ↦ record spec { raw_quality = value; quality = q * thousandth }
    | none ↦ elim (parse_float value) [
      | some q ↦ record spec {
        raw_quality = value;
        quality = if leb q (1000 * thousandth) then q else spec.quality;
      }
      | none ↦ record spec { raw_quality = value }
    ]
  ]

  unfoldable pub set_param : Bytes → Bytes → AcceptSpec → AcceptSpec
  unfolding set_quality put_key
  set_param key value spec =
      if eqb key (codes "q")
      then set_quality value spec
      else record spec { params = put_key key value spec.params }

  -- The rest of parseAcceptParam, of a parameter with an equals sign.
  unfoldable pub parse_key_value : Bytes → Bytes → AcceptSpec → Option AcceptSpec
  unfolding set_param unquote trimmed
  parse_key_value key value spec =
      if is_empty key
      then some spec
      else if is_empty value
      then some spec
      else unquote value >>= λ v. some (set_param key v spec)

  unfoldable pub parse_accept_param : Bytes → AcceptSpec → Option AcceptSpec
  unfolding parse_key_value cut trimmed
  parse_accept_param param spec =
      let (key, value) = cut b'=' (trimmed param) in
      elim value [ none ↦ some spec | some v ↦ parse_key_value (trimmed key) (trimmed v) spec ]

  -- The loop over the parameters.
  unfoldable pub parse_params : List Bytes → AcceptSpec → Option AcceptSpec
  unfolding parse_accept_param
  parse_params [] spec = some spec
  parse_params (param ∷ params) spec = parse_accept_param param spec >>= parse_params params

  unfoldable pub parse_accept_part : Bytes → Option AcceptSpec
  unfolding parse_params cut trimmed
  parse_accept_part part =
      let (value, params) = cut b';' (trimmed part) in
      let spec : AcceptSpec = record {
        value = value;
        quality = 1000 * thousandth;
        params = [];
        raw_quality = [];
      } in
      elim params [ none ↦ some spec | some ps ↦ parse_params (split b';' ps) spec ]

  -- The loop over the parts. Those without a value are left out.
  unfoldable pub parse_parts : List Bytes → Option (List AcceptSpec)
  unfolding parse_accept_part
  parse_parts [] = some []
  parse_parts (part ∷ parts) = do
    spec ← parse_accept_part part
    specs ← parse_parts parts
    some (if is_empty spec.value then specs else spec ∷ specs)

  -- parseAccept
  unfoldable pub parse_accept : Bytes → Option (List AcceptSpec)
  unfolding parse_parts split
  parse_accept header = parse_parts (split b',' header)
