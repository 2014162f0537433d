-- ===== src/Router/Reverse/Tests.antt =====
-- URLs that are built.
use rivaas.Prelude.{
  ℕ, zero, suc, ◌≡◌, refl, ◌++◌, ◌==◌, if◌then◌else◌, Bytes, [], ◌∷◌, none, codes, eqb, is_empty,
  split, prepend, trim, find_key,
}
use rivaas.Router.Radix.{is_param}
use rivaas.Router.Reverse.{ok, missing, parse_reverse_pattern, build_url}

-- The value of a wildcard has no place in the URL.
wildcard_url :
    build_url
      (λ s. s)
      ((codes "filepath", codes "a.txt") ∷ [])
      none
      (parse_reverse_pattern (codes "/files/*"))
    ≡ ok (codes "/files/*")
unfolding build_url parse_reverse_pattern split prepend trim is_empty is_param
wildcard_url = refl

missing_id :
    build_url
      (λ s. s)
      ((codes "name", codes "42") ∷ [])
      none
      (parse_reverse_pattern (codes "/users/:id"))
    ≡ missing (codes "id")
unfolding build_url parse_reverse_pattern split prepend trim is_empty is_param find_key eqb
missing_id = refl

-- Percent signs are escaped and nothing else.
unfoldable escape_percent : Bytes → Bytes
escape_percent [] = []
escape_percent (a ∷ s) = if a == b'%' then codes "%25" ++ escape_percent s else a ∷ escape_percent s

-- The two bytes behind a percent sign are skipped.
unfoldable unescape_from : ℕ → Bytes → Bytes
unescape_from _ [] = []
unescape_from (suc skip) (a ∷ s) = unescape_from skip s
unescape_from zero (a ∷ s) = a ∷ unescape_from (if a == b'%' then 2 else 0) s
