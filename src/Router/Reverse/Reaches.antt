-- ===== src/Router/Reverse/Reaches.antt =====
-- A URL that is built from a pattern reaches the route of the pattern.
use rivaas.Prelude.{
  ◌≡◌, Bool, false, List, [], ◌∷◌, ◌++◌, some, if◌then◌else◌, Bytes, codes, find_key,
}
use rivaas.Router.Params.{Params}
use rivaas.Router.Radix.{is_param}

-- What net/url does with the path of a URL that it is given as text: the slashes separate, and a
-- segment that was escaped is unescaped.
pub record IsUnescape (path_escape path_unescape : Bytes → Bytes) : Type 0 where
  pub unescape_nil : path_unescape [] ≡ []
  pub unescape_slash : (s : Bytes) → path_unescape (b'/' ∷ s) ≡ b'/' ∷ path_unescape s
  pub unescape_escape : (v s : Bytes) → path_unescape (path_escape v ++ s) ≡ v ++ path_unescape s

-- A parameter, or a literal part that unescaping leaves as it is.
abbrev pub IsKept : (Bytes → Bytes) → Bytes → Type 0
IsKept path_unescape part =
    is_param part ≡ false → (s : Bytes) → path_unescape (part ++ s) ≡ part ++ path_unescape s

-- The map has the value.
abbrev pub IsGiven : List (Bytes × Bytes) → Bytes × Bytes → Type 0
IsGiven params (name, value) = find_key name params ≡ some value

-- What follows the first segments: each of the rest after a slash.
unfoldable joined : Bool → List Bytes → Bytes
joined first [] = []
joined first (v ∷ vs) = ((if first then [] else codes "/") ++ v) ++ joined false vs
