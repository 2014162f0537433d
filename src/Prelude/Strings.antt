-- ===== src/Prelude/Strings.antt =====
-- The functions of the Go package `strings` that the router calls, over bytes.
use Prim.Native.Nat.{ℕ}
use mathlib.Core.Path.{◌≡◌, refl, ap, ◌∙◌}
use mathlib.Core.Logic.{◌≢◌}
use mathlib.Core.Bool.{Bool, true, false, ◌&&◌, ◌||◌}
use mathlib.Core.List.{List, [], ◌∷◌, ◌++◌, reverse}
use mathlib.Core.Option
use mathlib.Core.Option.{Option, none, some}
use native.Mathlib.Omega.{arith}
use rivaas.Prelude.Tests.{◌==◌, if◌then◌else◌}
use rivaas.Prelude.Lists.{All}
use rivaas.Prelude.Text.{Bytes, eqb}

-- strings.Contains(s, c) for a text of one byte
unfoldable pub contains : ℕ → Bytes → Bool
contains c [] = false
contains c (a ∷ s) = (a == c) || contains c s

unfoldable pub has_prefix : Bytes → Bytes → Bool
has_prefix s [] = true
has_prefix [] (_ ∷ _) = false
has_prefix (a ∷ s) (b ∷ p) = (a == b) && has_prefix s p

unfoldable pub has_suffix : Bytes → Bytes → Bool
has_suffix [] p = eqb [] p
has_suffix (a ∷ s) p = eqb (a ∷ s) p || has_suffix s p

-- strings.CutSuffix(s, p): what stands before the suffix, if it is there
unfoldable pub cut_suffix : Bytes → Bytes → Option Bytes
cut_suffix [] p = if eqb [] p then some [] else none
cut_suffix (a ∷ s) p =
    if eqb (a ∷ s) p then some [] else Option.map (λ pre. a ∷ pre) (cut_suffix s p)

-- The segments of a path: strings.Split(s, "/") for c = '/'. There is always one at least.
unfoldable pub prepend : ℕ → List Bytes → List Bytes
prepend a [] = (a ∷ []) ∷ []
prepend a (seg ∷ segs) = (a ∷ seg) ∷ segs

unfoldable pub split : ℕ → Bytes → List Bytes
split c [] = [] ∷ []
split c (a ∷ s) = if a == c then [] ∷ split c s else prepend a (split c s)

-- strings.Join(segs, c)
unfoldable pub join : ℕ → List Bytes → Bytes
join c [] = []
join c (seg ∷ []) = seg
join c (seg ∷ next ∷ segs) = seg ++ c ∷ join c (next ∷ segs)

-- strings.TrimLeft and strings.Trim with a cutset of one byte
unfoldable pub trim_left : ℕ → Bytes → Bytes
trim_left c [] = []
trim_left c (a ∷ s) = if a == c then trim_left c s else a ∷ s

unfoldable pub trim : ℕ → Bytes → Bytes
unfolding trim_left
trim c s = reverse (trim_left c (reverse (trim_left c s)))

-- No segment holds the separator.
abbrev pub IsFree : ℕ → Bytes → Type 0
IsFree c s = All (λ a. a ≢ c) s

split-append : (c : ℕ) (s t : Bytes) → IsFree c s → split c (s ++ c ∷ t) ≡ s ∷ split c t
unfolding split prepend
split-append c [] t h = ground arith
split-append c (a ∷ s) t h = ground (arith, split-append c s t h.1)

pub split-IsFree : (c : ℕ) (s : Bytes) → IsFree c s → split c s ≡ s ∷ []
unfolding split prepend
split-IsFree c [] h = refl
split-IsFree c (a ∷ s) h = ground (arith, split-IsFree c s h.1)

-- A joined list of segments splits into the same segments.
pub split-join :
    (c : ℕ) (seg : Bytes) (segs : List Bytes)
    → All (IsFree c) (seg ∷ segs)
    → split c (join c (seg ∷ segs)) ≡ seg ∷ segs
unfolding join
split-join c seg [] h = split-IsFree c seg h.0
split-join c seg (next ∷ segs) h =
    split-append c seg (join c (next ∷ segs)) h.0 ∙ ap (λ r. seg ∷ r) (split-join c next segs h.1)

join-prepend : (c a : ℕ) (segs : List Bytes) → join c (prepend a segs) ≡ a ∷ join c segs
unfolding join prepend
join-prepend c a [] = refl
join-prepend c a (seg ∷ []) = refl
join-prepend c a (seg ∷ next ∷ segs) = refl

prepend-ne-nil : (a : ℕ) (segs : List Bytes) → prepend a segs ≢ []
unfolding prepend
prepend-ne-nil a [] h = cc
prepend-ne-nil a (seg ∷ segs) h = cc

pub split-ne-nil : (c : ℕ) (s : Bytes) → split c s ≢ []
unfolding split
split-ne-nil c [] = ground arith
split-ne-nil c (a ∷ s) = ground (arith, prepend-ne-nil a (split c s))

join-cons_nil : (c : ℕ) (segs : List Bytes) → segs ≢ [] → join c ([] ∷ segs) ≡ c ∷ join c segs
unfolding join
join-cons_nil c [] h = absurd (h refl)
join-cons_nil c (seg ∷ segs) h = refl

-- Splitting loses nothing.
pub join-split : (c : ℕ) (s : Bytes) → join c (split c s) ≡ s
unfolding split join
join-split c [] = refl
join-split c (a ∷ s) = ground (
  arith,
  join-prepend c a (split c s),
  join-cons_nil c (split c s) (split-ne-nil c s),
  join-split c s,
)
