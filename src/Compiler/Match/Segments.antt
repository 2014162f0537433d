-- ===== src/Compiler/Match/Segments.antt =====
-- The segments of a path in the buffer of `matchAndExtract`.
use rivaas.Prelude.{
  ℕ, zero, suc, ◌+◌, ◌-◌, ◌≤◌, ◌≡◌, refl, ap, ◌∙◌, Bool, true, false, List, [], ◌∷◌, ◌++◌, some,
  arith, ◌==◌, ltb, if◌then◌else◌, length, All, Bytes, is_empty, join, IsFree, Bool-cases, inl, inr,
}
use rivaas.Router.Params.{Params}
use rivaas.Compiler.Route.{CompiledRoute}
use rivaas.Compiler.Match.{
  take_segment, scan_segments, count_slashes, has_slash, after_slash, match_segments, match_at,
  segment_buffer,
}

-- A segment is not empty and holds no slash.
abbrev pub IsSegment : Bytes → Type 0
IsSegment s = (is_empty s ≡ false) × IsFree b'/' s

take_segment-append : (s t : Bytes) → IsFree b'/' s → take_segment (s ++ b'/' ∷ t) ≡ (s, t)
unfolding take_segment
take_segment-append [] t h = refl
take_segment-append (a ∷ s) t h = ground (arith, take_segment-append s t h.1)

take_segment-IsFree : (s : Bytes) → IsFree b'/' s → take_segment s ≡ (s, [])
unfolding take_segment
take_segment-IsFree [] h = refl
take_segment-IsFree (a ∷ s) h = ground (arith, take_segment-IsFree s h.1)

scan_segments-nil : (n : ℕ) → scan_segments n [] ≡ []
unfolding scan_segments
scan_segments-nil zero = refl
scan_segments-nil (suc n) = refl

scan_segments-cons :
    (n : ℕ) (s : Bytes)
    → is_empty s ≡ false
    → scan_segments (suc n) s ≡ (take_segment s).0 ∷ scan_segments n (take_segment s).1
unfolding scan_segments is_empty
scan_segments-cons n [] h = absurd (ground arith)
scan_segments-cons n (a ∷ s) h = refl

is_empty-append : (s t : Bytes) → is_empty s ≡ false → is_empty (s ++ t) ≡ false
unfolding is_empty
is_empty-append [] t h = absurd (ground arith)
is_empty-append (a ∷ s) t h = refl

-- The buffer holds the segments of a path, where they fit.
pub scan_segments-join :
    (n : ℕ) (vs : List Bytes)
    → All IsSegment vs
    → length vs ≤ n
    → scan_segments n (join b'/' vs) ≡ vs
unfolding join
scan_segments-join n [] h k = scan_segments-nil n
scan_segments-join zero (v ∷ vs) h k = absurd (omega arith)
scan_segments-join (suc n) (v ∷ []) ((e, f), h) k =
    scan_segments-cons n v e ∙ rw (take_segment-IsFree v f, scan_segments-nil n)
scan_segments-join (suc n) (v ∷ w ∷ vs) ((e, f), h) k =
    scan_segments-cons n (v ++ b'/' ∷ join b'/' (w ∷ vs))
      (is_empty-append v (b'/' ∷ join b'/' (w ∷ vs)) e)
    ∙ rw (
      take_segment-append v (join b'/' (w ∷ vs)) f,
      scan_segments-join n (w ∷ vs) h (omega arith),
    )

count_slashes-append : (s t : Bytes) → IsFree b'/' s → count_slashes (s ++ t) ≡ count_slashes t
unfolding count_slashes
count_slashes-append [] t h = refl
count_slashes-append (a ∷ s) t h = ground (arith, count_slashes-append s t h.1)

count_slashes-IsFree : (s : Bytes) → IsFree b'/' s → count_slashes s ≡ 0
unfolding count_slashes
count_slashes-IsFree [] h = refl
count_slashes-IsFree (a ∷ s) h = ground (arith, count_slashes-IsFree s h.1)

count_slashes-slash : (s : Bytes) → count_slashes (b'/' ∷ s) ≡ suc (count_slashes s)
unfolding count_slashes
count_slashes-slash s = refl

count_slashes-join :
    (v : Bytes) (vs : List Bytes)
    → All IsSegment (v ∷ vs)
    → count_slashes (join b'/' (v ∷ vs)) ≡ length vs
unfolding join
count_slashes-join v [] ((e, f), h) = count_slashes-IsFree v f
count_slashes-join v (w ∷ vs) ((e, f), h) =
    count_slashes-append v (b'/' ∷ join b'/' (w ∷ vs)) f
    ∙ (count_slashes-slash (join b'/' (w ∷ vs)) ∙ ap suc (count_slashes-join w vs h))

pub length-append_lem : (s t : Bytes) → length (s ++ t) ≡ length s + length t
length-append_lem [] t = omega arith
length-append_lem (a ∷ s) t = omega (arith, length-append_lem s t)

pub length-segment : (v : Bytes) → is_empty v ≡ false → 1 ≤ length v
unfolding is_empty
length-segment [] h = absurd (ground arith)
length-segment (a ∷ v) h = omega arith

length-join :
    (v : Bytes) (vs : List Bytes)
    → All IsSegment (v ∷ vs)
    → suc (length vs + length vs) ≤ length (join b'/' (v ∷ vs))
unfolding join
length-join v [] ((e, f), h) = length-segment v e
length-join v (w ∷ vs) ((e, f), h) =
    omega (
      arith,
      length-append_lem v (b'/' ∷ join b'/' (w ∷ vs)),
      length-segment v e,
      length-join w vs h,
    )

pub if_either {ℓ} : {A : Type ℓ} (b : Bool) (x : A) → (if b then x else x) ≡ x
if_either true x = refl
if_either false x = refl

module _ {ℓ} {H : Type ℓ} where
  -- On a path with a leading slash the tests of length and of slashes come down to the number of
  -- its segments.
  pub match_segments-join :
      (r : CompiledRoute H) (v : Bytes) (vs : List Bytes) (p : Params)
      → All IsSegment (v ∷ vs)
      → r.segment_count ≤ segment_buffer
      → match_segments r (b'/' ∷ join b'/' (v ∷ vs)) p
        ≡ (if suc (length vs) == r.segment_count then match_at r (v ∷ vs) p else some (false, p))
  unfolding match_segments has_slash after_slash count_slashes
  match_segments-join r v vs p h few =
      let path = join b'/' (v ∷ vs) in
      let slashes : count_slashes path ≡ length vs = count_slashes-join v vs h in
      elim (Bool-cases (suc (length vs) == r.segment_count)) [
        | inl same ↦
            let long : ltb (suc (length path)) (r.segment_count + (r.segment_count - 1)) ≡ false =
              ground (arith, length-join v vs h) in
            let scanned : scan_segments 16 path ≡ v ∷ vs =
              scan_segments-join 16 (v ∷ vs) h (ground arith) in
            rw (long, slashes, same, scanned, same)
        | inr other ↦
            rw (slashes, other)
              (if_either (ltb (suc (length path)) (r.segment_count + (r.segment_count - 1)))
                (some (false, p)))
      ]
