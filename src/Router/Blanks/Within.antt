-- ===== src/Router/Blanks/Within.antt =====
-- The bounds lie in the text, and what they enclose begins with no blank.
use mathlib.Core.List.{reverse, reverse_aux}
use rivaas.Prelude.{
  ℕ, ◌+◌, ◌≤◌, ◌<◌, ◌≡◌, refl, false, [], ◌∷◌, some, length, get_elem?, Bytes, arith, inl, inr,
  Bool-cases,
}
use rivaas.Router.Blanks.{is_blank, skip_blanks, drop_blanks, trim_whitespace}

skip_blanks-le : (s : Bytes) → skip_blanks s ≤ length s
unfolding skip_blanks
skip_blanks-le [] = omega arith
skip_blanks-le (a ∷ s) = ground (arith, skip_blanks-le s)

drop_blanks-within :
    (start : ℕ) (s : Bytes)
    → start ≤ length s
    → (start ≤ drop_blanks start s) × (drop_blanks start s ≤ length s)
unfolding drop_blanks
drop_blanks-within start [] h = (omega arith, omega arith)
drop_blanks-within start (a ∷ s) h = ground (arith, drop_blanks-within start s)

length-reverse_aux_lem : (s t : Bytes) → length (reverse_aux s t) ≡ length s + length t
length-reverse_aux_lem [] t = omega arith
length-reverse_aux_lem (a ∷ s) t = omega (arith, length-reverse_aux_lem s (a ∷ t))

skip_blanks-first :
    (s : Bytes)
    → skip_blanks s < length s
    → (a : ℕ) × (get_elem? s (skip_blanks s) ≡ some a) × (is_blank a ≡ false)
unfolding skip_blanks
skip_blanks-first [] h = absurd (omega arith)
skip_blanks-first (a ∷ s) h = elim (Bool-cases (is_blank a)) [
  | inl blank ↦ rw blank (skip_blanks-first s (ground arith))
  | inr other ↦ rw other (a, refl, other)
]

-- The bounds are in order and lie in the text, and what they enclose, if it is not empty, begins
-- with a byte that is no blank.
trim_whitespace-within :
    (s : Bytes)
    → ((trim_whitespace s).0 ≤ (trim_whitespace s).1)
      × ((trim_whitespace s).1 ≤ length s)
      × ((trim_whitespace s).0 < (trim_whitespace s).1
          → (a : ℕ) × (get_elem? s (trim_whitespace s).0 ≡ some a) × (is_blank a ≡ false))
unfolding trim_whitespace
trim_whitespace-within s =
    let same : length (reverse s) ≡ length s = omega (arith, length-reverse_aux_lem s []) in
    let (above, below) =
      drop_blanks-within (skip_blanks s) (reverse s) (omega (arith, same, skip_blanks-le s)) in
    (above, omega (arith, same, below), λ h. skip_blanks-first s (omega (arith, same, below, h)))
