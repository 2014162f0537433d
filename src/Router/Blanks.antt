-- ===== src/Router/Blanks.antt =====
-- The bounds of a text without the blanks around it (router/accept.go: trimWhitespace).
pub mod Within
mod Tests
use mathlib.Core.List.{reverse}
use rivaas.Prelude.{ℕ, suc, Bool, ◌&&◌, ◌||◌, [], ◌∷◌, ◌==◌, ltb, if◌then◌else◌, length, Bytes}

unfoldable pub is_blank : ℕ → Bool
is_blank a = a == 32 || a == 9

-- The first loop.
unfoldable pub skip_blanks : Bytes → ℕ
unfolding is_blank
skip_blanks [] = 0
skip_blanks (a ∷ s) = let rest = skip_blanks s in if is_blank a then suc rest else 0

-- The second loop, over what stands before `end`, the last byte first.
unfoldable pub drop_blanks : ℕ → Bytes → ℕ
unfolding is_blank
drop_blanks start [] = 0
drop_blanks start (a ∷ s) =
    let rest = drop_blanks start s in
    if ltb start (suc (length s)) && is_blank a then rest else suc (length s)

unfoldable pub trim_whitespace : Bytes → ℕ × ℕ
unfolding skip_blanks drop_blanks
trim_whitespace s = (skip_blanks s, drop_blanks (skip_blanks s) (reverse s))
