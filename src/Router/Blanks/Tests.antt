-- ===== src/Router/Blanks/Tests.antt =====
-- Runs of trimWhitespace.
use rivaas.Prelude.{◌≡◌, refl, codes}
use rivaas.Router.Blanks.{trim_whitespace}

trims : trim_whitespace (codes "  q=1 ") ≡ (2, 5)
unfolding trim_whitespace
trims = refl
