-- ===== src/Router/Quality/Tests.antt =====
-- Runs of parseQuality.
use rivaas.Prelude.{◌≡◌, refl, some, none, codes}
use rivaas.Router.Quality.{parse_quality}

one_half : parse_quality (codes "0.5") ≡ some 500
unfolding parse_quality
one_half = refl

above_one : parse_quality (codes "1.5") ≡ none
unfolding parse_quality
above_one = refl

-- The grammar of the comment has it.
bare_dot : parse_quality (codes "1.") ≡ none
unfolding parse_quality
bare_dot = refl
