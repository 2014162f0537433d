-- ===== src/Router/Accept/Tests.antt =====
-- Headers and offers. The unit of quality is a thousandth, and no quality needs strconv.ParseFloat.
use rivaas.Prelude.{
  ℕ, ◌≡◌, ◌⊎◌, refl, List, [], ◌∷◌, ◌++◌, map, Option, none, some, ◌>>=◌, Bytes, codes, eqb,
  is_empty, prepend, find_key, has_prefix, All,
}
use rivaas.Compiler.Route.{trim_space}
use rivaas.Router.Quality.{parse_quality}
use rivaas.Router.Accept.Parse.{AcceptSpec, parse_accept}
use rivaas.Router.Accept.Choice.{
  match_media_type, normalize_media_type, choose, accept_header_match,
}
use rivaas.Router.Accept.Cache.{new_request, accepts, accepts_by_header}
use rivaas.Router.Accept.Best.{IsBestOffer, choose-IsBestOffer}
use rivaas.Router.Accept.Calls.{plain, accept_each, accept_each-plain}

abbrev no_float : Bytes → Option ℕ
no_float s = none

abbrev header : Bytes
header = codes "text/html, application/json;q=0.8"

abbrev html : AcceptSpec
html = record { value = codes "text/html"; quality = 1000; params = []; raw_quality = [] }

abbrev json : AcceptSpec
json = record {
  value = codes "application/json";
  quality = 800;
  params = [];
  raw_quality = codes "0.8";
}

parsed : parse_accept 1 no_float header ≡ some (html ∷ json ∷ [])
unfolding parse_accept prepend is_empty eqb parse_quality
parsed = refl

-- A quote alone is no quoted value, and cannot be cut to what it encloses.
lone_quote : parse_accept 1 no_float (codes "text/html;v=" ++ b'"' ∷ []) ≡ none
unfolding parse_accept prepend is_empty eqb parse_quality
lone_quote = refl

-- The type that a part excludes with the quality 0 is chosen by a wildcard.
abbrev answer_to : Bytes → List Bytes → Option Bytes
answer_to h offers = accepts 1 no_float [] h offers new_request >>= λ found. some found.1

excluded_type :
    answer_to (codes "text/html;q=0, */*") (codes "html" ∷ codes "json" ∷ []) ≡ some (codes "html")
unfolding accepts parse_accept choose match_media_type normalize_media_type find_key trim_space
    prepend is_empty eqb parse_quality
excluded_type = refl

-- A blank before the semicolon stays with the value, which then is no encoding.
abbrev encoding_for : Bytes → List Bytes → Option Bytes
encoding_for h offers =
    accepts_by_header 1 no_float [] h offers new_request >>= λ found. some found.1

blank_before_semicolon : encoding_for (codes "br, gzip ;q=0.5") (codes "gzip" ∷ []) ≡ some []
unfolding accepts_by_header accept_header_match parse_accept trim_space prepend is_empty eqb
    parse_quality has_prefix
blank_before_semicolon = refl

-- An encoding with the quality 0, which the client refuses, is the answer if there is no better one.
refused_encoding : encoding_for (codes "gzip;q=0") (codes "gzip" ∷ []) ≡ some (codes "gzip")
unfolding accepts_by_header accept_header_match parse_accept trim_space prepend is_empty eqb
    parse_quality has_prefix
refused_encoding = refl

-- A call for the encodings between two calls of Accepts overwrites the parts that are kept.
abbrev spoiled : Option (Bytes × Bytes)
spoiled = do
  first ← accepts 1 no_float [] header (codes "html" ∷ codes "json" ∷ []) new_request
  encoding ← accepts_by_header 1 no_float [] (codes "gzip, br") (codes "gzip" ∷ []) first.0
  second ← accepts 1 no_float [] header (codes "html" ∷ codes "json" ∷ []) encoding.0
  some (first.1, second.1)

spoiled_answer : spoiled ≡ some (codes "html", [])
unfolding accepts accepts_by_header accept_header_match parse_accept choose match_media_type
    normalize_media_type find_key trim_space prepend is_empty eqb parse_quality has_prefix
spoiled_answer = refl

choose-IsBestOffer_example :
    ((choose (codes "json") (codes "html" ∷ []) (html ∷ json ∷ []) ≡ [])
      × All
          (λ offer.
            All
              (λ part. (match_media_type (normalize_media_type offer) part).0 ≡ 0)
              (html ∷ json ∷ []))
          (codes "json" ∷ codes "html" ∷ []))
    ⊎ IsBestOffer
        (codes "json" ∷ codes "html" ∷ [])
        (html ∷ json ∷ [])
        (choose (codes "json") (codes "html" ∷ []) (html ∷ json ∷ []))
unfolding normalize_media_type find_key trim_space eqb is_empty
choose-IsBestOffer_example =
    choose-IsBestOffer (codes "json") (codes "html" ∷ []) html (json ∷ []) (refl, (refl, tt))

accept_each-plain_example :
    accept_each 1 no_float [] header ((codes "json" ∷ []) ∷ (codes "html" ∷ []) ∷ []) new_request
    ≡ some (map (plain header (html ∷ json ∷ [])) ((codes "json" ∷ []) ∷ (codes "html" ∷ []) ∷ []))
accept_each-plain_example =
    accept_each-plain 1 no_float [] header (html ∷ json ∷ [])
      ((codes "json" ∷ []) ∷ (codes "html" ∷ []) ∷ []) parsed
