-- ===== src/Middleware/Cors.antt =====
-- Cross-origin requests (middleware/cors/cors.go, middleware/cors/options.go). The headers of a
-- response are a map with one value for a name, as Set leaves it. The handler never aborts,
-- so the chain (Router/Chain) goes on to the next handler after every answer, a preflight's too.
pub mod Granted
mod Tests
use rivaas.Prelude.{
  ℕ, Bool, true, false, not, ◌&&◌, ◌||◌, List, [], ◌∷◌, ◌++◌, Option, none, some, if◌then◌else◌,
  Bytes, codes, eqb, is_empty, put_key,
}
use rivaas.Router.Chain.{Handler, next, done}

-- config, with the number of seconds as the text that strconv.Itoa gives
pub record Config : Type 0 where
  pub allowed_origins : List Bytes
  pub allowed_methods : List Bytes
  pub allowed_headers : List Bytes
  pub exposed_headers : List Bytes
  pub allow_credentials : Bool
  pub max_age : Bytes
  pub allow_all_origins : Bool
  pub allow_origin_func : Option (Bytes → Bool)

-- The options, by the functions that make them.
pub data CorsOption : Type 0 where
  with_allowed_origins : List Bytes → CorsOption
  with_allow_all_origins : Bool → CorsOption
  with_allowed_methods : List Bytes → CorsOption
  with_allowed_headers : List Bytes → CorsOption
  with_exposed_headers : List Bytes → CorsOption
  with_allow_credentials : Bool → CorsOption
  with_max_age : Bytes → CorsOption
  with_allow_origin_func : Option (Bytes → Bool) → CorsOption

unfoldable pub default_config : Config
default_config = record {
  allowed_origins = [];
  allowed_methods =
      codes "GET"
      ∷ codes "POST"
      ∷ codes "PUT"
      ∷ codes "PATCH"
      ∷ codes "DELETE"
      ∷ codes "HEAD"
      ∷ codes "OPTIONS"
      ∷ [];
  allowed_headers =
      codes "Origin" ∷ codes "Content-Type" ∷ codes "Accept" ∷ codes "Authorization" ∷ [];
  exposed_headers = [];
  allow_credentials = false;
  max_age = codes "3600";
  allow_all_origins = false;
  allow_origin_func = none;
}

unfoldable pub apply_option : CorsOption → Config → Config
apply_option (with_allowed_origins os) cfg = record cfg {
  allowed_origins = os;
  allow_all_origins = false;
}
apply_option (with_allow_all_origins on) cfg = record cfg { allow_all_origins = on }
apply_option (with_allowed_methods ms) cfg = record cfg { allowed_methods = ms }
apply_option (with_allowed_headers hs) cfg = record cfg { allowed_headers = hs }
apply_option (with_exposed_headers hs) cfg = record cfg { exposed_headers = hs }
apply_option (with_allow_credentials on) cfg = record cfg { allow_credentials = on }
apply_option (with_max_age s) cfg = record cfg { max_age = s }
apply_option (with_allow_origin_func f) cfg = record cfg { allow_origin_func = f }

unfoldable pub apply_options : List CorsOption → Config → Config
unfolding apply_option
apply_options [] cfg = cfg
apply_options (o ∷ os) cfg = apply_options os (apply_option o cfg)

-- strings.Join(values, ", ")
unfoldable pub comma_list : List Bytes → Bytes
comma_list [] = []
comma_list (v ∷ []) = v
comma_list (v ∷ w ∷ vs) = v ++ codes ", " ++ comma_list (w ∷ vs)

-- slices.Contains
unfoldable pub contains_origin : Bytes → List Bytes → Bool
contains_origin origin [] = false
contains_origin origin (o ∷ os) = eqb o origin || contains_origin origin os

abbrev pub Headers : Type 0
Headers = List (Bytes × Bytes)

-- The headers, the status that was written, and whether the handler calls Next; else it returns.
pub record Answer : Type 0 where
  pub headers : Headers
  pub status : Option ℕ
  pub calls_next : Bool

-- What the handler is to the chain.
unfoldable pub handler_of : Answer → Handler
handler_of a = if a.calls_next then next done else done

unfoldable pub set_header : Bool → Bytes → Bytes → Headers → Headers
set_header true name value h = put_key name value h
set_header false name value h = h

-- Whether an origin passes the function or, without one, the list.
unfoldable pub accepts : Option (Bytes → Bool) → List Bytes → Bytes → Bool
unfolding contains_origin
accepts (some f) origins origin = f origin
accepts none origins origin = contains_origin origin origins

-- allowedOrigin; empty if the origin is not allowed
unfoldable pub allowed_origin : Config → Bytes → Bytes
unfolding accepts
allowed_origin cfg origin =
    if cfg.allow_all_origins
    then codes "*"
    else if accepts cfg.allow_origin_func cfg.allowed_origins origin
    then origin
    else []

unfoldable pub grant : Config → Bytes → Bytes → Headers → Headers
unfolding set_header
grant cfg origin allowed h =
    if cfg.allow_credentials && eqb allowed (codes "*")
    then put_key (codes "Access-Control-Allow-Credentials") (codes "true")
        (put_key (codes "Access-Control-Allow-Origin") origin h)
    else set_header cfg.allow_credentials (codes "Access-Control-Allow-Credentials") (codes "true")
        (put_key (codes "Access-Control-Allow-Origin") allowed h)

unfoldable pub preflight : Config → Headers → Headers
unfolding comma_list
preflight cfg h = put_key (codes "Access-Control-Max-Age") cfg.max_age (
    put_key (codes "Access-Control-Allow-Headers") (comma_list cfg.allowed_headers)
      (put_key (codes "Access-Control-Allow-Methods") (comma_list cfg.allowed_methods) h))

unfoldable pub expose : Config → Headers → Headers
unfolding set_header comma_list
expose cfg h =
    set_header (not (is_empty (comma_list cfg.exposed_headers)))
      (codes "Access-Control-Expose-Headers") (comma_list cfg.exposed_headers) h

-- The headers of a request whose origin is allowed, and the answer to a preflight.
unfoldable pub respond : Config → Bytes → Bytes → Bytes → Headers → Answer
unfolding grant expose preflight
respond cfg origin method allowed h =
    if eqb method (codes "OPTIONS")
    then record {
      headers = preflight cfg (expose cfg (grant cfg origin allowed h));
      status = some 204;
      calls_next = false;
    }
    else record {
      headers = expose cfg (grant cfg origin allowed h);
      status = none;
      calls_next = true;
    }

-- The handler that New returns; the origin is empty where the request has no such header.
unfoldable pub handle : Config → Bytes → Bytes → Headers → Answer
unfolding allowed_origin respond
handle cfg origin method h =
    if is_empty origin || is_empty (allowed_origin cfg origin)
    then record { headers = h; status = none; calls_next = true }
    else respond cfg origin method (allowed_origin cfg origin) h
