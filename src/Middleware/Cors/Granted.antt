-- ===== src/Middleware/Cors/Granted.antt =====
-- Which origins are let in, and with which headers.
use rivaas.Prelude.{
  Bool, true, false, not, ◌&&◌, ◌||◌, ◌≡◌, none, some, if◌then◌else◌, Bytes, codes, eqb, is_empty,
  find_key,
}
use rivaas.Middleware.Cors.{Config, Headers, Answer, accepts}

abbrev allow_origin : Bytes
allow_origin = codes "Access-Control-Allow-Origin"

abbrev allow_credentials : Bytes
allow_credentials = codes "Access-Control-Allow-Credentials"

-- Whether the request has an origin that is let in.
unfoldable pub grants : Config → Bytes → Bool
grants cfg origin =
    not (is_empty origin)
    && (cfg.allow_all_origins || accepts cfg.allow_origin_func cfg.allowed_origins origin)

-- The origin that a client is told: any, but for credentials its own.
unfoldable pub told : Config → Bytes → Bytes
told cfg origin = if cfg.allow_all_origins && not cfg.allow_credentials then codes "*" else origin

-- What the answer to a request has to be, for the headers `h` that the response has already.
abbrev pub IsAnswer : Config → Bytes → Bytes → Headers → Bool → Answer → Type 0
IsAnswer cfg origin method h false a = (a.status ≡ none) × (a.calls_next ≡ true) × (a.headers ≡ h)
IsAnswer cfg origin method h true a =
    (a.status ≡ (if eqb method (codes "OPTIONS") then some 204 else none))
    × (a.calls_next ≡ not (eqb method (codes "OPTIONS")))
    × (find_key allow_origin a.headers ≡ some (told cfg origin))
    × (find_key allow_credentials a.headers
        ≡ (if cfg.allow_credentials then some (codes "true") else find_key allow_credentials h))
