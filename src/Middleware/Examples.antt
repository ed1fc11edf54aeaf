-- ===== src/Middleware/Examples.antt =====
-- framework/middleware/cors.go: an answer to a listed origin.
use oniworks.Prelude.{◌==◌, nat_eq, ◌≡◌, refl, true, false, [], ◌∷◌}
use oniworks.Prelude.Text.Decimal.{decimal}
use oniworks.Prelude.Text.{Text, text_eq, codes}
use oniworks.Middleware.Cors.{
  CorsConfig, match_from, match_origin, origin_calls, expose_calls, preflight_calls, cors,
  methods_of, default_cors_config,
}
use oniworks.Middleware.Cors.Credentials.{
  has_call, values_of, credentials, allow_origin, IsListed, cors-credentials,
}

abbrev cfg : CorsConfig
cfg = record {
  allow_origins = codes "*" ∷ codes "https://A.example" ∷ [];
  allow_methods = [];
  allow_headers = codes "Accept" ∷ [];
  expose_headers = [];
  allow_credentials = true;
  max_age = 1500000000;
}

abbrev origin : Text
origin = codes "https://a.example"

preflight : cors cfg (codes "OPTIONS") origin ≡ (
  (codes "Access-Control-Allow-Origin", origin)
      ∷ (codes "Vary", codes "Origin")
      ∷ (codes "Access-Control-Allow-Credentials", codes "true")
      ∷ (codes "Access-Control-Allow-Headers", codes "Accept")
      ∷ (codes "Access-Control-Allow-Methods", codes "GET, POST, PUT, PATCH, DELETE, HEAD, OPTIONS")
      ∷ (codes "Access-Control-Max-Age", codes "1")
      ∷ [],
  false,
)
unfolding cors match_origin match_from origin_calls expose_calls preflight_calls methods_of
    default_cors_config decimal
preflight = refl

by_wildcard : cors cfg (codes "GET") (codes "https://b.example") ≡ (
  (codes "Access-Control-Allow-Origin", codes "https://b.example")
      ∷ (codes "Vary", codes "Origin")
      ∷ [],
  true,
)
unfolding cors match_origin match_from origin_calls expose_calls
by_wildcard = refl

with_credentials : has_call credentials (cors cfg (codes "GET") origin).0 ≡ true
unfolding cors match_origin match_from origin_calls expose_calls has_call
with_credentials = refl

cors-credentials_example :
    (true ≡ true)
    × IsListed origin cfg.allow_origins
    × (values_of allow_origin (cors cfg (codes "GET") origin).0 ≡ origin ∷ [])
    × ((origin == codes "*") ≡ false)
cors-credentials_example = cors-credentials cfg (codes "GET") origin with_credentials
