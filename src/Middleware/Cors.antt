-- ===== src/Middleware/Cors.antt =====
-- framework/middleware/cors.go: the headers that the CORS middleware puts on a response.
-- Origins are ASCII. MaxAge is a number of nanoseconds, and 0 where the Duration is negative.
pub mod Credentials
use oniworks.Prelude.{
  ℕ, ◌/◌, Bool, true, false, not, List, [], ◌∷◌, ◌++◌, if◌then◌else◌, ◌==◌, nat_eq,
}
use oniworks.Prelude.Text.{Text, text_eq, codes}
use oniworks.Prelude.Text.Ascii.{equal_fold}
use oniworks.Prelude.Text.Decimal.{decimal}
use oniworks.Database.Grammar.{join_with}

pub record CorsConfig : Type 0 where
  pub allow_origins : List Text
  pub allow_methods : List Text
  pub allow_headers : List Text
  pub expose_headers : List Text
  pub allow_credentials : Bool
  pub max_age : ℕ

unfoldable pub default_cors_config : CorsConfig
default_cors_config = record {
  allow_origins = codes "*" ∷ [];
  allow_methods =
      codes "GET"
      ∷ codes "POST"
      ∷ codes "PUT"
      ∷ codes "PATCH"
      ∷ codes "DELETE"
      ∷ codes "HEAD"
      ∷ codes "OPTIONS"
      ∷ [];
  allow_headers =
      codes "Accept"
      ∷ codes "Authorization"
      ∷ codes "Content-Type"
      ∷ codes "X-CSRF-Token"
      ∷ codes "X-Requested-With"
      ∷ [];
  expose_headers = [];
  allow_credentials = false;
  max_age = 43200000000000;
}

-- The loop of matchOrigin, from whether a "*" has been met: whether the origin is allowed, and
-- whether an entry of the list names it.
unfoldable pub match_from : Bool → Text → List Text → Bool × Bool
match_from wildcard origin [] = (wildcard, false)
match_from wildcard origin (a ∷ allowed) =
    let met = match_from true origin allowed in
    let rest = match_from wildcard origin allowed in
    if a == codes "*" then met else if equal_fold a origin then (true, true) else rest

unfoldable pub match_origin : Text → List Text → Bool × Bool
unfolding match_from
match_origin origin allowed = match_from false origin allowed

-- A call of Set or Add on the header of the response: the name and the value.
abbrev pub Call : Type 0
Call = Text × Text

abbrev pub calls_if : Bool → List Call → List Call
calls_if b calls = if b then calls else []

unfoldable pub origin_calls : CorsConfig → Text → Bool → List Call
origin_calls cfg origin explicit =
    if explicit
    then (codes "Access-Control-Allow-Origin", origin)
      ∷ (codes "Vary", codes "Origin")
      ∷ calls_if cfg.allow_credentials
          ((codes "Access-Control-Allow-Credentials", codes "true") ∷ [])
    else if cfg.allow_credentials
    then (codes "Access-Control-Allow-Origin", origin) ∷ (codes "Vary", codes "Origin") ∷ []
    else (codes "Access-Control-Allow-Origin", codes "*") ∷ []

unfoldable pub expose_calls : CorsConfig → List Call
expose_calls cfg =
    let exposed = join_with (codes ", ") cfg.expose_headers in
    calls_if (not (exposed == [])) ((codes "Access-Control-Expose-Headers", exposed) ∷ [])

unfoldable pub methods_of : List Text → List Text
unfolding default_cors_config
methods_of [] = default_cors_config.allow_methods
methods_of (m ∷ ms) = m ∷ ms

unfoldable pub preflight_calls : CorsConfig → List Call
unfolding methods_of
preflight_calls cfg =
    let headers = join_with (codes ", ") cfg.allow_headers in
    calls_if (not (headers == [])) ((codes "Access-Control-Allow-Headers", headers) ∷ [])
    ++ (codes "Access-Control-Allow-Methods", join_with (codes ", ") (methods_of cfg.allow_methods))
      ∷ []
    ++ calls_if (not (cfg.max_age == 0))
        ((codes "Access-Control-Max-Age", decimal (cfg.max_age / 1000000000)) ∷ [])

-- The middleware on a request with this method and this Origin header: the calls on the header of
-- the response, and whether the next handler runs.
unfoldable pub cors : CorsConfig → Text → Text → List Call × Bool
unfolding match_origin origin_calls expose_calls preflight_calls
cors cfg method origin =
    if origin == []
    then ([], true)
    else (let (allowed, explicit) = match_origin origin cfg.allow_origins in
        let options = method == codes "OPTIONS" in
        (
          calls_if allowed (origin_calls cfg origin explicit ++ expose_calls cfg)
              ++ calls_if options (preflight_calls cfg),
          not options,
        ))
