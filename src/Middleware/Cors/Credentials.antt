-- ===== src/Middleware/Cors/Credentials.antt =====
-- framework/middleware/cors.go: who may read a response with credentials.
use oniworks.Prelude.{
  if◌then◌else◌, ◌≡◌, refl, sym, ◌∙◌, Bool, true, false, ◌&&◌, ◌||◌, List, [], ◌∷◌, ◌++◌, ◌==◌, inl,
  inr, Bool-cases, arith,
}
use oniworks.Prelude.Text.{Text, text_eq, codes}
use oniworks.Prelude.Text.Ascii.{equal_fold}
use mathlib.Core.List.{Memᴰ}
use oniworks.Middleware.Cors.{
  CorsConfig, Call, match_from, match_origin, origin_calls, expose_calls, preflight_calls, cors,
  calls_if,
}

-- Whether a header is written.
unfoldable pub has_call : Text → List Call → Bool
has_call name [] = false
has_call name ((k, v) ∷ calls) = (k == name) || has_call name calls

-- An entry of the list, other than "*", names the origin.
abbrev pub IsListed : Text → List Text → Type 0
IsListed origin allowed =
    (a : Text) × Memᴰ a allowed × ((a == codes "*") ≡ false) × (equal_fold a origin ≡ true)

match_from-IsListed :
    (wildcard : Bool) (origin : Text) (allowed : List Text)
    → (match_from wildcard origin allowed).1 ≡ true
    → IsListed origin allowed
unfolding match_from
match_from-IsListed wildcard origin [] h = let never : false ≡ true = h in cc
match_from-IsListed wildcard origin (a ∷ allowed) h = elim (Bool-cases (a == codes "*")) [
  | inl star ↦
      let (b, m, plain_b, named) = match_from-IsListed true origin allowed (rw star at h) in
      (b, Memᴰ.tail m, plain_b, named)
  | inr plain ↦ elim (Bool-cases (equal_fold a origin)) [
    | inl same ↦ (a, Memᴰ.head refl, plain, same)
    | inr other ↦
        let (b, m, plain_b, named) =
          match_from-IsListed wildcard origin allowed (rw (plain, other) at h) in
        (b, Memᴰ.tail m, plain_b, named)
  ]
]

abbrev pub credentials : Text
credentials = codes "Access-Control-Allow-Credentials"

abbrev pub allow_origin : Text
allow_origin = codes "Access-Control-Allow-Origin"

has_call-append :
    (name : Text) (xs ys : List Call)
    → has_call name (xs ++ ys) ≡ (has_call name xs || has_call name ys)
unfolding has_call
has_call-append name [] ys = refl
has_call-append name ((k, v) ∷ xs) ys = let held = has_call-append name xs ys in ground arith

expose_calls-quiet : (cfg : CorsConfig) → has_call credentials (expose_calls cfg) ≡ false
unfolding has_call expose_calls
expose_calls-quiet cfg = ground arith

preflight_calls-quiet : (cfg : CorsConfig) → has_call credentials (preflight_calls cfg) ≡ false
unfolding has_call preflight_calls
preflight_calls-quiet cfg = ground arith

origin_calls-credentials :
    (cfg : CorsConfig) (origin : Text) (explicit : Bool)
    → has_call credentials (origin_calls cfg origin explicit) ≡ true
    → (explicit ≡ true) × (cfg.allow_credentials ≡ true)
unfolding has_call origin_calls
origin_calls-credentials cfg origin explicit h = ground arith

has_call-calls_if :
    (name : Text) (b : Bool) (calls : List Call)
    → has_call name (calls_if b calls) ≡ (b && has_call name calls)
unfolding has_call
has_call-calls_if name true calls = refl
has_call-calls_if name false calls = refl

has_call-cors :
    (cfg : CorsConfig) (explicit allowed options : Bool) (origin : Text)
    → has_call credentials (
        calls_if allowed (origin_calls cfg origin explicit ++ expose_calls cfg)
        ++ calls_if options (preflight_calls cfg))
      ≡ (allowed && has_call credentials (origin_calls cfg origin explicit))
has_call-cors cfg explicit allowed options origin =
    let xs = origin_calls cfg origin explicit in
    let answer = xs ++ expose_calls cfg in
    rw
      (
        has_call-append credentials (calls_if allowed answer)
            (calls_if options (preflight_calls cfg)),
        has_call-calls_if credentials allowed answer,
        has_call-calls_if credentials options (preflight_calls cfg),
        has_call-append credentials xs (expose_calls cfg),
        expose_calls-quiet cfg,
        preflight_calls-quiet cfg,
      )
      (ground arith)

-- The values that a header gets, in the order of the calls.
unfoldable pub values_of : Text → List Call → List Text
values_of name [] = []
values_of name ((k, v) ∷ calls) =
    let rest = values_of name calls in if k == name then v ∷ rest else rest

values_of-append :
    (name : Text) (xs ys : List Call)
    → values_of name (xs ++ ys) ≡ values_of name xs ++ values_of name ys
unfolding values_of
values_of-append name [] ys = refl
values_of-append name ((k, v) ∷ xs) ys = let held = values_of-append name xs ys in ground arith

values_of-calls_if :
    (name : Text) (b : Bool) (calls : List Call)
    → values_of name calls ≡ []
    → values_of name (calls_if b calls) ≡ []
unfolding values_of
values_of-calls_if name true calls h = h
values_of-calls_if name false calls h = refl

expose_calls-elsewhere : (cfg : CorsConfig) → values_of allow_origin (expose_calls cfg) ≡ []
unfolding values_of expose_calls
expose_calls-elsewhere cfg = ground arith

preflight_calls-elsewhere : (cfg : CorsConfig) → values_of allow_origin (preflight_calls cfg) ≡ []
unfolding values_of preflight_calls
preflight_calls-elsewhere cfg = ground arith

origin_calls-one :
    (cfg : CorsConfig) (origin : Text)
    → values_of allow_origin (origin_calls cfg origin true) ≡ origin ∷ []
unfolding values_of origin_calls
origin_calls-one cfg origin = ground arith

values_of-cors :
    (cfg : CorsConfig) (options : Bool) (origin : Text)
    → values_of allow_origin (
        calls_if true (origin_calls cfg origin true ++ expose_calls cfg)
        ++ calls_if options (preflight_calls cfg))
      ≡ origin ∷ []
values_of-cors cfg options origin =
    let own = origin_calls cfg origin true in
    let exposed = expose_calls cfg in
    rw
      (
        values_of-append allow_origin (own ++ exposed) (calls_if options (preflight_calls cfg)),
        values_of-append allow_origin own exposed,
        origin_calls-one cfg origin,
        expose_calls-elsewhere cfg,
        values_of-calls_if allow_origin options (preflight_calls cfg)
            (preflight_calls-elsewhere cfg),
      )
      refl

-- No entry but "*" names the origin "*".
not_star :
    (origin a : Text)
    → (a == codes "*") ≡ false
    → equal_fold a origin ≡ true
    → (origin == codes "*") ≡ false
not_star [] a plain same = refl
not_star (c ∷ d ∷ origin) a plain same = ground arith
not_star (c ∷ []) [] plain same = cc
not_star (c ∷ []) (b ∷ []) plain same = ground arith
not_star (c ∷ []) (b ∷ e ∷ a) plain same = ground arith

-- Credentials are for listed origins only: where the CORS middleware writes
-- Access-Control-Allow-Credentials, the configuration has AllowCredentials, an entry of AllowOrigins
-- that is not "*" names the origin of the request, Access-Control-Allow-Origin is written just once
-- and with that origin, and that is not "*".
pub cors-credentials :
    (cfg : CorsConfig) (method origin : Text)
    → has_call credentials (cors cfg method origin).0 ≡ true
    → (cfg.allow_credentials ≡ true)
      × IsListed origin cfg.allow_origins
      × (values_of allow_origin (cors cfg method origin).0 ≡ origin ∷ [])
      × ((origin == codes "*") ≡ false)
unfolding cors match_origin has_call
cors-credentials cfg method origin h = elim (Bool-cases (origin == [])) [
  | inl empty ↦ let never : false ≡ true = rw empty at h in cc
  | inr some_origin ↦
      let (allowed, explicit) = match_origin origin cfg.allow_origins in
      let options = method == codes "OPTIONS" in
      let both : (allowed && has_call credentials (origin_calls cfg origin explicit)) ≡ true =
        sym (has_call-cors cfg explicit allowed options origin) ∙ (rw some_origin at h) in
      let is_allowed : allowed ≡ true = ground arith in
      let sent : has_call credentials (origin_calls cfg origin explicit) ≡ true = ground arith in
      let (named, kept) = origin_calls-credentials cfg origin explicit sent in
      let (a, listed, plain, same) = match_from-IsListed false origin cfg.allow_origins named in
      (
        kept,
        (a, listed, plain, same),
        rw (some_origin, is_allowed, named) (values_of-cors cfg options origin),
        not_star origin a plain same,
      )
]
