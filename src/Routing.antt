-- ===== src/Routing.antt =====
-- framework/routing: trie.go, router.go and group.go.
-- A handler is a value of the type `Handler` and a middleware a function on it. What a request is
-- answered by is the composed handler, which serve_http runs as a function on the context. The
-- two handlers that only write a response from the allowed methods are parameters, and so are the
-- error handler and what makes a context.
pub mod Pattern
pub mod Url
pub mod Methods
mod Examples
use oniworks.Prelude.{
  ℕ, ◌-◌, Bool, true, false, not, ◌&&◌, ◌||◌, Option, none, some, List, [], ◌∷◌, ◌++◌, map,
  if◌then◌else◌, ◌==◌, nat_eq, leb, length, take, drop,
}
use oniworks.Prelude.Text.{Text, text_eq, codes, text_lt, has_prefix, split, join}
use oniworks.Prelude.Text.Search.{has_suffix}
use oniworks.Prelude.Dict
use oniworks.Prelude.Dict.{Dict}
use oniworks.Routing.Pattern.{Segment, parse_pattern, match}

abbrev upper : ℕ → ℕ
upper c = if leb b'a' c && leb c b'z' then c - 32 else c

abbrev pub is_some {ℓ} : {A : Type ℓ} → Option A → Bool
is_some none = false
is_some (some a) = true

abbrev pub has_method : Text → List Text → Bool
has_method m [] = false
has_method m (n ∷ ns) = (n == m) || has_method m ns

-- sort.Strings
abbrev pub insert : Text → List Text → List Text
insert m [] = m ∷ []
insert m (n ∷ ns) = if text_lt n m then n ∷ insert m ns else m ∷ n ∷ ns

abbrev pub sort_strings : List Text → List Text
sort_strings [] = []
sort_strings (m ∷ ms) = insert m (sort_strings ms)

module _ (Handler : Type 0) where
  pub record CompiledRoute : Type 0 where
    pub method : Text
    pub pattern : Text
    pub segments : List Segment
    pub handler : Handler
    pub middleware : List (Handler → Handler)

  pub record Router : Type 0 where
    pub routes : Dict Text (List CompiledRoute)
    pub named_routes : Dict Text CompiledRoute
    pub middleware : List (Handler → Handler)
    pub not_found_handler : Handler

  pub record Group : Type 0 where
    pub prefix : Text
    middlewares : List (Handler → Handler)

module _ {Handler : Type 0} where
  use_middleware : List (Handler → Handler) → Router Handler → Router Handler
  use_middleware mw r = record r { middleware = r.middleware ++ mw }

  abbrev pub or_nil : Option (List (CompiledRoute Handler)) → List (CompiledRoute Handler)
  or_nil none = []
  or_nil (some routes) = routes

  abbrev pub routes_of : Router Handler → Text → List (CompiledRoute Handler)
  routes_of r method = or_nil (Dict.get r.routes method)

  -- strings.ToUpper of an ASCII method.
  pub add_route :
      Text
      → Text
      → Handler
      → List (Handler → Handler)
      → Router Handler
      → CompiledRoute Handler × Router Handler
  add_route method pattern handler mw r =
      let cr : CompiledRoute Handler = record {
        method = map upper method;
        pattern = pattern;
        segments = parse_pattern pattern;
        handler = handler;
        middleware = mw;
      } in
      (cr, record r { routes = Dict.put r.routes cr.method (routes_of r cr.method ++ cr ∷ []) })

  pub register_named : Text → CompiledRoute Handler → Router Handler → Router Handler
  register_named name cr r = record r { named_routes = Dict.put r.named_routes name cr }

  -- Group.handle, and Group.Group.
  group_handle :
      Group Handler
      → Text
      → Text
      → Handler
      → List (Handler → Handler)
      → Router Handler
      → CompiledRoute Handler × Router Handler
  unfolding add_route
  group_handle g method path handler extra r =
      add_route method (g.prefix ++ path) handler (g.middlewares ++ extra) r

  sub_group : Group Handler → Text → Group Handler
  sub_group g prefix = record g { prefix = g.prefix ++ prefix }

  pub match_route :
      List (CompiledRoute Handler) → Text → Option (CompiledRoute Handler × Dict Text Text)
  unfolding match
  match_route [] path = none
  match_route (cr ∷ more) path = elim (match cr.segments path) [
    | some params ↦ some (cr, params)
    | none ↦ match_route more path
  ]

  -- The loop of allowedMethods over the map.
  pub matching_methods : List (Text × List (CompiledRoute Handler)) → Text → List Text
  unfolding match_route
  matching_methods [] path = []
  matching_methods ((method, routes) ∷ more) path =
      let rest = matching_methods more path in
      if is_some (match_route routes path) then method ∷ rest else rest

  pub allowed_methods : Router Handler → Text → List Text
  unfolding matching_methods
  allowed_methods r path =
      let methods = matching_methods (Dict.entries r.routes) path in
      sort_strings (
        if has_method (codes "GET") methods && not (has_method (codes "HEAD") methods)
        then methods ++ codes "HEAD" ∷ []
        else methods)

  abbrev pub run_with_middleware : List (Handler → Handler) → Handler → Handler
  run_with_middleware [] h = h
  run_with_middleware (m ∷ mw) h = m (run_with_middleware mw h)

  -- The lookup of ServeHTTP under the read lock: the route with its parameters, and headFallback.
  pub find_route :
      Router Handler → Text → Text → Option (CompiledRoute Handler × Dict Text Text) × Bool
  unfolding match_route
  find_route r method path =
      let direct = match_route (routes_of r method) path in
      if not (is_some direct) && (method == codes "HEAD")
      then (match_route (routes_of r (codes "GET")) path, true)
      else (direct, false)

  -- What ServeHTTP answers with: the composed handler, the parameters, and whether the body is
  -- discarded. `auto_options` and `method_not_allowed` answer with the allowed methods.
  module _ (auto_options method_not_allowed : List Text → Handler) where
    answer_unmatched : Router Handler → Text → List Text → Handler
    answer_unmatched r method [] = r.not_found_handler
    answer_unmatched r method (m ∷ ms) =
        if method == codes "OPTIONS" then auto_options (m ∷ ms) else method_not_allowed (m ∷ ms)

    serve_found :
        Router Handler
        → Text
        → Text
        → Option (CompiledRoute Handler × Dict Text Text) × Bool
        → Handler × Option (Dict Text Text) × Bool
    unfolding answer_unmatched allowed_methods
    serve_found r method path (some (cr, params), head) =
        (run_with_middleware (r.middleware ++ cr.middleware) cr.handler, some params, head)
    serve_found r method path (none, head) = (
      run_with_middleware r.middleware (answer_unmatched r method (allowed_methods r path)),
      none,
      false,
    )

-- path, for req.URL.Path
abbrev pub path_of : Text → Text
path_of url_path = if url_path == [] then codes "/" else url_path

module _ {C E : Type 0} where
  -- An onihttp.HandlerFunc gives what it leaves of the context, and its error. It is run, and its
  -- error goes to the error handler.
  pub respond : (C → E → C) → (C → C × Option E) → C → C
  respond error_handler handler c =
      let (c', err) = handler c in elim err [ none ↦ c' | some e ↦ error_handler c' e ]

  -- ServeHTTP for a method and req.URL.Path. `new_context` makes the context of the request from
  -- the parameters and from whether a headWriter discards the body; `error_handler` is
  -- r.errorHandler.
  module _ (new_context : Option (Dict Text Text) → Bool → C) (error_handler : C → E → C)
      (auto_options method_not_allowed : List Text → C → C × Option E) where
    pub serve_http : Router (C → C × Option E) → Text → Text → C
    unfolding serve_found find_route respond
    serve_http r method url_path =
        let path = path_of url_path in
        let (handler, params, head) =
          serve_found auto_options method_not_allowed r method path (find_route r method path) in
        respond error_handler handler (new_context params head)
