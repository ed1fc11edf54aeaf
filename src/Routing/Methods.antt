-- ===== src/Routing/Methods.antt =====
-- framework/routing/router.go: which route ServeHTTP chooses, and which methods it allows.
use oniworks.Routing.Pattern.{match}
use oniworks.Prelude.{
  Every, ◌⊎◌, ◌≡◌, refl, sym, ap, ◌∙◌, inl, inr, Bool, true, false, not, ◌&&◌, ◌||◌, Option, none,
  some, List, [], ◌∷◌, ◌++◌, arith, if◌then◌else◌, ◌==◌, ==_iff, nat_eq, Bool-cases,
}
use oniworks.Prelude.Text.{Text, text_eq, codes}
use oniworks.Prelude.Dict
use oniworks.Prelude.Dict.{Dict, lookup, IsDistinct}
use oniworks.Routing.{
  CompiledRoute, Router, is_some, has_method, insert, sort_strings, or_nil, routes_of, match_route,
  matching_methods, allowed_methods,
}

has_method-insert :
    (m n : Text) (ns : List Text) → has_method m (insert n ns) ≡ ((n == m) || has_method m ns)
has_method-insert m n [] = refl
has_method-insert m n (k ∷ ns) = ground (arith, has_method-insert m n ns)

has_method-sort_strings :
    (m : Text) (ns : List Text) → has_method m (sort_strings ns) ≡ has_method m ns
has_method-sort_strings m [] = refl
has_method-sort_strings m (n ∷ ns) =
    has_method-insert m n (sort_strings ns) ∙ ap (λ b. (n == m) || b) (has_method-sort_strings m ns)

has_method-append :
    (m n : Text) (ns : List Text) → has_method m (ns ++ n ∷ []) ≡ (has_method m ns || (n == m))
has_method-append m n [] = ground arith
has_method-append m n (k ∷ ns) = ground (arith, has_method-append m n ns)

nothing : (H : Type 0) (path : Text) → is_some (match_route {Handler = H} [] path) ≡ false
unfolding match_route
nothing H path = refl

module _ {Handler : Type 0} where
  -- Some route of the method matches.
  abbrev pub matches : Router Handler → Text → Text → Bool
  matches r path m = is_some (match_route (routes_of r m) path)

  has_method-matching_methods :
      (m path : Text) (es : List (Text × List (CompiledRoute Handler)))
      → IsDistinct es
      → has_method m (matching_methods es path) ≡ is_some (match_route (or_nil (lookup m es)) path)
  unfolding matching_methods lookup
  has_method-matching_methods m path [] d = unfold match_route in refl
  has_method-matching_methods m path ((n, routes) ∷ es) (fresh, d) =
      let gone : (n == m) ≡ true → is_some (match_route (or_nil (lookup m es)) path) ≡ false =
        λ same.
          let none_there : lookup m es ≡ none = rw (sym ((==_iff n m).0 same)) fresh in
          ap (λ o. is_some (match_route {Handler = Handler} (or_nil o) path)) none_there
          ∙ nothing Handler path in
      ground (arith, has_method-matching_methods m path es d, gone)

  found_methods :
      (r : Router Handler) (path m : Text)
      → has_method m (matching_methods (Dict.entries r.routes) path) ≡ matches r path m
  found_methods r path m =
      has_method-matching_methods m path (Dict.entries r.routes) (Dict.entries-IsDistinct r.routes)
      ∙ ap (λ o. is_some (match_route (or_nil o) path)) (Dict.lookup-entries r.routes m)

  -- The allowed methods of a path are those with a route that matches it, and HEAD if GET is one.
  pub has_method-allowed_methods :
      (r : Router Handler) (path m : Text)
      → has_method m (allowed_methods r path)
        ≡ (matches r path m || ((codes "HEAD" == m) && matches r path (codes "GET")))
  unfolding allowed_methods
  has_method-allowed_methods r path m =
      let ms = matching_methods (Dict.entries r.routes) path in
      elim (Bool-cases (has_method (codes "GET") ms && not (has_method (codes "HEAD") ms))) [
        | inl add ↦ rw add (
            has_method-sort_strings m (ms ++ codes "HEAD" ∷ [])
            ∙ ground (
              arith,
              has_method-append m (codes "HEAD") ms,
              found_methods r path m,
              found_methods r path (codes "GET"),
              ==_iff (codes "HEAD") m,
            ))
        | inr keep ↦ rw keep (
            has_method-sort_strings m ms
            ∙ ground (
              arith,
              found_methods r path m,
              found_methods r path (codes "GET"),
              ==_iff (codes "HEAD") m,
            ))
      ]

module _ {Handler : Type 0} (auto_options method_not_allowed : List Text → Handler) where
  -- What ServeHTTP answers from the allowed methods, if these are any.
  abbrev pub answer_allowed : Text → List Text → Handler
  answer_allowed method ms =
      if method == codes "OPTIONS" then auto_options ms else method_not_allowed ms

module _ {Handler : Type 0} where
  -- A route of the method matches, or the method is HEAD and a route of GET matches.
  abbrev pub is_served : Router Handler → Text → Text → Bool
  is_served r path method =
      matches r path method || ((method == codes "HEAD") && matches r path (codes "GET"))

  -- The route is the first of the list whose pattern matches the path, with these parameters.
  abbrev pub IsFirst :
      CompiledRoute Handler × Dict Text Text → Text → List (CompiledRoute Handler) → Type 0
  IsFirst (cr, params) path routes =
      (before : List (CompiledRoute Handler)) × (after : List (CompiledRoute Handler)) × (routes
        ≡ before ++ cr ∷ after)
      × Every (λ (c : CompiledRoute Handler). match c.segments path ≡ none) before
      × (match cr.segments path ≡ some params)

  -- The method of the route that answers, and whether the body is discarded.
  abbrev pub IsChoice : Router Handler → Text → Text → Text → Bool → Type 0
  IsChoice r path method m head =
      ((m ≡ method) × (head ≡ false))
      ⊎ ((method ≡ codes "HEAD")
          × (matches r path method ≡ false)
          × (m ≡ codes "GET")
          × (head ≡ true))

module _ {C E : Type 0} (new_context : Option (Dict Text Text) → Bool → C)
    (error_handler : C → E → C)
    (auto_options method_not_allowed : List Text → C → C × Option E) where
  -- The handler has run in the context: without an error the answer is what it leaves, and an error
  -- has gone to the error handler, in the context that the handler left.
  abbrev pub IsAnswered : (C → C × Option E) → C → C → Type 0
  IsAnswered handler c answer =
      (((handler c).1 ≡ none) × (answer ≡ (handler c).0))
      ⊎ ((e : E) × ((handler c).1 ≡ some e) × (answer ≡ error_handler (handler c).0 e))
