-- ===== src/Routing/Examples.antt =====
-- framework/routing: the theorems on a router with two routes.
use oniworks.Prelude.{
  Bool, Option, ℕ, ◌≡◌, refl, false, ◌&&◌, ◌||◌, none, some, List, [], ◌∷◌, if◌then◌else◌, ◌==◌,
}
use oniworks.Prelude.Text.{Text, text_eq, codes}
use oniworks.Prelude.Dict
use oniworks.Prelude.Dict.{Dict}
use oniworks.Routing.Pattern.{match}
use oniworks.Routing.{
  CompiledRoute, Router, has_method, allowed_methods, serve_http, add_route, register_named,
}
use oniworks.Routing.Methods.{matches, has_method-allowed_methods}
use oniworks.Routing.Url.{pairs, url, url_ok, has_param, IsPlain, IsProper, values, match-url}

-- A handler is a number here.
abbrev no_routes : Router ℕ
no_routes = record {
  routes = Dict.empty;
  named_routes = Dict.empty;
  middleware = [];
  not_found_handler = 404;
}

abbrev show : CompiledRoute ℕ
show = record {
  method = codes "GET";
  pattern = codes "/users/:id";
  segments =
      record { lit = codes "users"; param = []; wild = false }
      ∷ record { lit = []; param = codes "id"; wild = false }
      ∷ [];
  handler = 200;
  middleware = [];
}

abbrev with_user : Router ℕ
with_user =
    register_named (codes "user.show") show
      (add_route (codes "GET") (codes "/users/:id") 200 [] no_routes).1

has_method-allowed_methods_example :
    has_method (codes "HEAD") (allowed_methods with_user (codes "/users/7")) ≡ (
      matches with_user (codes "/users/7") (codes "HEAD")
      || ((codes "HEAD" == codes "HEAD") && matches with_user (codes "/users/7") (codes "GET")))
has_method-allowed_methods_example =
    has_method-allowed_methods with_user (codes "/users/7") (codes "HEAD")

-- A context is the status of the response, and a handler that fails leaves it to the error handler.
abbrev answers : ℕ → ℕ → ℕ × Option Text
answers status c = (status, none)

abbrev fails : ℕ → ℕ × Option Text
fails c = (c, some (codes "no row"))

abbrev served_users : Router (ℕ → ℕ × Option Text)
served_users = record {
  routes = Dict.put Dict.empty (codes "GET") (
      record {
        method = codes "GET";
        pattern = codes "/users/:id";
        segments = show.segments;
        handler = fails;
        middleware = [];
      }
      ∷ []);
  named_routes = Dict.empty;
  middleware = [];
  not_found_handler = answers 404;
}

abbrev with_params : Option (Dict Text Text) → Bool → ℕ
with_params params head = 0

abbrev on_error : ℕ → Text → ℕ
on_error c e = 500

abbrev answer_head : ℕ
answer_head =
    serve_http with_params on_error (λ ms. answers 204) (λ ms. answers 405) served_users
      (codes "HEAD") (codes "/users/7")

abbrev id_seven : List Text
id_seven = codes "id" ∷ codes "7" ∷ []

id_there : Dict.get (pairs id_seven Dict.empty) (codes "id") ≡ some (codes "7")
id_there = Dict.get-put Dict.empty (codes "id") (codes "id") (codes "7")

seven_IsPlain : IsPlain show.segments (pairs id_seven Dict.empty)
seven_IsPlain = ((refl, λ h. absurd (h refl)), ((refl, λ h. rw (id_there) refl), tt))

seven_IsProper : IsProper (values show.segments (pairs id_seven Dict.empty))
seven_IsProper = rw (id_there) (((λ e. cc), refl), (((λ e. cc), refl), tt))

show_named : Dict.get with_user.named_routes (codes "user.show") ≡ some show
unfolding register_named
show_named = Dict.get-put _ (codes "user.show") (codes "user.show") show

match-url_example :
    (path : Text) × (got : Dict Text Text) × (url with_user (codes "user.show") id_seven
      ≡ url_ok path)
    × (match show.segments path ≡ some got)
    × ((k : Text)
        → Dict.get got k
          ≡ (if has_param k show.segments then Dict.get (pairs id_seven Dict.empty) k else none))
match-url_example =
    match-url with_user (codes "user.show") id_seven show show_named seven_IsPlain seven_IsProper
