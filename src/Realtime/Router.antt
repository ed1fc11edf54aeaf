-- ===== src/Realtime/Router.antt =====
-- framework/realtime/router.go: the patterns of channels and their handlers.
use oniworks.Prelude.{
  ◌-◌, ◌≡◌, refl, not, ◌&&◌, Option, none, some, List, [], ◌∷◌, ◌++◌, if◌then◌else◌, ◌==◌, nat_eq,
  ltb, Option-cases, inl, inr, length, take, drop, map,
}
use oniworks.Prelude.Text.{Text, text_eq, codes, has_prefix, split}
use oniworks.Prelude.Text.Search.{has_suffix}
use oniworks.Prelude.Dict
use oniworks.Prelude.Dict.{Dict}

pub record RouteSegment : Type 0 where
  pub lit : Text
  pub param : Text

-- One round of the loop of parseChannelPattern.
parse_segment : Text → RouteSegment
unfolding has_suffix
parse_segment p =
    if ltb 2 (length p) && has_prefix (codes "{") p && has_suffix (codes "}") p
    then record { lit = []; param = take (length p - 2) (drop 1 p) }
    else record { lit = p; param = [] }

parse_channel_pattern : Text → List RouteSegment
unfolding parse_segment split
parse_channel_pattern pattern = map parse_segment (split b'.' pattern)

-- The loop over the segments; the two lists are equally long where it is called.
match_channel_segments : List RouteSegment → List Text → Dict Text Text → Option (Dict Text Text)
match_channel_segments [] ts params = some params
match_channel_segments (ps ∷ segs) [] params = none
match_channel_segments (ps ∷ segs) (t ∷ ts) params =
    let bound = match_channel_segments segs ts (Dict.put params ps.param t) in
    let rest = match_channel_segments segs ts params in
    if not (ps.param == []) then bound else if ps.lit == t then rest else none

-- channelRoute.match
match_channel : List RouteSegment → Text → Option (Dict Text Text)
unfolding match_channel_segments split
match_channel segments channel =
    let ch_segs = split b'.' channel in
    if length segments == length ch_segs
    then match_channel_segments segments ch_segs Dict.empty
    else none

abbrev or_else {ℓ} : {A : Type ℓ} → Option A → Option A → Option A
or_else none o = o
or_else (some a) o = some a

module _ {Handler : Type 0} where
  -- eventRouter: the routes, each with its handler.
  register_channel :
      Text → Handler → List (List RouteSegment × Handler) → List (List RouteSegment × Handler)
  unfolding parse_channel_pattern
  register_channel pattern fn routes = routes ++ (parse_channel_pattern pattern, fn) ∷ []

  match_event : List (List RouteSegment × Handler) → Text → Option (Handler × Dict Text Text)
  unfolding match_channel
  match_event [] channel = none
  match_event ((segments, handler) ∷ routes) channel = elim (match_channel segments channel) [
    | some params ↦ some (handler, params)
    | none ↦ match_event routes channel
  ]

  match_event-append :
      (routes : List (List RouteSegment × Handler)) (route : List RouteSegment × Handler)
      (channel : Text)
      → match_event (routes ++ route ∷ []) channel
        ≡ or_else (match_event routes channel) (match_event (route ∷ []) channel)
  unfolding match_event
  match_event-append [] route channel = refl
  match_event-append ((segments, handler) ∷ routes) route channel =
      elim (Option-cases (match_channel segments channel)) [
        | inl fails ↦ rw (fails, match_event) (match_event-append routes route channel)
        | inr (params, fits) ↦ rw (fits, match_event) refl
      ]

  -- A route that is registered later is used exactly for the channels that no earlier one matches.
  match_event-register_channel :
      (routes : List (List RouteSegment × Handler)) (pattern channel : Text) (fn : Handler)
      → match_event (register_channel pattern fn routes) channel
        ≡ or_else
            (match_event routes channel)
            (match_event ((parse_channel_pattern pattern, fn) ∷ []) channel)
  unfolding register_channel
  match_event-register_channel routes pattern channel fn =
      match_event-append routes (parse_channel_pattern pattern, fn) channel
