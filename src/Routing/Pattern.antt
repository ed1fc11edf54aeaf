-- ===== src/Routing/Pattern.antt =====
-- framework/routing/trie.go: the segments of a pattern and their match against a path.
use oniworks.Prelude.{
  ◌-◌, Bool, true, false, not, ◌&&◌, Option, none, some, List, [], ◌∷◌, ◌++◌, if◌then◌else◌, ◌==◌,
  nat_eq, length, take, drop,
}
use oniworks.Prelude.Text.{Text, text_eq, codes, has_prefix, split, join}
use oniworks.Prelude.Text.Search.{has_suffix}
use oniworks.Prelude.Dict
use oniworks.Prelude.Dict.{Dict}

pub record Segment : Type 0 where
  pub lit : Text
  pub param : Text
  pub wild : Bool

-- strings.TrimPrefix(p, "/")
abbrev trim_prefix : Text → Text
trim_prefix [] = []
trim_prefix (c ∷ s) = if c == b'/' then s else c ∷ s

-- strings.TrimSuffix(p, "/")
abbrev pub trim_suffix : Text → Text
trim_suffix [] = []
trim_suffix (c ∷ []) = if c == b'/' then [] else c ∷ []
trim_suffix (c ∷ d ∷ s) = c ∷ trim_suffix (d ∷ s)

unfoldable pub split_path : Text → List Text
unfolding split
split_path p =
    let trimmed = trim_suffix (trim_prefix p) in if trimmed == [] then [] else split b'/' trimmed

abbrev or_star : Text → Text
or_star name = if name == [] then codes "*" else name

-- One round of the loop of parsePattern.
parse_part : Text → List Segment
unfolding has_suffix
parse_part p =
    if p == []
    then []
    else if has_prefix (codes "*") p
    then record { lit = []; param = or_star (drop 1 p); wild = true } ∷ []
    else if has_prefix (codes ":") p
    then record { lit = []; param = drop 1 p; wild = false } ∷ []
    else if has_prefix (codes "{") p && has_suffix (codes "}") p
    then record { lit = []; param = take (length p - 2) (drop 1 p); wild = false } ∷ []
    else record { lit = p; param = []; wild = false } ∷ []

parse_parts : List Text → List Segment
unfolding parse_part
parse_parts [] = []
parse_parts (p ∷ ps) = parse_part p ++ parse_parts ps

-- The `break` behind a wildcard leaves the switch and not the loop, so the loop goes on.
pub parse_pattern : Text → List Segment
unfolding parse_parts split_path
parse_pattern pattern = parse_parts (split_path pattern)

-- The loop of match: `parts` are those from `pi` on.
unfoldable pub match_segments : List Segment → List Text → Dict Text Text → Option (Dict Text Text)
match_segments [] [] params = some params
match_segments [] (p ∷ ps) params = none
match_segments (seg ∷ segs) [] params =
    if seg.wild then some (Dict.put params seg.param []) else none
match_segments (seg ∷ segs) (p ∷ ps) params =
    let bound = match_segments segs ps (Dict.put params seg.param p) in
    let rest = match_segments segs ps params in
    if seg.wild
    then some (Dict.put params seg.param (join b'/' (p ∷ ps)))
    else if not (seg.param == [])
    then bound
    else if p == seg.lit
    then rest
    else none

-- cr.match(path)
unfoldable pub match : List Segment → Text → Option (Dict Text Text)
unfolding match_segments split_path
match segs path = match_segments segs (split_path path) Dict.empty
