-- ===== src/Memory/Glob.antt =====
-- framework/memory/store.go: globMatch, the key patterns of Keys and Count.
pub mod Laws
mod Examples
use oniworks.Prelude.{ℕ, Bool, true, false, Option, none, some, List, [], ◌∷◌, if◌then◌else◌, ◌==◌}
use oniworks.Prelude.{length, drop}
use oniworks.Prelude.Text.Search.{has_suffix, after_index}
use oniworks.Prelude.Text.{Text, text_eq, codes, has_prefix, contains_byte, split}

-- The loop over the middle segments, and the test of the last one.
pub match_rest : List Text → Text → Bool
match_rest [] s = false
match_rest (last ∷ []) s = has_suffix last s
match_rest (mid ∷ next ∷ more) s = elim (after_index mid s) [
  | none ↦ false
  | some s' ↦ match_rest (next ∷ more) s'
]

-- The first segment must be a prefix. `strings.Split` never returns an empty slice.
pub match_parts : List Text → Text → Bool
unfolding match_rest
match_parts [] s = false
match_parts (first ∷ more) s =
    if has_prefix first s then match_rest more (drop (length first) s) else false

pub glob_match : Text → Text → Bool
unfolding match_parts split
glob_match pattern s =
    if pattern == codes "*"
    then true
    else if contains_byte b'*' pattern
    then match_parts (split b'*' pattern) s
    else pattern == s
