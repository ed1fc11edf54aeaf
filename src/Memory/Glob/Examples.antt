-- ===== src/Memory/Glob/Examples.antt =====
-- store.go: globMatch on small patterns.
use oniworks.Prelude.{◌≡◌, ◌↔◌, refl, true, false}
use oniworks.Prelude.Text.{codes, split}
use oniworks.Memory.Glob.{match_rest, match_parts, glob_match}
use oniworks.Prelude.Text.Search.{after_index, has_suffix}
use oniworks.Memory.Glob.Laws.{Fills, glob_match_iff}

glob_match_iff_example :
    (glob_match (codes "user:*:name") (codes "user:7:name") ≡ true)
    ↔ Fills (split b'*' (codes "user:*:name")) (codes "user:7:name")
glob_match_iff_example = glob_match_iff (codes "user:*:name") (codes "user:7:name")

overlap_fails : glob_match (codes "ab*ba") (codes "aba") ≡ false
unfolding glob_match match_parts match_rest has_suffix
overlap_fails = refl

two_stars : glob_match (codes "a*b*c") (codes "axbbyc") ≡ true
unfolding glob_match match_parts match_rest has_suffix after_index
two_stars = refl
