-- ===== src/Memory/Topic.antt =====
-- framework/memory/pubsub.go: topicMatches, the patterns of Subscribe.
pub mod Segments
pub mod Wildcard
mod Examples
use oniworks.Prelude.{
  ℕ, suc, ◌-◌, ◌+◌, Bool, true, false, not, ◌&&◌, ◌||◌, List, [], ◌∷◌, if◌then◌else◌, ◌==◌, nat_eq,
  leb, length, take,
}
use oniworks.Prelude.Text.{Text, text_eq, codes, split}

-- The loop indexes both slices; they are equally long wherever it is called.
pub segments_match : List Text → List Text → Bool
segments_match [] topic = true
segments_match (p ∷ pattern) [] = false
segments_match (p ∷ pattern) (t ∷ topic) =
    if not (p == codes "*") && not (p == t) then false else segments_match pattern topic

-- pSegs[len(pSegs)-1], which is there, since strings.Split returns no empty slice.
abbrev pub last : List Text → Text
last [] = []
last (p ∷ []) = p
last (p ∷ q ∷ ps) = last (q ∷ ps)

-- The part of topicMatches that works on the segments.
pub match_segments : List Text → List Text → Bool
unfolding segments_match
match_segments p_segs t_segs =
    let all_but_last = length p_segs - 1 in
    if length p_segs == length t_segs
    then segments_match p_segs t_segs
    else if last p_segs == codes "**"
    then leb all_but_last (length t_segs)
      && segments_match (take all_but_last p_segs) (take all_but_last t_segs)
    else false

pub topic_matches : Text → Text → Bool
unfolding match_segments split
topic_matches pattern topic =
    if (pattern == codes "*") || (pattern == topic)
    then true
    else match_segments (split b'.' pattern) (split b'.' topic)
