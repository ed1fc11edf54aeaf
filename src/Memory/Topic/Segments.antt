-- ===== src/Memory/Topic/Segments.antt =====
-- pubsub.go: topicMatches without "**" is agreement segment by segment.
use oniworks.Prelude.{
  ◌≡◌, ◌≢◌, refl, subst, ◌↔◌, ◌⊎◌, inl, inr, true, List, [], ◌∷◌, arith, ◌==◌, ==_iff, Bool-cases,
  Bool-false, length,
}
use oniworks.Prelude.Text.{Text, text_eq, codes, split}
use oniworks.Memory.Topic.{segments_match, last, topic_matches}

-- Each segment of the pattern is a star or the topic's segment there.
abbrev pub Agree : List Text → List Text → Type 0
Agree [] [] = Unit
Agree [] (t ∷ ts) = ⊥
Agree (p ∷ ps) [] = ⊥
Agree (p ∷ ps) (t ∷ ts) = ((p ≡ codes "*") ⊎ (p ≡ t)) × Agree ps ts

Agree-refl : (ps : List Text) → Agree ps ps
Agree-refl [] = tt
Agree-refl (p ∷ ps) = (inr refl, Agree-refl ps)

Agree-length : (ps ts : List Text) → Agree ps ts → length ps ≡ length ts
Agree-length [] [] h = refl
Agree-length [] (t ∷ ts) h = elim h [ ]
Agree-length (p ∷ ps) [] h = elim h [ ]
Agree-length (p ∷ ps) (t ∷ ts) h = omega (arith, Agree-length ps ts h.1)

segments_match_sound :
    (ps ts : List Text) → length ps ≡ length ts → segments_match ps ts ≡ true → Agree ps ts
unfolding segments_match
segments_match_sound [] [] e h = tt
segments_match_sound [] (t ∷ ts) e h = absurd (omega arith)
segments_match_sound (p ∷ ps) [] e h = absurd (omega arith)
segments_match_sound (p ∷ ps) (t ∷ ts) e h =
    ground (arith, ==_iff p (codes "*"), ==_iff p t, segments_match_sound ps ts)

segments_match_complete : (ps ts : List Text) → Agree ps ts → segments_match ps ts ≡ true
unfolding segments_match
segments_match_complete [] ts h = refl
segments_match_complete (p ∷ ps) [] h = elim h [ ]
segments_match_complete (p ∷ ps) (t ∷ ts) h =
    ground (arith, ==_iff p (codes "*"), ==_iff p t, segments_match_complete ps ts)

-- A pattern whose last segment is not "**" matches a topic exactly when it is "*" or agrees with
-- the topic segment by segment.
pub topic_matches_iff :
    (pattern topic : Text)
    → last (split b'.' pattern) ≢ codes "**"
    → (topic_matches pattern topic ≡ true)
      ↔ ((pattern ≡ codes "*") ⊎ Agree (split b'.' pattern) (split b'.' topic))
unfolding topic_matches
topic_matches_iff pattern topic plain =
    let ps = split b'.' pattern in
    let ts = split b'.' topic in
    let plain' =
      Bool-false (last ps == codes "**") (λ e. plain ((==_iff (last ps) (codes "**")).0 e)) in
    (
      λ h. elim (Bool-cases (pattern == codes "*")) [
        | inl star ↦ inl ((==_iff pattern (codes "*")).0 star)
        | inr other ↦ elim (Bool-cases (pattern == topic)) [
          | inl same ↦
              inr (
                subst (λ t. Agree ps (split b'.' t)) ((==_iff pattern topic).0 same)
                  (Agree-refl ps))
          | inr differ ↦ inr (segments_match_sound ps ts (ground arith) (ground arith))
        ]
      ],
      elim [
        | inl star ↦ ground (arith, ==_iff pattern (codes "*"))
        | inr agree ↦ ground (arith, Agree-length ps ts agree, segments_match_complete ps ts agree)
      ],
    )
