-- ===== src/Memory/Topic/Wildcard.antt =====
-- pubsub.go: what a trailing "**" matches, and what it does not.
use mathlib.Core.List.{append-nil}
use oniworks.Prelude.{
  ℕ, ◌-◌, ◌≡◌, ◌≢◌, ◌<◌, refl, subst, sym, ap, ◌∙◌, inl, inr, true, false, List, [], ◌∷◌, ◌++◌,
  arith, ◌==◌, ==_iff, ==-refl, Bool-cases, Bool-false, length, take, drop, length-append,
}
use oniworks.Prelude.Text.{
  Text, text_eq, codes, contains_byte, split, split-none, split-some, split-append, split-ne-nil,
  drop-append,
}
use oniworks.Memory.Topic.{segments_match, last, match_segments, topic_matches}

last-append : (ps : List Text) (q : Text) → last (ps ++ q ∷ []) ≡ q
last-append [] q = refl
last-append (p ∷ []) q = refl
last-append (p ∷ r ∷ ps) q = last-append (r ∷ ps) q

module _ (qs : List Text) where
  take-append : (ps : List Text) → take (length ps) (ps ++ qs) ≡ ps
  take-append [] = refl
  take-append (p ∷ ps) = ap (◌∷◌ p) (take-append ps)

  segments_match-append :
      (ps ts : List Text) → segments_match (ps ++ qs) (ps ++ ts) ≡ segments_match qs ts
  unfolding segments_match
  segments_match-append [] ts = refl
  segments_match-append (p ∷ ps) ts = ground (arith, ==-refl p, segments_match-append ps ts)

segments_match_refl : (ps : List Text) → segments_match ps ps ≡ true
unfolding segments_match
segments_match_refl [] = refl
segments_match_refl (p ∷ ps) = ground (arith, ==-refl p, segments_match_refl ps)

-- A pattern of one segment that is neither "*" nor "**" matches only the topic that is equal to it.
pub topic_matches-one_segment :
    (pattern topic : Text)
    → contains_byte b'.' pattern ≡ false
    → pattern ≢ codes "*"
    → pattern ≢ codes "**"
    → topic_matches pattern topic ≡ (pattern == topic)
unfolding topic_matches
topic_matches-one_segment pattern topic h star stars =
    let star' = Bool-false (pattern == codes "*") (λ e. star ((==_iff pattern (codes "*")).0 e)) in
    let stars' =
      Bool-false (pattern == codes "**") (λ e. stars ((==_iff pattern (codes "**")).0 e)) in
    elim (Bool-cases (contains_byte b'.' topic)) [
      | inl dotted ↦
          let (p, q, ps, e) = split-some b'.' topic dotted in
          ground (arith, split-none b'.' pattern h, e)
      | inr plain ↦ ground (arith, split-none b'.' pattern h, split-none b'.' topic plain)
    ]

-- Of the segments of "prefix.**" the loop sees the prefix, behind any topic that begins with it.
stars_ne_star : (prefix : Text) → ((prefix ++ (b'.' ∷ codes "**")) == codes "*") ≡ false
stars_ne_star prefix = Bool-false _ (λ e.
    let same = ap length ((==_iff (prefix ++ (b'.' ∷ codes "**")) (codes "*")).0 e) in
    omega (arith, length-append {0} prefix (b'.' ∷ codes "**")))

behind : (prefix s t : Text) → prefix ++ s ≡ prefix ++ t → s ≡ t
behind prefix s t e =
    sym (drop-append prefix s) ∙ ap (drop (length prefix)) e ∙ drop-append prefix t

module _ (ps : List Text) where
  match_segments-one_more :
      (t : Text)
      → (codes "**" == t) ≡ false
      → match_segments (ps ++ codes "**" ∷ []) (ps ++ t ∷ []) ≡ false
  unfolding match_segments
  match_segments-one_more t differ = ground (
    arith,
    segments_match-append (codes "**" ∷ []) ps (t ∷ []),
    length-append ps (t ∷ []),
    length-append ps (codes "**" ∷ []),
  )

  match_segments-other :
      (ts : List Text) → length ts ≢ 1 → match_segments (ps ++ codes "**" ∷ []) (ps ++ ts) ≡ true
  unfolding match_segments
  match_segments-other ts h =
      let size : length (ps ++ codes "**" ∷ []) - 1 ≡ length ps =
        omega (arith, length-append {0} ps (codes "**" ∷ [])) in
      rw (size, take-append ts ps, take-append (codes "**" ∷ []) ps, last-append ps (codes "**"))
        (ground
          (arith, segments_match_refl ps, length-append ps ts, length-append ps (codes "**" ∷ [])))

-- "prefix.**" does not match a topic with exactly one segment behind the prefix, unless that
-- segment is "**" itself.
pub not-topic_matches-one_more :
    (prefix more : Text)
    → contains_byte b'.' more ≡ false
    → more ≢ codes "**"
    → topic_matches (prefix ++ (b'.' ∷ codes "**")) (prefix ++ (b'.' ∷ more)) ≡ false
unfolding topic_matches
not-topic_matches-one_more prefix more h stars =
    let differ =
      Bool-false (codes "**" == more) (λ e. stars (sym ((==_iff (codes "**") more).0 e))) in
    let other : ((prefix ++ (b'.' ∷ codes "**")) == (prefix ++ (b'.' ∷ more))) ≡ false =
      Bool-false _ (λ e.
        stars (sym (ap (drop 1) (behind prefix _ _ ((==_iff _ (prefix ++ (b'.' ∷ more))).0 e))))) in
    rw
      (
        stars_ne_star prefix,
        other,
        split-append b'.' prefix more,
        split-append b'.' prefix (codes "**"),
        split-none b'.' more h,
      )
      (match_segments-one_more (split b'.' prefix) more differ)

topic_matches-of_segments :
    (pattern topic : Text)
    → match_segments (split b'.' pattern) (split b'.' topic) ≡ true
    → topic_matches pattern topic ≡ true
unfolding topic_matches
topic_matches-of_segments pattern topic h = ground arith

split-length_pos : (c : ℕ) (s : Text) → 0 < length (split c s)
split-length_pos c s = ground (arith, split-ne-nil c s)

-- It does match the prefix, and every topic with two or more segments behind it.
pub topic_matches-more :
    (prefix second third : Text)
    → (topic_matches (prefix ++ (b'.' ∷ codes "**")) prefix ≡ true)
      × (topic_matches
            (prefix ++ (b'.' ∷ codes "**"))
            (prefix ++ (b'.' ∷ (second ++ (b'.' ∷ third))))
          ≡ true)
unfolding split
topic_matches-more prefix second third =
    let ps = split b'.' prefix in
    (
      topic_matches-of_segments _ prefix (
          rw (split-append b'.' prefix (codes "**")) (
            subst (λ ts. match_segments (ps ++ codes "**" ∷ []) ts ≡ true) (append-nil ps)
              (match_segments-other ps [] (omega arith)))),
      topic_matches-of_segments _ (prefix ++ (b'.' ∷ (second ++ (b'.' ∷ third)))) (
          rw
            (
              split-append b'.' prefix (codes "**"),
              split-append b'.' prefix (second ++ (b'.' ∷ third)),
              split-append b'.' second third,
            )
            (match_segments-other ps (split b'.' second ++ split b'.' third) (λ e. omega (
              arith,
              length-append {0} (split b'.' second) (split b'.' third),
              split-length_pos b'.' second,
              split-length_pos b'.' third,
            )))),
    )
