-- ===== src/Roles/Wildcard.antt =====
-- rbac.go: isWildcardMatch against its documentation.
use oniworks.Prelude.{
  ◌≡◌, ◌≢◌, refl, sym, subst, ◌↔◌, ◌⊎◌, inl, inr, true, List, [], ◌∷◌, arith, ◌==◌, ==_iff,
  Bool-cases,
}
use oniworks.Prelude.Text.{Text, text_eq, codes, split, split-ne-nil}
use oniworks.Roles.{match_from, is_wildcard_match}

-- Segment by segment: a star in the last place stands for one or more segments of the target, any
-- other star for one, and any other segment for itself.
abbrev pub Covers : List Text → List Text → Type 0
Covers [] [] = Unit
Covers [] (t ∷ ts) = ⊥
Covers (p ∷ ps) [] = ⊥
Covers (p ∷ ps) (t ∷ ts) =
    ((p ≡ codes "*") × (ps ≡ [])) ⊎ (((p ≡ codes "*") ⊎ (p ≡ t)) × Covers ps ts)

match_from_sound : (ps ts : List Text) → match_from ps ts ≡ true → Covers ps ts
unfolding match_from
match_from_sound [] [] h = tt
match_from_sound [] (t ∷ ts) h = absurd (ground arith)
match_from_sound (p ∷ ps) [] h = absurd (ground arith)
match_from_sound (p ∷ ps) (t ∷ ts) h =
    ground (arith, match_from_sound ps ts, ==_iff p (codes "*"), ==_iff p t)

match_from_complete : (ps ts : List Text) → Covers ps ts → match_from ps ts ≡ true
unfolding match_from
match_from_complete [] [] h = refl
match_from_complete [] (t ∷ ts) h = elim h [ ]
match_from_complete (p ∷ ps) [] h = elim h [ ]
match_from_complete (p ∷ ps) (t ∷ ts) h =
    ground (arith, match_from_complete ps ts, ==_iff p (codes "*"), ==_iff p t)

Covers-refl : (ps : List Text) → Covers ps ps
Covers-refl [] = tt
Covers-refl (p ∷ ps) = inr (inr refl, Covers-refl ps)

Covers-star : (ts : List Text) → ts ≢ [] → Covers (codes "*" ∷ []) ts
Covers-star [] h = absurd (h refl)
Covers-star (t ∷ ts) h = inl (refl, refl)

-- A permission pattern matches a target exactly when it is not empty and its segments cover the
-- target's.
pub is_wildcard_match_iff :
    (pattern target : Text)
    → (is_wildcard_match pattern target ≡ true)
      ↔ ((pattern ≢ []) × Covers (split b':' pattern) (split b':' target))
unfolding is_wildcard_match
is_wildcard_match_iff pattern target = (
  λ h. (
    λ empty. ground (arith, ==_iff pattern []),
    elim (Bool-cases (pattern == codes "*")) [
      | inl star ↦
          subst (λ p. Covers (split b':' p) (split b':' target))
            (sym ((==_iff pattern (codes "*")).0 star))
            (Covers-star (split b':' target) (split-ne-nil b':' target))
      | inr other ↦ elim (Bool-cases (pattern == target)) [
        | inl same ↦
            subst (λ t. Covers (split b':' pattern) (split b':' t)) ((==_iff pattern target).0 same)
              (Covers-refl (split b':' pattern))
        | inr differ ↦ match_from_sound _ _ (ground arith)
      ]
    ],
  ),
  λ (filled, covers). ground (
    arith,
    ==_iff pattern [],
    match_from_complete (split b':' pattern) (split b':' target) covers,
  ),
)
