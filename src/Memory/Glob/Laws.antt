-- ===== src/Memory/Glob/Laws.antt =====
-- store.go: globMatch decides whether some texts in place of the stars make the pattern the key.
use mathlib.Core.List.{append_assoc, append-nil}
use oniworks.Prelude.{
  ◌≡◌, refl, sym, ap, subst, ◌∙◌, ◌↔◌, inl, inr, true, List, [], ◌∷◌, ◌++◌, arith, ◌==◌, ==_iff,
  Bool-cases, Option-cases,
}
use oniworks.Prelude.{length, drop}
use oniworks.Prelude.Text.{
  Text, text_eq, codes, has_prefix, has_prefix_lem, has_prefix-append, drop-append, contains_byte,
  split, split-none, split-some,
}
use oniworks.Prelude.Text.Search.{
  after_index, after_index_sound, after_index_first, has_suffix_sound, has_suffix-append,
}
use oniworks.Memory.Glob.{match_rest, match_parts, glob_match}

-- `s` is the parts in their order, with a gap of any length between each two.
abbrev pub Fills : List Text → Text → Type 0
Fills [] s = ⊥
Fills (p ∷ []) s = s ≡ p
Fills (p ∷ q ∷ ps) s = (gap rest : Text) × (s ≡ p ++ (gap ++ rest)) × Fills (q ∷ ps) rest

-- A gap, then the parts.
abbrev FillsAfter : List Text → Text → Type 0
FillsAfter ps s = (gap rest : Text) × (s ≡ gap ++ rest) × Fills ps rest

match_rest_sound :
    (p : Text) (ps : List Text) (s : Text) → match_rest (p ∷ ps) s ≡ true → FillsAfter (p ∷ ps) s
unfolding match_rest
match_rest_sound p [] s h = let (u, e) = has_suffix_sound p s h in (u, p, e, refl)
match_rest_sound p (q ∷ ps) s h = elim (Option-cases (after_index p s)) [
  | inl gone ↦ absurd (ground arith)
  | inr (t, found) ↦
      let (u, e) = after_index_sound p s found in
      let (gap, rest, e', f) = match_rest_sound q ps t (ground arith) in
      (u, p ++ t, e, (gap, rest, ap (λ r. p ++ r) e', f))
]

match_rest_complete :
    (p : Text) (ps : List Text) (gap rest : Text)
    → Fills (p ∷ ps) rest
    → match_rest (p ∷ ps) (gap ++ rest) ≡ true
unfolding match_rest
match_rest_complete p [] gap rest f = rw f (has_suffix-append gap p)
match_rest_complete p (q ∷ ps) gap rest (gap', rest', e, f) =
    let (w, first) = after_index_first p gap (gap' ++ rest') in
    rw (e, first, match_rest)
      (rw (append_assoc w gap' rest') at (match_rest_complete q ps (w ++ gap') rest' f))

match_parts_iff :
    (p q : Text) (ps : List Text) (s : Text)
    → (match_parts (p ∷ q ∷ ps) s ≡ true) ↔ Fills (p ∷ q ∷ ps) s
unfolding match_parts
match_parts_iff p q ps s = (
  λ h.
      let here : has_prefix p s ≡ true = ground arith in
      let (gap, rest, e, f) = match_rest_sound q ps (drop (length p) s) (ground arith) in
      (gap, rest, sym (has_prefix_lem p s here) ∙ ap (λ r. p ++ r) e, f),
  λ (gap, rest, e, f).
      rw (e, has_prefix-append p (gap ++ rest), drop-append p (gap ++ rest))
        (match_rest_complete q ps gap rest f),
)

star_iff : (s : Text) → (glob_match (codes "*") s ≡ true) ↔ Fills (split b'*' (codes "*")) s
unfolding glob_match
star_iff s = (λ h. (s, [], sym (append-nil s), refl), λ f. refl)

-- A key matches a pattern exactly when the pattern with some text in place of each star is the key.
pub glob_match_iff :
    (pattern s : Text) → (glob_match pattern s ≡ true) ↔ Fills (split b'*' pattern) s
unfolding glob_match
glob_match_iff pattern s = elim (Bool-cases (pattern == codes "*")) [
  | inl star ↦
      subst (λ p. (glob_match p s ≡ true) ↔ Fills (split b'*' p) s)
        (sym ((==_iff pattern (codes "*")).0 star)) (star_iff s)
  | inr other ↦ elim (Bool-cases (contains_byte b'*' pattern)) [
    | inl some_star ↦
        let (p, q, ps, e) = split-some b'*' pattern some_star in
        rw (other, some_star, e) (match_parts_iff p q ps s)
    | inr no_star ↦
        rw (other, no_star, split-none b'*' pattern no_star)
          (λ h. sym ((==_iff pattern s).0 h), λ h. (==_iff pattern s).1 (sym h))
  ]
]
