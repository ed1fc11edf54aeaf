-- ===== src/Prelude/Text/Search.antt =====
-- strings.HasSuffix and strings.Index, with what they find.
use Prim.Native.Nat.{ℕ, zero, suc, ◌≤◌}
use mathlib.Core.Path.{◌≡◌, refl, sym, ap, ◌∙◌}
use mathlib.Core.Logic.{inl, inr}
use mathlib.Core.Bool.{Bool, true, ◌||◌}
use mathlib.Core.Option.{Option, none, some}
use mathlib.Core.List.{[], ◌∷◌, ◌++◌, append_assoc}
use native.Mathlib.Omega.{arith}
use oniworks.Prelude.Tests.{if◌then◌else◌, list_beq, list_beq_iff, nat_eq, Bool-cases}
use oniworks.Prelude.Lists.{length, drop, length-append}
use oniworks.Prelude.Text.{Text, has_prefix, has_prefix_lem, has_prefix-append, drop-append}

-- strings.HasSuffix(s, p), with the suffix first
unfoldable pub has_suffix : Text → Text → Bool
has_suffix p [] = list_beq p []
has_suffix p (x ∷ s) = list_beq p (x ∷ s) || has_suffix p s

-- The bytes after the first occurrence of `p`, `s[strings.Index(s, p)+len(p):]`, if there is one.
unfoldable pub after_index : Text → Text → Option Text
after_index p [] = if list_beq p [] then some [] else none
after_index p (x ∷ s) =
    let later = after_index p s in
    if has_prefix p (x ∷ s) then some (drop (length p) (x ∷ s)) else later

drop-append_le : (n : ℕ) (s t : Text) → n ≤ length s → drop n (s ++ t) ≡ drop n s ++ t
drop-append_le zero s t h = refl
drop-append_le (suc n) [] t h = absurd (omega arith)
drop-append_le (suc n) (x ∷ s) t h = drop-append_le n s t (omega arith)

-- What a prefix leaves of a text with an occurrence holds the text behind that occurrence.
drop-append_occurrence :
    (p u t : Text) → drop (length p) (u ++ (p ++ t)) ≡ drop (length p) (u ++ p) ++ t
drop-append_occurrence p u t =
    ap (drop (length p)) (sym (append_assoc u p t))
    ∙ drop-append_le (length p) (u ++ p) t (omega (arith, length-append {0} u p))

-- The text that `after_index` returns follows an occurrence.
pub after_index_sound :
    (p s : Text) {t : Text} → after_index p s ≡ some t → (u : Text) × (s ≡ u ++ (p ++ t))
unfolding after_index
after_index_sound p [] h = ([], ground (arith, list_beq_iff p []))
after_index_sound p (x ∷ s) {t} h = elim (Bool-cases (has_prefix p (x ∷ s))) [
  | inl here ↦ ([], sym (has_prefix_lem p (x ∷ s) here) ∙ ap (λ r. p ++ r) (ground arith))
  | inr later ↦ let (u, e) = after_index_sound p s {t = t} (ground arith) in (x ∷ u, ap (◌∷◌ x) e)
]

-- The occurrence is the first: what follows any other is a suffix of what `after_index` returns.
pub after_index_first :
    (p u t : Text) → (w : Text) × (after_index p (u ++ (p ++ t)) ≡ some (w ++ t))
unfolding after_index
after_index_first [] [] [] = ([], refl)
after_index_first [] [] (x ∷ t) = ([], refl)
after_index_first (c ∷ p) [] t =
    ([], ground (arith, has_prefix-append (c ∷ p) t, drop-append (c ∷ p) t))
after_index_first p (x ∷ u) t = elim (Bool-cases (has_prefix p (x ∷ (u ++ (p ++ t))))) [
  | inl here ↦
      (drop (length p) ((x ∷ u) ++ p), rw here (ap some (drop-append_occurrence p (x ∷ u) t)))
  | inr later ↦ let (w, e) = after_index_first p u t in (w, rw later e)
]

pub has_suffix_sound : (p s : Text) → has_suffix p s ≡ true → (u : Text) × (s ≡ u ++ p)
unfolding has_suffix
has_suffix_sound p [] h = ([], sym ((list_beq_iff p []).0 h))
has_suffix_sound p (x ∷ s) h = elim (Bool-cases (list_beq p (x ∷ s))) [
  | inl whole ↦ ([], sym ((list_beq_iff p (x ∷ s)).0 whole))
  | inr other ↦ let (u, e) = has_suffix_sound p s (ground arith) in (x ∷ u, ap (◌∷◌ x) e)
]

pub has_suffix-append : (u p : Text) → has_suffix p (u ++ p) ≡ true
unfolding has_suffix
has_suffix-append [] [] = refl
has_suffix-append [] (c ∷ p) = ground (arith, list_beq_iff (c ∷ p) (c ∷ p))
has_suffix-append (x ∷ u) p = ground (arith, has_suffix-append u p)
