-- ===== src/Database/Ident/Plain.antt =====
-- framework/database/builder.go: of which bytes a column reference that is accepted consists.
use oniworks.Prelude.{
  ℕ, ◌≡◌, refl, subst, Bool, true, false, ◌||◌, Option, none, some, List, [], ◌∷◌, ◌++◌, arith,
  if◌then◌else◌, ltb, length, ◌==◌, nat_eq, inl, inr, Bool-cases, Every, Every-append,
}
use oniworks.Prelude.Text.{Text, text_eq, codes, split, join}
use oniworks.Prelude.Text.Ascii.{trim_space}
use oniworks.Database.Grammar.{Dialect, quote_byte, double_byte, quote_ident, join_with}
use oniworks.Database.Ident.{
  is_letter, is_digit, all_word_bytes, is_safe_ident_segment, bind, quote_segment, quote_parts,
  join_parts, quote_column_ref,
}

-- A letter, a digit, the underscore, the dialect's quote, the point, the star, the comma or a space.
-- So neither a semicolon nor a parenthesis, a single quote, a hyphen or a slash.
abbrev pub is_plain : Dialect → ℕ → Bool
is_plain d c =
    is_letter c
    || is_digit c
    || (c == quote_byte d)
    || (c == b'.')
    || (c == b'*')
    || (c == b',')
    || (c == b' ')

abbrev pub IsPlain : Dialect → Text → Type 0
IsPlain d = Every (λ c. is_plain d c ≡ true)

pub all_word_bytes-IsPlain : (d : Dialect) (s : Text) → all_word_bytes s ≡ true → IsPlain d s
unfolding all_word_bytes
all_word_bytes-IsPlain d [] h = tt
all_word_bytes-IsPlain d (c ∷ s) h = (ground arith, all_word_bytes-IsPlain d s (ground arith))

pub is_safe_ident_segment-IsPlain :
    (d : Dialect) (s : Text) → is_safe_ident_segment s ≡ true → IsPlain d s
unfolding is_safe_ident_segment
is_safe_ident_segment-IsPlain d [] h = tt
is_safe_ident_segment-IsPlain d (c ∷ s) h =
    (ground arith, all_word_bytes-IsPlain d s (ground arith))

double_byte-IsPlain : (d : Dialect) (q : ℕ) (s : Text) → IsPlain d s → IsPlain d (double_byte q s)
unfolding double_byte
double_byte-IsPlain d q [] h = tt
double_byte-IsPlain d q (c ∷ s) h = elim (Bool-cases (c == q)) [
  | inl same ↦ rw same (h.0, (h.0, double_byte-IsPlain d q s h.1))
  | inr other ↦ rw other (h.0, double_byte-IsPlain d q s h.1)
]

pub append-IsPlain : (d : Dialect) (s t : Text) → IsPlain d s → IsPlain d t → IsPlain d (s ++ t)
append-IsPlain d s t h k = (Every-append (λ c. is_plain d c ≡ true) s t).1 (h, k)

pub quote_ident-IsPlain : (d : Dialect) (s : Text) → IsPlain d s → IsPlain d (quote_ident d s)
unfolding quote_ident
quote_ident-IsPlain d s h =
    let q : is_plain d (quote_byte d) ≡ true = ground arith in
    (
      q,
      append-IsPlain d (double_byte (quote_byte d) s) (quote_byte d ∷ [])
          (double_byte-IsPlain d (quote_byte d) s h) (q, tt),
    )

pub bind-some :
    {A B : Type 0} (o : Option A) (k : A → Option B) (b : B)
    → bind o k ≡ some b
    → (a : A) × (o ≡ some a) × (k a ≡ some b)
bind-some none k b h = absurd (cc)
bind-some (some a) k b h = (a, refl, h)

pub some-injective : {A : Type 0} (a b : A) → some a ≡ some b → a ≡ b
some-injective a b h = cc

-- A guard that is passed.
pub guard-some :
    {A : Type 0} (b : Bool) (a c : A) → (if b then some a else none) ≡ some c → (b ≡ true) × (a ≡ c)
guard-some true a c h = (refl, some-injective a c h)
guard-some false a c h = absurd (cc)

star-IsPlain : (d : Dialect) → IsPlain d (codes "*")
star-IsPlain d = (ground arith, tt)

quote_segment-IsPlain : (d : Dialect) (p q : Text) → quote_segment d p ≡ some q → IsPlain d q
unfolding quote_segment
quote_segment-IsPlain d p q h =
    let (safe, same) = guard-some (is_safe_ident_segment p) (quote_ident d p) q h in
    subst (IsPlain d) same (quote_ident-IsPlain d p (is_safe_ident_segment-IsPlain d p safe))

quote_parts-IsPlain :
    (d : Dialect) (ps qs : List Text) → quote_parts d ps ≡ some qs → Every (IsPlain d) qs
unfolding quote_parts
quote_parts-IsPlain d [] qs h = subst (Every (IsPlain d)) (some-injective [] qs h) tt
quote_parts-IsPlain d (p ∷ []) qs h = elim (Bool-cases (trim_space p == codes "*")) [
  | inl star ↦
      let same : some (codes "*" ∷ []) ≡ some qs = rw star at h in
      subst (Every (IsPlain d)) (some-injective (codes "*" ∷ []) qs same) (star-IsPlain d, tt)
  | inr other ↦
      let rest : bind (quote_segment d (trim_space p)) (λ q. some (q ∷ [])) ≡ some qs =
        rw other at h in
      let (q, e, same) = bind-some (quote_segment d (trim_space p)) (λ q. some (q ∷ [])) qs rest in
      subst (Every (IsPlain d)) (some-injective (q ∷ []) qs same)
        (quote_segment-IsPlain d (trim_space p) q e, tt)
]
quote_parts-IsPlain d (p ∷ r ∷ ps) qs h =
    let (q, e, more) =
      bind-some (quote_segment d (trim_space p))
        (λ q. bind (quote_parts d (r ∷ ps)) (λ qs. some (q ∷ qs))) qs h in
    let (rest, e', same) = bind-some (quote_parts d (r ∷ ps)) (λ qs. some (q ∷ qs)) qs more in
    subst (Every (IsPlain d)) (some-injective (q ∷ rest) qs same)
      (quote_segment-IsPlain d (trim_space p) q e, quote_parts-IsPlain d (r ∷ ps) rest e')

join-IsPlain : (d : Dialect) (ps : List Text) → Every (IsPlain d) ps → IsPlain d (join b'.' ps)
join-IsPlain d [] h = tt
join-IsPlain d (p ∷ []) h = h.0
join-IsPlain d (p ∷ q ∷ ps) h =
    append-IsPlain d p (b'.' ∷ join b'.' (q ∷ ps)) h.0 (ground arith, join-IsPlain d (q ∷ ps) h.1)

pub join_with-IsPlain :
    (d : Dialect) (sep : Text) (ps : List Text)
    → IsPlain d sep
    → Every (IsPlain d) ps
    → IsPlain d (join_with sep ps)
join_with-IsPlain d sep [] k h = tt
join_with-IsPlain d sep (p ∷ []) k h = h.0
join_with-IsPlain d sep (p ∷ q ∷ ps) k h =
    append-IsPlain d (p ++ sep) (join_with sep (q ∷ ps)) (append-IsPlain d p sep h.0 k)
      (join_with-IsPlain d sep (q ∷ ps) k h.1)

join_parts-IsPlain :
    (d : Dialect) (o : Option (List Text)) (q : Text)
    → ((ps : List Text) → o ≡ some ps → Every (IsPlain d) ps)
    → join_parts o ≡ some q
    → IsPlain d q
unfolding join_parts
join_parts-IsPlain d none q h e = absurd (cc)
join_parts-IsPlain d (some ps) q h e =
    subst (IsPlain d) (some-injective (join b'.' ps) q e) (join-IsPlain d ps (h ps refl))

-- Of a column reference that is accepted, every byte is plain.
pub quote_column_ref-IsPlain :
    (d : Dialect) (s q : Text) → quote_column_ref d s ≡ some q → IsPlain d q
unfolding quote_column_ref join_parts
quote_column_ref-IsPlain d s q h = elim (Bool-cases (trim_space s == codes "*")) [
  | inl star ↦
      let same : some (codes "*") ≡ some q = rw star at h in
      subst (IsPlain d) (some-injective (codes "*") q same) (star-IsPlain d)
  | inr other ↦ elim (Bool-cases (ltb 2 (length (split b'.' (trim_space s))))) [
    | inl long ↦ let never : none ≡ some q = rw (other, long) at h in cc
    | inr short ↦
        let parts = split b'.' (trim_space s) in
        let joined : join_parts (quote_parts d parts) ≡ some q = rw (other, short) at h in
        join_parts-IsPlain d (quote_parts d parts) q (quote_parts-IsPlain d parts) joined
  ]
]
