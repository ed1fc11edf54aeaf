-- ===== src/Memory/Store/Scan.antt =====
-- store.go: which keys Keys returns.
use mathlib.Core.List.{Memᴰ}
use oniworks.Prelude.{
  ℕ, ◌≡◌, ap, ◌↔◌, ◌⊎◌, Bool, true, false, some, List, [], ◌∷◌, arith, if◌then◌else◌, inl, inr,
  Bool-cases, Option-cases,
}
use oniworks.Prelude.Text.{Text, text_eq, split}
use oniworks.Prelude.Dict
use oniworks.Prelude.Dict.{Dict}
use oniworks.Memory.Glob.{glob_match}
use oniworks.Memory.Glob.Laws.{Fills, glob_match_iff}
use oniworks.Memory.Store.{Value, Entry, Store, expired, matching_keys, keys}
use oniworks.Memory.Store.Laws.{view}

mem-cons {ℓ} : {A : Type ℓ} {a b : A} {l : List A} → Memᴰ a (b ∷ l) → (a ≡ b) ⊎ Memᴰ a l
mem-cons (Memᴰ.head p) = inl p
mem-cons (Memᴰ.tail m) = inr m

mem-if {ℓ} :
    {A : Type ℓ} {a : A} {l : List A} (b : A) (t : Bool)
    → Memᴰ a l
    → Memᴰ a (if t then b ∷ l else l)
mem-if b true m = Memᴰ.tail m
mem-if b false m = m

-- An entry of the list for the key has not expired, and the key matches.
abbrev Matches : ℕ → Text → Text → List (Text × Entry) → Type 0
Matches now pattern k es =
    (e : Entry) × Memᴰ (k, e) es × (expired now e ≡ false) × (glob_match pattern k ≡ true)

module _ (now : ℕ) (pattern : Text) where
  Matches-tail :
      {k : Text} {p : Text × Entry} {es : List (Text × Entry)}
      → Matches now pattern k es
      → Matches now pattern k (p ∷ es)
  Matches-tail (e, m, x, g) = (e, Memᴰ.tail m, x, g)

  -- One round: the key is kept when its entry has not expired and it matches.
  kept : Text → Entry → Bool
  kept j e = if expired now e then false else glob_match pattern j

  matching_keys-cons :
      (j : Text) (e : Entry) (es : List (Text × Entry))
      → matching_keys now pattern ((j, e) ∷ es)
        ≡ (if kept j e then j ∷ matching_keys now pattern es else matching_keys now pattern es)
  unfolding matching_keys kept
  matching_keys-cons j e es = ground arith

  mem-matching_keys_sound :
      (k : Text) (es : List (Text × Entry))
      → Memᴰ k (matching_keys now pattern es)
      → Matches now pattern k es
  unfolding kept
  mem-matching_keys_sound k [] m = unfold matching_keys in elim m [ ]
  mem-matching_keys_sound k ((j, e) ∷ es) m = elim (Bool-cases (kept j e)) [
    | inl take_it ↦ elim (mem-cons (rw (matching_keys-cons j e es, take_it) at m)) [
      | inl same ↦ (e, Memᴰ.head (ap (λ x. (x, e)) same), ground arith, rw same (ground arith))
      | inr later ↦ Matches-tail (mem-matching_keys_sound k es later)
    ]
    | inr skip ↦
        Matches-tail (mem-matching_keys_sound k es (rw (matching_keys-cons j e es, skip) at m))
  ]

  mem-matching_keys_complete :
      (k : Text) (e : Entry) (es : List (Text × Entry))
      → Memᴰ (k, e) es
      → expired now e ≡ false
      → glob_match pattern k ≡ true
      → Memᴰ k (matching_keys now pattern es)
  unfolding kept
  mem-matching_keys_complete k e [] m x g = elim m [ ]
  mem-matching_keys_complete k e ((j, f) ∷ es) (Memᴰ.head p) x g =
      let same_key : k ≡ j = ap (λ (q : Text × Entry). q.0) p in
      let same_entry : e ≡ f = ap (λ (q : Text × Entry). q.1) p in
      let take_it : kept j f ≡ true = ground arith in
      rw (matching_keys-cons j f es, take_it) (Memᴰ.head same_key)
  mem-matching_keys_complete k e ((j, f) ∷ es) (Memᴰ.tail m) x g =
      let rest = mem-matching_keys_complete k e es m x g in
      rw (matching_keys-cons j f es) (mem-if j (kept j f) rest)

-- Keys returns exactly the keys at which a value is seen and which the pattern becomes when some
-- text is put in place of each star.
pub mem-keys_iff :
    (now : ℕ) (pattern : Text) (s : Store) (k : Text)
    → Memᴰ k (keys now pattern s)
      ↔ (((v : Value) × (view now s k ≡ some v)) × Fills (split b'*' pattern) k)
unfolding keys
mem-keys_iff now pattern s k = (
  λ m.
      let (e, listed, here, g) = mem-matching_keys_sound now pattern k (Dict.entries s.table) m in
      let found = (Dict.mem-entries s.table k e).0 listed in
      ((e.value, ground arith), (glob_match_iff pattern k).0 g),
  λ ((v, seen), f). elim (Option-cases (Dict.get s.table k)) [
    | inl gone ↦ absurd (ground arith)
    | inr (e, found) ↦
        mem-matching_keys_complete now pattern k e (Dict.entries s.table)
          ((Dict.mem-entries s.table k e).1 found) (ground arith) ((glob_match_iff pattern k).1 f)
  ],
)
