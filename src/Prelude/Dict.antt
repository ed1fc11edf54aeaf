-- ===== src/Prelude/Dict.antt =====
-- Go maps as association lists behind their laws: a client has `dict_laws` and never the order of
-- the entries, which Go leaves open.
use mathlib.Core.Path.{◌≡◌, refl, sym, ap, ◌∙◌}
use mathlib.Core.Logic.{◌↔◌, inl, inr}
use mathlib.Core.Bool.{Bool}
use mathlib.Core.Option.{Option, none, some}
use mathlib.Core.List.{List, [], ◌∷◌, Memᴰ}
use native.Mathlib.Omega.{arith}
use oniworks.Prelude.Tests.{Eq, ◌==◌, if◌then◌else◌, Bool-cases}

pub record Dict {ℓ κ} (K : Type ℓ) (V : Type κ) : Type (ℓ ⊔ κ) where
  pairs : List (K × V)

-- `none` takes an entry out.
abbrev pub keep_if {ℓ} : {V : Type ℓ} → (V → Bool) → Option V → Option V
keep_if p none = none
keep_if p (some v) = if p v then some v else none

abbrev pub map_some {ℓ} : {V : Type ℓ} → (V → V) → Option V → Option V
map_some f none = none
map_some f (some v) = some (f v)

module _ {ℓ κ} {K : Type ℓ} {V : Type κ} ⦃e : Eq K⦄ where
  -- The value of the first pair with the key.
  unfoldable pub lookup : K → List (K × V) → Option V
  lookup k [] = none
  lookup k ((j, v) ∷ m) = if j == k then some v else lookup k m

  without : K → List (K × V) → List (K × V)
  without k [] = []
  without k ((j, v) ∷ m) = let rest = without k m in if j == k then rest else (j, v) ∷ rest

  -- Each key once, with the value that it has.
  distinct : List (K × V) → List (K × V)
  distinct [] = []
  distinct ((k, v) ∷ m) = (k, v) ∷ without k (distinct m)

  lookup-without :
      (k j : K) (m : List (K × V)) → lookup j (without k m) ≡ (if k == j then none else lookup j m)
  unfolding lookup without
  lookup-without k j [] = ground arith
  lookup-without k j ((i, v) ∷ m) =
      ground (arith, lookup-without k j m, e.test_iff i k, e.test_iff i j, e.test_iff k j)

  lookup-distinct : (k : K) (m : List (K × V)) → lookup k (distinct m) ≡ lookup k m
  unfolding lookup distinct
  lookup-distinct k [] = refl
  lookup-distinct k ((j, v) ∷ m) =
      ground (arith, lookup-without j k (distinct m), lookup-distinct k m)

  -- No two pairs have the same key.
  abbrev pub IsDistinct : List (K × V) → Type κ
  IsDistinct [] = Unit
  IsDistinct ((k, v) ∷ m) = (lookup k m ≡ none) × IsDistinct m

  without-IsDistinct : (k : K) (m : List (K × V)) → IsDistinct m → IsDistinct (without k m)
  unfolding without
  without-IsDistinct k [] h = tt
  without-IsDistinct k ((j, v) ∷ m) (fresh, h) =
      ground (arith, lookup-without k j m, without-IsDistinct k m h)

  distinct-IsDistinct : (m : List (K × V)) → IsDistinct (distinct m)
  unfolding distinct
  distinct-IsDistinct [] = tt
  distinct-IsDistinct ((k, v) ∷ m) = (
    ground (arith, lookup-without k k (distinct m), e.test_iff k k),
    without-IsDistinct k (distinct m) (distinct-IsDistinct m),
  )

  keep : (K → V → Bool) → List (K × V) → List (K × V)
  unfolding without
  keep p [] = []
  keep p ((k, v) ∷ m) = let rest = keep p m in if p k v then (k, v) ∷ rest else without k rest

  lookup-keep :
      (p : K → V → Bool) (j : K) (m : List (K × V))
      → lookup j (keep p m) ≡ keep_if (p j) (lookup j m)
  unfolding lookup keep
  lookup-keep p j [] = refl
  lookup-keep p j ((k, v) ∷ m) =
      ground (arith, lookup-keep p j m, lookup-without k j (keep p m), e.test_iff k j)

  -- A pair is found by its key, and only so.
  mem-of-lookup : (k : K) (v : V) (m : List (K × V)) → lookup k m ≡ some v → Memᴰ (k, v) m
  unfolding lookup
  mem-of-lookup k v [] h = cc
  mem-of-lookup k v ((j, w) ∷ m) h = elim (Bool-cases (j == k)) [
    | inl same ↦ Memᴰ.head (ground (arith, e.test_iff j k))
    | inr other ↦ Memᴰ.tail (mem-of-lookup k v m (ground arith))
  ]

  lookup-of-mem :
      (k : K) (v : V) (m : List (K × V)) → IsDistinct m → Memᴰ (k, v) m → lookup k m ≡ some v
  unfolding lookup
  lookup-of-mem k v [] d h = elim h [ ]
  lookup-of-mem k v ((j, w) ∷ m) d (Memᴰ.head p) =
      ground (arith, e.test_iff j k, ap (λ (q : K × V). q.0) p, ap (λ (q : K × V). q.1) p)
  lookup-of-mem k v ((j, w) ∷ m) d (Memᴰ.tail h) =
      ground (arith, e.test_iff j k, lookup-of-mem k v m d.1 h)

  over : (V → V) → List (K × V) → List (K × V)
  over f [] = []
  over f ((k, v) ∷ m) = (k, f v) ∷ over f m

  lookup-over :
      (f : V → V) (j : K) (m : List (K × V)) → lookup j (over f m) ≡ map_some f (lookup j m)
  unfolding lookup over
  lookup-over f j [] = refl
  lookup-over f j ((k, v) ∷ m) = ground (arith, lookup-over f j m)

  -- make(map[K]V)
  pub empty : Dict K V
  empty = record { pairs = [] }

  -- v, ok := d[k]
  pub get : Dict K V → K → Option V
  unfolding lookup
  get d k = lookup k d.pairs

  -- d[k] = v
  pub put : Dict K V → K → V → Dict K V
  unfolding without
  put d k v = record { pairs = (k, v) ∷ without k d.pairs }

  -- delete(d, k)
  pub remove : Dict K V → K → Dict K V
  unfolding without
  remove d k = record { pairs = without k d.pairs }

  -- for k, v := range d { if !p(k, v) { delete(d, k) } }
  pub filter : (K → V → Bool) → Dict K V → Dict K V
  unfolding keep
  filter p d = record { pairs = keep p d.pairs }

  -- for k, v := range d
  pub entries : Dict K V → List (K × V)
  unfolding distinct
  entries d = distinct d.pairs

  -- for _, v := range d { f(v) }, where the values are pointers
  pub update_all : (V → V) → Dict K V → Dict K V
  unfolding over
  update_all f d = record { pairs = over f d.pairs }

  pub get-empty : (k : K) → get empty k ≡ none
  unfolding get empty
  get-empty k = refl

  pub get-put :
      (d : Dict K V) (k j : K) (v : V) → get (put d k v) j ≡ (if k == j then some v else get d j)
  unfolding get put
  get-put d k j v = ground (arith, lookup-without k j d.pairs)

  pub get-remove :
      (d : Dict K V) (k j : K) → get (remove d k) j ≡ (if k == j then none else get d j)
  unfolding get remove
  get-remove d k j = lookup-without k j d.pairs

  pub get-filter :
      (p : K → V → Bool) (d : Dict K V) (j : K) → get (filter p d) j ≡ keep_if (p j) (get d j)
  unfolding get filter
  get-filter p d j = lookup-keep p j d.pairs

  pub get-update_all :
      (f : V → V) (d : Dict K V) (j : K) → get (update_all f d) j ≡ map_some f (get d j)
  unfolding get update_all
  get-update_all f d j = lookup-over f j d.pairs

  pub lookup-entries : (d : Dict K V) (k : K) → lookup k (entries d) ≡ get d k
  unfolding get entries
  lookup-entries d k = lookup-distinct k d.pairs

  pub entries-IsDistinct : (d : Dict K V) → IsDistinct (entries d)
  unfolding entries
  entries-IsDistinct d = distinct-IsDistinct d.pairs

  pub mem-entries : (d : Dict K V) (k : K) (v : V) → Memᴰ (k, v) (entries d) ↔ (get d k ≡ some v)
  mem-entries d k v = (
    λ m. sym (lookup-entries d k) ∙ lookup-of-mem k v (entries d) (entries-IsDistinct d) m,
    λ h. mem-of-lookup k v (entries d) (lookup-entries d k ∙ h),
  )

pub ruleset dict_laws = (get-empty, get-put, get-remove, get-filter, get-update_all)
