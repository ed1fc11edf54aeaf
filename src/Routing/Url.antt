-- ===== src/Routing/Url.antt =====
-- framework/routing/router.go: URL, the path of a named route, and its way back through match.
use mathlib.Core.List.{append-nil}
use oniworks.Prelude.{
  ◌≡◌, ◌≢◌, refl, ap, ◌∙◌, inl, inr, arith, ==_iff, ==-refl, Bool-cases, Bool-false, Option-cases,
  Bool, true, false, not, ◌&&◌, ◌||◌, Option, none, some, List, [], ◌∷◌, ◌++◌, if◌then◌else◌, ◌==◌,
  nat_eq,
}
use oniworks.Prelude.Text.{Text, text_eq, split, split-none, split-append, contains_byte}
use oniworks.Prelude.Dict
use oniworks.Prelude.Dict.{Dict}
use oniworks.Routing.Pattern.{Segment, trim_suffix, split_path, match_segments, match}
use oniworks.Routing.{CompiledRoute, Router}

-- The pairs of the variadic params; a last one without a value is dropped.
abbrev pub pairs : List Text → Dict Text Text → Dict Text Text
pairs [] kv = kv
pairs (k ∷ []) kv = kv
pairs (k ∷ v ∷ more) kv = pairs more (Dict.put kv k v)

pub data UrlResult : Type 0 where
  url_ok : Text → UrlResult
  no_route : Text → UrlResult
  missing_param : Text → UrlResult

abbrev put_before : Text → UrlResult → UrlResult
put_before s (url_ok t) = url_ok (b'/' ∷ s ++ t)
put_before s (no_route n) = no_route n
put_before s (missing_param p) = missing_param p

abbrev or_empty : Option Text → Text
or_empty none = []
or_empty (some v) = v

-- The loop of URL over the segments.
url_segments : List Segment → Dict Text Text → UrlResult
url_segments [] kv = url_ok []
url_segments (seg ∷ segs) kv =
    let rest = url_segments segs kv in
    if seg.wild
    then put_before (or_empty (Dict.get kv seg.param)) rest
    else if not (seg.param == [])
    then elim (Dict.get kv seg.param) [
      | none ↦ missing_param seg.param
      | some v ↦ put_before v rest
    ]
    else put_before seg.lit rest

pub url : {Handler : Type 0} → Router Handler → Text → List Text → UrlResult
unfolding url_segments
url r name params = elim (Dict.get r.named_routes name) [
  | none ↦ no_route name
  | some cr ↦ url_segments cr.segments (pairs params Dict.empty)
]

-- A slash before each part.
abbrev path_of : List Text → Text
path_of [] = []
path_of (p ∷ ps) = b'/' ∷ (p ++ path_of ps)

-- Each part has a byte, and none is a slash.
abbrev pub IsProper : List Text → Type 0
IsProper [] = Unit
IsProper (p ∷ ps) = ((p ≢ []) × (contains_byte b'/' p ≡ false)) × IsProper ps

-- The text does not end with a slash.
abbrev ends_open : Text → Bool
ends_open [] = true
ends_open (c ∷ []) = not (c == b'/')
ends_open (c ∷ d ∷ s) = ends_open (d ∷ s)

trim_suffix-open : (s : Text) → ends_open s ≡ true → trim_suffix s ≡ s
trim_suffix-open [] h = refl
trim_suffix-open (c ∷ []) h = ground arith
trim_suffix-open (c ∷ d ∷ s) h = ap (◌∷◌ c) (trim_suffix-open (d ∷ s) h)

ends_open-append : (s t : Text) → t ≢ [] → ends_open (s ++ t) ≡ ends_open t
ends_open-append [] t h = refl
ends_open-append (c ∷ []) [] h = absurd (h refl)
ends_open-append (c ∷ []) (d ∷ t) h = refl
ends_open-append (c ∷ d ∷ s) t h = ends_open-append (d ∷ s) t h

ends_open-none : (s : Text) → contains_byte b'/' s ≡ false → ends_open s ≡ true
ends_open-none [] h = refl
ends_open-none (c ∷ []) h = ground arith
ends_open-none (c ∷ d ∷ s) h = ends_open-none (d ∷ s) (ground arith)

append_ne_nil : (p s : Text) → p ≢ [] → (p ++ s) ≢ []
append_ne_nil [] s h = absurd (h refl)
append_ne_nil (c ∷ p) s h = λ e. cc

ends_open-path_of :
    (p : Text) (ps : List Text) → IsProper (p ∷ ps) → ends_open (p ++ path_of ps) ≡ true
ends_open-path_of p [] ((filled, plain), h) = rw (append-nil p) (ends_open-none p plain)
ends_open-path_of p (q ∷ qs) ((filled, plain), ((filled', plain'), h)) =
    ends_open-append p (path_of (q ∷ qs)) (λ e. cc)
    ∙ ends_open-append (b'/' ∷ []) (q ++ path_of qs) (append_ne_nil q (path_of qs) filled')
    ∙ ends_open-path_of q qs ((filled', plain'), h)

split-path_of :
    (p : Text) (ps : List Text) → IsProper (p ∷ ps) → split b'/' (p ++ path_of ps) ≡ p ∷ ps
split-path_of p [] ((filled, plain), h) = rw (append-nil p) (split-none b'/' p plain)
split-path_of p (q ∷ qs) ((filled, plain), h) =
    split-append b'/' p (q ++ path_of qs)
    ∙ rw (split-none b'/' p plain) (ap (◌∷◌ p) (split-path_of q qs h))

-- The parts of a path are read back.
split_path-path_of : (ps : List Text) → IsProper ps → split_path (path_of ps) ≡ ps
unfolding split_path
split_path-path_of [] h = refl
split_path-path_of (p ∷ ps) h =
    rw
      (
        trim_suffix-open (p ++ path_of ps) (ends_open-path_of p ps h),
        Bool-false ((p ++ path_of ps) == [])
            (λ e. append_ne_nil p (path_of ps) h.0.0 ((==_iff (p ++ path_of ps) []).0 e)),
      )
      (split-path_of p ps h)

-- What URL writes for a segment.
abbrev value_of : Segment → Dict Text Text → Text
value_of seg kv = if seg.param == [] then seg.lit else or_empty (Dict.get kv seg.param)

abbrev pub values : List Segment → Dict Text Text → List Text
values [] kv = []
values (seg ∷ segs) kv = value_of seg kv ∷ values segs kv

abbrev pub is_some : Option Text → Bool
is_some none = false
is_some (some v) = true

-- No segment is a wildcard, and each named parameter has a value.
abbrev pub IsPlain : List Segment → Dict Text Text → Type 0
IsPlain [] kv = Unit
IsPlain (seg ∷ segs) kv =
    ((seg.wild ≡ false) × (seg.param ≢ [] → is_some (Dict.get kv seg.param) ≡ true))
    × IsPlain segs kv

-- Some segment is the parameter `k`.
abbrev pub has_param : Text → List Segment → Bool
has_param k [] = false
has_param k (seg ∷ segs) = (not (seg.param == []) && (seg.param == k)) || has_param k segs

url_segments-values :
    (segs : List Segment) (kv : Dict Text Text)
    → IsPlain segs kv
    → url_segments segs kv ≡ url_ok (path_of (values segs kv))
unfolding url_segments
url_segments-values [] kv h = refl
url_segments-values (seg ∷ segs) kv ((plain, given), h) = elim (Bool-cases (seg.param == [])) [
  | inl lit ↦ rw (plain, lit, url_segments-values segs kv h) refl
  | inr named ↦ elim (Option-cases (Dict.get kv seg.param)) [
    | inl missing ↦ absurd (ground (arith, given (λ e. ground (arith, ==_iff seg.param []))))
    | inr (v, there) ↦ rw (plain, named, there, url_segments-values segs kv h) refl
  ]
]

match_segments-values :
    (segs : List Segment) (kv acc : Dict Text Text)
    → IsPlain segs kv
    → (params : Dict Text Text) × (match_segments segs (values segs kv) acc ≡ some params)
      × ((k : Text)
          → Dict.get params k ≡ (if has_param k segs then Dict.get kv k else Dict.get acc k))
unfolding match_segments
match_segments-values [] kv acc h = (acc, refl, λ k. refl)
match_segments-values (seg ∷ segs) kv acc ((plain, given), h) =
    elim (Bool-cases (seg.param == [])) [
      | inl lit ↦
          let (params, e, at) = match_segments-values segs kv acc h in
          (
            params,
            rw (plain, lit) (ground (arith, e, ==-refl seg.lit)),
            λ k. ground (arith, at k, lit),
          )
      | inr named ↦ elim (Option-cases (Dict.get kv seg.param)) [
        | inl missing ↦ absurd (ground (arith, given (λ e. ground (arith, ==_iff seg.param []))))
        | inr (v, there) ↦
            let (params, e, at) = match_segments-values segs kv (Dict.put acc seg.param v) h in
            (
              params,
              rw (plain, named, there) (ground (arith, e)),
              λ k.
                  ground
                    (arith, at k, named, there, Dict.get-put acc seg.param k v, ==_iff seg.param k),
            )
      ]
    ]

-- The URL of a named route without wildcards, with a value for each parameter, is matched by the
-- route again, and each parameter gets its value back, if each part of the path has a byte and no
-- slash.
pub match-url :
    {Handler : Type 0} (r : Router Handler) (name : Text) (params : List Text)
    (cr : CompiledRoute Handler)
    → Dict.get r.named_routes name ≡ some cr
    → IsPlain cr.segments (pairs params Dict.empty)
    → IsProper (values cr.segments (pairs params Dict.empty))
    → (path : Text) × (got : Dict Text Text) × (url r name params ≡ url_ok path)
      × (match cr.segments path ≡ some got)
      × ((k : Text)
          → Dict.get got k
            ≡ (if has_param k cr.segments then Dict.get (pairs params Dict.empty) k else none))
unfolding url match
match-url r name params cr named plain proper =
    let kv = pairs params Dict.empty in
    let (got, e, at) = match_segments-values cr.segments kv Dict.empty plain in
    (
      path_of (values cr.segments kv),
      got,
      rw (named, url) (url_segments-values cr.segments kv plain),
      rw (split_path-path_of (values cr.segments kv) proper) e,
      λ k. ground (arith, at k, Dict.get-empty {V = Text} k),
    )
