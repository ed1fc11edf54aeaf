-- ===== src/RateLimit/Window.antt =====
-- ratelimit.go: no window holds more than `max` accepted requests, and none is refused without need.
use oniworks.Prelude.{
  ℕ, suc, ◌+◌, ◌≤◌, ◌<◌, ◌≡◌, refl, sym, ap, ◌∙◌, Bool, true, false, ◌&&◌, Option, none, some, List,
  [], ◌∷◌, ◌++◌, arith, if◌then◌else◌, ltb, leb, ◌==◌, ==_iff, ==-refl, length, select,
}
use oniworks.Prelude.Text.{Text, text_eq}
use oniworks.Prelude.Dict
use oniworks.Prelude.Dict.{Dict, keep_if, map_some}
use oniworks.RateLimit.{
  WindowStore, is_recent, stamps, is_filled, allow, remaining, cleanup, new_window_store,
}

-- How many of the times pass a test.
pub count : (ℕ → Bool) → List ℕ → ℕ
count p [] = 0
count p (t ∷ ts) = if p t then suc (count p ts) else count p ts

-- How many of the times lie behind `x` and not behind `x + window`.
abbrev pub within : ℕ → ℕ → List ℕ → ℕ
within window x = count (λ t. ltb x t && leb t (x + window))

-- How many of the times are recent at `now`.
abbrev pub recent : ℕ → ℕ → List ℕ → ℕ
recent window now = count (is_recent window now)

length-select-count : (p : ℕ → Bool) (ts : List ℕ) → length (select p ts) ≡ count p ts
unfolding count
length-select-count p [] = refl
length-select-count p (t ∷ ts) = ground (arith, length-select-count p ts)

-- Dropping what is not recent now loses nothing that is recent later.
recent-select :
    (window now later : ℕ) (ts : List ℕ)
    → now ≤ later
    → recent window later (select (is_recent window now) ts) ≡ recent window later ts
unfolding count
recent-select window now later [] h = refl
recent-select window now later (t ∷ ts) h = ground (arith, recent-select window now later ts h)

count-append : (p : ℕ → Bool) (ts : List ℕ) (t : ℕ) → count p (ts ++ t ∷ []) ≡ count p (t ∷ ts)
unfolding count
count-append p [] t = refl
count-append p (u ∷ ts) t = ground (arith, count-append p ts t)

count-cons :
    (p : ℕ → Bool) (t : ℕ) (ts us : List ℕ)
    → count p ts ≡ count p us
    → count p (t ∷ ts) ≡ count p (t ∷ us)
unfolding count
count-cons p t ts us h = ground arith

stamps-put :
    (d : Dict Text (List ℕ)) (k j : Text) (ts : List ℕ)
    → stamps (Dict.get (Dict.put d k ts) j) ≡ (if k == j then ts else stamps (Dict.get d j))
stamps-put d k j ts = ground (arith, Dict.get-put d k j ts)

stamps-put_self :
    (d : Dict Text (List ℕ)) (k : Text) (ts : List ℕ) → stamps (Dict.get (Dict.put d k ts) k) ≡ ts
stamps-put_self d k ts = ground (arith, stamps-put d k k ts, ==-refl k)

filled_stamps : (ts : List ℕ) → stamps (keep_if is_filled (some ts)) ≡ ts
filled_stamps [] = refl
filled_stamps (t ∷ ts) = refl

-- An empty entry reads like an absent one.
kept_stamps :
    (f : List ℕ → List ℕ)
    → f [] ≡ []
    → (o : Option (List ℕ)) → stamps (keep_if is_filled (map_some f o)) ≡ f (stamps o)
kept_stamps f e none = sym e
kept_stamps f e (some ts) = filled_stamps (f ts)

stamps-cleanup :
    (s : WindowStore) (k : Text) (now : ℕ)
    → stamps (Dict.get (cleanup now s).entries k)
      ≡ select (is_recent s.window now) (stamps (Dict.get s.entries k))
unfolding cleanup
stamps-cleanup s k now =
    ap stamps (
      Dict.get-filter (λ (_ : Text) (ts : List ℕ). is_filled ts)
        (Dict.update_all (select (is_recent s.window now)) s.entries) k
      ∙ ap (keep_if is_filled) (Dict.get-update_all (select (is_recent s.window now)) s.entries k))
    ∙ kept_stamps (select (is_recent s.window now)) refl (Dict.get s.entries k)

-- What lies in a window that reaches to now or further is recent now.
within-le-recent :
    (window x now : ℕ) (ts : List ℕ) → now ≤ x + window → within window x ts ≤ recent window now ts
unfolding count
within-le-recent window x now [] h = omega arith
within-le-recent window x now (t ∷ ts) h = ground (arith, within-le-recent window x now ts h)

-- The stored times of the key are, for every question that can still be asked, those of the
-- accepted requests, and no window holds more than `max` of these.
pub record Tracks (key : Text) (last : ℕ) (s : WindowStore) (h : List ℕ) : Type 0 where
  pub same :
      (c : ℕ) → last ≤ c → recent s.window c (stamps (Dict.get s.entries key)) ≡ recent s.window c h
  pub bounded : (x : ℕ) → within s.window x h ≤ s.max

pub Tracks-new : (key : Text) (max window : ℕ) → Tracks key 0 (new_window_store max window) []
unfolding new_window_store count
Tracks-new key max window = record {
  same = λ c le. ap (recent window c) (ap stamps (Dict.get-empty key));
  bounded = λ x. omega arith;
}

module _ (key : Text) (last now : ℕ) (s : WindowStore) (h : List ℕ) (t : Tracks key last s h)
    (later : last ≤ now) where
  -- The valid times of a key that is asked for at `now`.
  abbrev pub valid : List ℕ
  valid = select (is_recent s.window now) (stamps (Dict.get s.entries key))

  length-valid : length valid ≡ recent s.window now h
  length-valid = length-select-count (is_recent s.window now) _ ∙ t.same now later

  -- A request is accepted exactly when fewer than `max` accepted requests are recent.
  pub allow-eq : (allow now key s).0 ≡ ltb (recent s.window now h) s.max
  unfolding allow
  allow-eq = ground (arith, length-valid)

  -- The stored times answer for the history at every later time.
  keeps-same :
      (ts : List ℕ)
      → ((c : ℕ)
          → now ≤ c
          → recent s.window c ts ≡ recent s.window c (stamps (Dict.get s.entries key)))
      → (c : ℕ) → now ≤ c
      → recent s.window c ts ≡ recent s.window c h
  keeps-same ts e c le = e c le ∙ t.same c (omega arith)

  -- An accepted request goes into no window that is full.
  bounded-cons : recent s.window now h < s.max → (x : ℕ) → within s.window x (now ∷ h) ≤ s.max
  unfolding count
  bounded-cons room x = ground (arith, t.bounded x, within-le-recent s.window x now h)

  pub Tracks-full :
      leb s.max (length valid) ≡ true
      → (allow now key s ≡ (false, record s { entries = Dict.put s.entries key valid }))
        × Tracks key now (record s { entries = Dict.put s.entries key valid }) h
  unfolding allow
  Tracks-full full = (
    ground arith,
    record {
      same = keeps-same _ (λ c le. ground (
        arith,
        stamps-put s.entries key key valid,
        ==-refl key,
        recent-select s.window now c (stamps (Dict.get s.entries key)) le,
      ));
      bounded = t.bounded;
    },
  )

  pub Tracks-room :
      leb s.max (length valid) ≡ false
      → (allow now key s
          ≡ (true, record s { entries = Dict.put s.entries key (valid ++ now ∷ []) }))
        × Tracks key now
            (record s { entries = Dict.put s.entries key (valid ++ now ∷ []) })
            (now ∷ h)
  unfolding allow
  Tracks-room room = (
    ground arith,
    record { same = λ c le. same_room c le; bounded = bounded-cons (ground (arith, length-valid)) },
  )
    where
      same_room :
          (c : ℕ)
          → now ≤ c
          → recent s.window c (stamps (Dict.get (Dict.put s.entries key (valid ++ now ∷ [])) key))
            ≡ recent s.window c (now ∷ h)
      same_room c le =
          ap (recent s.window c) (stamps-put_self s.entries key (valid ++ now ∷ []))
          ∙ count-append (is_recent s.window c) valid now
          ∙ count-cons (is_recent s.window c) now valid h (
              recent-select s.window now c (stamps (Dict.get s.entries key)) le
              ∙ t.same c (omega arith))

  -- Of another key the stored times do not change.
  pub Tracks-other :
      (k : Text) (ts : List ℕ)
      → (k == key) ≡ false
      → Tracks key now (record s { entries = Dict.put s.entries k ts }) h
  Tracks-other k ts other = record {
    same = keeps-same _ (λ c le. ground (arith, stamps-put s.entries k key ts, other));
    bounded = t.bounded;
  }

  pub Tracks-query : (k : Text) → Tracks key now (remaining now k s).1 h
  unfolding remaining
  Tracks-query k = record {
    same = keeps-same _ (λ c le. ap (recent s.window c) (
        stamps-put s.entries k key (stamps (Dict.get s.entries k)) ∙ ground (arith, ==_iff k key)));
    bounded = t.bounded;
  }

  pub Tracks-cleanup : Tracks key now (cleanup now s) h
  unfolding cleanup
  Tracks-cleanup = record {
    same = keeps-same _ (λ c le.
        ap (recent s.window c) (stamps-cleanup s key now)
        ∙ recent-select s.window now c (stamps (Dict.get s.entries key)) le);
    bounded = t.bounded;
  }
