-- ===== src/RateLimit/Run.antt =====
-- ratelimit.go: the limiter over any history of requests, queries and clean-ups.
use oniworks.Prelude.{
  ℕ, ◌≤◌, ◌≡◌, refl, ◌∙◌, subst, false, List, [], ◌∷◌, arith, if◌then◌else◌, ltb, leb, ◌==◌, ==_iff,
  inl, inr, Bool-cases, length, select,
}
use oniworks.Prelude.Text.{Text, text_eq}
use oniworks.Prelude.Dict
use oniworks.RateLimit.{
  WindowStore, is_recent, stamps, allow, remaining, cleanup, Event, request, query, clean, step,
  run, new_window_store,
}
use oniworks.RateLimit.Window.{
  within, recent, Tracks, valid, allow-eq, Tracks-full, Tracks-room, Tracks-other, Tracks-query,
  Tracks-cleanup, Tracks-new,
}

-- The times of the events do not go back.
abbrev pub IsOrdered : ℕ → List (ℕ × Event) → Type 0
IsOrdered last [] = Unit
IsOrdered last ((now, e) ∷ more) = (last ≤ now) × IsOrdered now more

-- The time of the last event.
abbrev final : ℕ → List (ℕ × Event) → ℕ
final last [] = last
final last ((now, e) ∷ more) = final now more

module _ (key : Text) where
  abbrev Good : ℕ → WindowStore × List ℕ → Type 0
  Good last sh = Tracks key last sh.0 sh.1

  -- A request of the key itself.
  own_request :
      (last now : ℕ) (s : WindowStore) (h : List ℕ) (t : Tracks key last s h) (le : last ≤ now)
      → Tracks key now (allow now key s).1 (if (allow now key s).0 then now ∷ h else h)
  own_request last now s h t le =
      elim (Bool-cases (leb s.max (length (valid key last now s h t le)))) [
        | inl full ↦ let (e, kept) = Tracks-full key last now s h t le full in rw e kept
        | inr room ↦ let (e, kept) = Tracks-room key last now s h t le room in rw e kept
      ]

  other_request :
      (last now : ℕ) (s : WindowStore) (h : List ℕ) (t : Tracks key last s h) (le : last ≤ now)
      (k : Text)
      → (k == key) ≡ false
      → Tracks key now (allow now k s).1 h
  unfolding allow
  other_request last now s h t le k other =
      elim (Bool-cases
        (leb s.max (length (select (is_recent s.window now) (stamps (Dict.get s.entries k)))))) [
          | inl full ↦ rw full (Tracks-other key last now s h t le k _ other)
          | inr room ↦ rw room (Tracks-other key last now s h t le k _ other)
        ]

  step-Good :
      (last now : ℕ) (e : Event) (sh : WindowStore × List ℕ)
      → Good last sh
      → last ≤ now
      → Good now (step key now e sh)
  unfolding step
  step-Good last now (request k) (s, h) t le = elim (Bool-cases (k == key)) [
    | inl same ↦ rw (same, (==_iff k key).0 same) (own_request last now s h t le)
    | inr other ↦ rw other (other_request last now s h t le k other)
  ]
  step-Good last now (query k) (s, h) t le = Tracks-query key last now s h t le k
  step-Good last now clean (s, h) t le = Tracks-cleanup key last now s h t le

  run-Good :
      (last : ℕ) (events : List (ℕ × Event)) (sh : WindowStore × List ℕ)
      → Good last sh
      → IsOrdered last events
      → Good (final last events) (run key events sh)
  unfolding run
  run-Good last [] sh t o = t
  run-Good last ((now, e) ∷ more) sh t (le, o) =
      run-Good now more (step key now e sh) (step-Good last now e sh t le) o

  -- No event changes the limit or the window.
  step-settings :
      (now : ℕ) (e : Event) (sh : WindowStore × List ℕ)
      → ((step key now e sh).0.max ≡ sh.0.max) × ((step key now e sh).0.window ≡ sh.0.window)
  unfolding step allow remaining cleanup
  step-settings now (request k) (s, h) = ground arith
  step-settings now (query k) (s, h) = (refl, refl)
  step-settings now clean (s, h) = (refl, refl)

  run-settings :
      (events : List (ℕ × Event)) (sh : WindowStore × List ℕ)
      → ((run key events sh).0.max ≡ sh.0.max) × ((run key events sh).0.window ≡ sh.0.window)
  unfolding run
  run-settings [] sh = (refl, refl)
  run-settings ((now, e) ∷ more) sh =
      let (a, b) = run-settings more (step key now e sh) in
      let (c, d) = step-settings now e sh in (a ∙ c, b ∙ d)

-- The store and the accepted requests of `key`, the latest first, that a run of events leaves a new
-- limiter.
abbrev pub outcome : ℕ → ℕ → Text → List (ℕ × Event) → WindowStore × List ℕ
outcome max window key events = run key events (new_window_store max window, [])

outcome-Good :
    (max window : ℕ) (key : Text) (events : List (ℕ × Event))
    → IsOrdered 0 events
    → Good key (final 0 events) (outcome max window key events)
outcome-Good max window key events =
    run-Good key 0 events (new_window_store max window, []) (Tracks-new key max window)

outcome-settings :
    (max window : ℕ) (key : Text) (events : List (ℕ × Event))
    → ((outcome max window key events).0.max ≡ max)
      × ((outcome max window key events).0.window ≡ window)
unfolding new_window_store
outcome-settings max window key events = run-settings key events (new_window_store max window, [])

-- Whatever requests, queries and clean-ups a new limiter serves in the order of their times, at most
-- `max` of the accepted requests of a key have times later than x and at most x + window, for every x.
pub window_bound :
    (max window : ℕ) (key : Text) (events : List (ℕ × Event))
    → IsOrdered 0 events
    → (x : ℕ) → within window x (outcome max window key events).1 ≤ max
window_bound max window key events o x =
    let t = outcome-Good max window key events o in
    let (em, ew) = outcome-settings max window key events in
    subst (λ m. within window x (outcome max window key events).1 ≤ m) em
      (subst
        (λ w. within w x (outcome max window key events).1 ≤ (outcome max window key events).0.max)
        ew (t.bounded x))

-- After any such run, a request of the key at a time that is not before the last event is accepted
-- exactly when fewer than `max` of the accepted requests of the key are younger than the window.
pub accepts_iff :
    (max window : ℕ) (key : Text) (events : List (ℕ × Event)) (now : ℕ)
    → IsOrdered 0 events
    → final 0 events ≤ now
    → (allow now key (outcome max window key events).0).0
      ≡ ltb (recent window now (outcome max window key events).1) max
accepts_iff max window key events now o le =
    let t = outcome-Good max window key events o in
    let (em, ew) = outcome-settings max window key events in
    allow-eq key (final 0 events) now _ _ t le
    ∙ (λ i. ltb (recent (ew i) now (outcome max window key events).1) (em i))
