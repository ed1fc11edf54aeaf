-- ===== src/Realtime/Resume/Window.antt =====
-- resume.go: the last events that a ring buffer keeps, and the window that since reads from it.
use oniworks.Prelude.{
  ℕ, zero, suc, ◌+◌, ◌-◌, ◌≤◌, ◌<◌, ◌≡◌, refl, sym, ap, ◌∙◌, subst, inl, inr, not, some, List, [],
  ◌∷◌, ◌++◌, arith, ◌==◌, ==_iff, nat_eq, Bool-cases, length, length-append, drop, select,
}
use oniworks.Prelude.Text.{text_eq}
use oniworks.Realtime.Resume.{Event, RingBuffer, push, is_old, window_from}
use oniworks.Realtime.Resume.Ring.{Holds, nth, with_event, push-Holds}

module _ {P : Type 0} where
  -- The last `cap` events of a list.
  abbrev pub last_events : ℕ → List (Event P) → List (Event P)
  last_events cap xs = drop (length xs - cap) xs

  drop-append_short :
      (n : ℕ) (xs ys : List (Event P)) → n ≤ length xs → drop n (xs ++ ys) ≡ drop n xs ++ ys
  drop-append_short zero xs ys h = refl
  drop-append_short (suc n) [] ys h = absurd (omega arith)
  drop-append_short (suc n) (x ∷ xs) ys h = drop-append_short n xs ys (omega arith)

  drop_one-drop : (n : ℕ) (xs : List (Event P)) → drop 1 (drop n xs) ≡ drop (suc n) xs
  drop_one-drop zero xs = refl
  drop_one-drop (suc n) [] = refl
  drop_one-drop (suc n) (x ∷ xs) = drop_one-drop n xs

  length-drop : (n : ℕ) (xs : List (Event P)) → length (drop n xs) ≡ length xs - n
  length-drop zero xs = omega arith
  length-drop (suc n) [] = omega arith
  length-drop (suc n) (x ∷ xs) = length-drop n xs ∙ omega arith

  with_event-last_events :
      (cap : ℕ) (xs : List (Event P)) (e : Event P)
      → 0 < cap
      → with_event cap (last_events cap xs) e ≡ last_events cap (xs ++ e ∷ [])
  with_event-last_events cap xs e h =
      let size = length-drop (length xs - cap) xs in
      let more = length-append xs (e ∷ []) in
      let kept = drop-append_short (length xs - cap) xs (e ∷ []) (omega arith) in
      elim (Bool-cases (length (last_events cap xs) == cap)) [
        | inl full ↦
            let same : length (last_events cap xs) ≡ cap =
              (==_iff (length (last_events cap xs)) cap).0 full in
            let next : suc (length xs - cap) ≡ length (xs ++ e ∷ []) - cap =
              omega (arith, size, more, same) in
            rw full (
              ap (drop 1) (sym kept)
              ∙ drop_one-drop (length xs - cap) (xs ++ e ∷ [])
              ∙ ap (λ n. drop n (xs ++ e ∷ [])) next)
        | inr room ↦
            let next : length xs - cap ≡ length (xs ++ e ∷ []) - cap =
              ground (arith, size, more, ==_iff (length (last_events cap xs)) cap) in
            rw room (sym kept ∙ ap (λ n. drop n (xs ++ e ∷ [])) next)
      ]

  cap-push : (e : Event P) (rb : RingBuffer P) → (push e rb).cap ≡ rb.cap
  unfolding push
  cap-push e rb = ground arith

  -- A push keeps the last events of what has been pushed.
  pub push-last_events :
      (e : Event P) (rb : RingBuffer P) (xs : List (Event P))
      → Holds rb (last_events rb.cap xs)
      → Holds (push e rb) (last_events (push e rb).cap (xs ++ e ∷ [])) × ((push e rb).cap ≡ rb.cap)
  push-last_events e rb xs h =
      let same = cap-push e rb in
      (
        subst (λ n. Holds (push e rb) (last_events n (xs ++ e ∷ []))) (sym same)
            (subst (Holds (push e rb))
              (with_event-last_events rb.cap xs e (omega (arith, h.inside))) (push-Holds e rb _ h)),
        same,
      )

  nth-drop :
      (xs : List (Event P)) (i : ℕ)
      → i < length xs
      → (x : Event P) × (nth xs i ≡ some x) × (drop i xs ≡ x ∷ drop (suc i) xs)
  nth-drop [] i h = absurd (omega arith)
  nth-drop (x ∷ xs) zero h = (x, refl, refl)
  nth-drop (x ∷ xs) (suc i) h = nth-drop xs i (omega arith)

  drop-length : (xs : List (Event P)) → drop (length xs) xs ≡ []
  drop-length [] = refl
  drop-length (x ∷ xs) = drop-length xs

  -- The loop of since reads the events that the buffer holds, and leaves out the old ones.
  window_from-Holds :
      (now max_age : ℕ) (rb : RingBuffer P) (xs : List (Event P)) (i n : ℕ)
      → Holds rb xs
      → i + n ≡ length xs
      → window_from now max_age rb i n ≡ select (λ e. not (is_old now max_age e)) (drop i xs)
  unfolding window_from
  window_from-Holds now max_age rb xs i zero h e =
      ap (select (λ e. not (is_old now max_age e)))
        (sym (drop-length xs) ∙ ap (λ n. drop n xs) (omega arith))
  window_from-Holds now max_age rb xs i (suc n) h e =
      let (x, here, rest) = nth-drop xs i (omega arith) in
      rw
        (
          h.reads i (omega arith),
          here,
          rest,
          window_from-Holds now max_age rb xs (suc i) n h (omega arith),
        )
        (ground arith)

  pub window-Holds :
      (now max_age : ℕ) (rb : RingBuffer P) (xs : List (Event P))
      → Holds rb xs
      → window_from now max_age rb 0 rb.count ≡ select (λ e. not (is_old now max_age e)) xs
  window-Holds now max_age rb xs h =
      window_from-Holds now max_age rb xs 0 rb.count h (omega (arith, h.counted))
