-- ===== src/RateLimit.antt =====
-- framework/middleware/ratelimit.go: the sliding-window limiter.
-- A time is a number of nanoseconds. `t.After(now.Add(-window))` is `now < t + window`. Each method
-- runs under the mutex of its entry and is one step, at the time that it reads; the moment between the
-- look-up of an entry and its lock is not modelled.
pub mod Window
pub mod Run
mod Examples
use oniworks.Prelude.{
  ℕ, ◌+◌, ◌-◌, Bool, true, false, Option, none, some, List, [], ◌∷◌, ◌++◌, if◌then◌else◌, ltb, leb,
  ◌==◌, length, select,
}
use oniworks.Prelude.Text.{Text, text_eq}
use oniworks.Prelude.Dict
use oniworks.Prelude.Dict.{Dict}

pub record WindowStore : Type 0 where
  pub entries : Dict Text (List ℕ)
  pub max : ℕ
  pub window : ℕ

pub new_window_store : ℕ → ℕ → WindowStore
new_window_store max window = record { entries = Dict.empty; max = max; window = window }

-- t.After(cutoff)
abbrev pub is_recent : ℕ → ℕ → ℕ → Bool
is_recent window now t = ltb now (t + window)

-- An absent entry is created empty.
abbrev pub stamps : Option (List ℕ) → List ℕ
stamps none = []
stamps (some ts) = ts

pub allow : ℕ → Text → WindowStore → Bool × WindowStore
allow now key s =
    let valid = select (is_recent s.window now) (stamps (Dict.get s.entries key)) in
    if leb s.max (length valid)
    then (false, record s { entries = Dict.put s.entries key valid })
    else (true, record s { entries = Dict.put s.entries key (valid ++ now ∷ []) })

-- The result, and the entry that getOrCreate may have made.
pub remaining : ℕ → Text → WindowStore → ℕ × WindowStore
remaining now key s =
    let ts = stamps (Dict.get s.entries key) in
    (
      s.max - length (select (is_recent s.window now) ts),
      record s { entries = Dict.put s.entries key ts },
    )

abbrev is_filled : List ℕ → Bool
is_filled [] = false
is_filled (t ∷ ts) = true

-- One tick of the cleanup goroutine.
pub cleanup : ℕ → WindowStore → WindowStore
cleanup now s = record s {
  entries =
      Dict.filter (λ _ ts. is_filled ts)
        (Dict.update_all (select (is_recent s.window now)) s.entries);
}

-- The middleware: the request goes on to the next handler with the two header values, or is answered
-- by OnExceeded.
pub data Answer : Type 0 where
  next_handler : ℕ → ℕ → Answer
  exceeded : Answer

-- The second time is that of the call of Remaining.
rate_limit : ℕ → ℕ → Text → WindowStore → Answer × WindowStore
unfolding allow remaining
rate_limit now now' key s =
    let (ok, s') = allow now key s in
    if ok
    then (let (left, s'') = remaining now' key s' in (next_handler s.max left, s''))
    else (exceeded, s')

pub data Event : Type 0 where
  request : Text → Event
  query : Text → Event
  clean : Event

-- What an event leaves, with `key`'s accepted requests so far, the latest first.
pub step : Text → ℕ → Event → WindowStore × List ℕ → WindowStore × List ℕ
step key now (request k) (s, h) =
    let (ok, s') = allow now k s in (s', if k == key then (if ok then now ∷ h else h) else h)
step key now (query k) (s, h) = ((remaining now k s).1, h)
step key now clean (s, h) = (cleanup now s, h)

pub run : Text → List (ℕ × Event) → WindowStore × List ℕ → WindowStore × List ℕ
run key [] sh = sh
run key ((now, e) ∷ more) sh = run key more (step key now e sh)
