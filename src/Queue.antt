-- ===== src/Queue.antt =====
-- framework/queue/queue.go and framework/queue/job.go: jobs, their retries and the dead letters.
-- A time is a number of nanoseconds; a time.Duration is its two's-complement pattern below 2 ^ 64,
-- and an int that the code only compares with 0 is 0 where it is negative. Handle, and what
-- json.Unmarshal makes of a job's data, are arguments; a panic of Handle is an outcome, which
-- safeHandle turns into an error. A driver's error on Pop reads as an empty queue, as in the source.
pub mod Memory
pub mod Backoff
use oniworks.Prelude.{
  ℕ, zero, suc, ◌+◌, ◌-◌, ◌*◌, ◌%◌, ◌^◌, Bool, true, false, ◌&&◌, Option, none, some, List, [], ◌∷◌,
  if◌then◌else◌, ltb, leb, ◌==◌, nat_eq,
}
use oniworks.Prelude.Text.{Text, text_eq, codes}
use oniworks.Prelude.Dict
use oniworks.Prelude.Dict.{Dict}

pub record Payload : Type 0 where
  pub class : Text
  pub body : Text
  pub id : Text
  pub attempts : ℕ
  pub max_attempts : ℕ
  pub queue : Text
  pub available_at : ℕ

-- The Driver interface, at the time that time.Now() returns. Push tells whether it succeeds.
pub record Driver (D : Type 0) : Type 0 where
  pub push : ℕ → Text → Payload → D → Bool × D
  pub pop : ℕ → Text → D → Option Payload × D
  pub dead : Payload → D → D
  pub release : ℕ → Payload → ℕ → D → D

-- What Handle does: it returns nil or an error, or it panics.
pub data Outcome : Type 0 where
  succeeds : Outcome
  fails : Outcome
  panics : Outcome

-- time.Second
abbrev pub second : ℕ
second = 1000000000

-- t.Add(d), for a duration that may be negative
pub add_duration : ℕ → ℕ → ℕ
add_duration t d = if ltb d (2 ^ 63) then t + d else t - (2 ^ 64 - d)

-- time.Duration(1<<uint(p.Attempts)) * time.Second
pub backoff : ℕ → ℕ
backoff attempts = (2 ^ attempts * second) % 2 ^ 64

pub record Options : Type 0 where
  pub queues : List Text
  pub workers : ℕ
  pub poll_interval : ℕ

default_queues : List Text → List Text
default_queues [] = codes "default" ∷ []
default_queues (q ∷ qs) = q ∷ qs

-- The options that NewManager keeps.
new_manager : Options → Options
unfolding default_queues
new_manager o = record {
  queues = default_queues o.queues;
  workers = if o.workers == 0 then 5 else o.workers;
  poll_interval = if o.poll_interval == 0 then second else o.poll_interval;
}

pub max_attempts_of : Option ℕ → ℕ
max_attempts_of none = 3
max_attempts_of (some n) = if n == 0 then 3 else n

-- The payload that Dispatch pushes, for what fmt, json.Marshal and newID return.
pub new_payload : ℕ → Text → Text → Text → Text → ℕ → Option ℕ → Payload
unfolding max_attempts_of add_duration
new_payload now queue class body id delay opts = record {
  class = class;
  body = body;
  id = id;
  attempts = 0;
  max_attempts = max_attempts_of opts;
  queue = queue;
  available_at = add_duration now delay;
}

-- What becomes of a payload that a worker has processed.
pub data Verdict : Type 0 where
  finished : Verdict
  dead_letter : Verdict
  retry : ℕ → Verdict

-- safeHandle: nil, or an error
pub safe_handle : Outcome → Bool
safe_handle succeeds = true
safe_handle fails = false
safe_handle panics = false

-- p.Attempts++
abbrev pub attempted : Payload → Payload
attempted p = record p { attempts = p.attempts + 1 }

module _ {D : Type 0} (driver : Driver D) where
  -- Dispatch, where json.Marshal succeeds with `some`.
  pub dispatch : ℕ → Text → Text → Option Text → Text → ℕ → Option ℕ → D → Bool × D
  unfolding new_payload
  dispatch now queue class none id delay opts d = (false, d)
  dispatch now queue class (some body) id delay opts d =
      driver.push now queue (new_payload now queue class body id delay opts) d

  pub conclude : Verdict → ℕ → Payload → D → D
  conclude finished now p d = d
  conclude dead_letter now p d = driver.dead p d
  conclude (retry delay) now p d = driver.release now p delay d

handled : Bool → ℕ → ℕ → Verdict
unfolding backoff
handled true attempts max_attempts = finished
handled false attempts max_attempts =
    if leb max_attempts attempts then dead_letter else retry (backoff attempts)

-- Register
register :
    {J : Type 0}
    → Text
    → (Text → Option J)
    → Dict Text (Text → Option J)
    → Dict Text (Text → Option J)
register class factory registry = Dict.put registry class factory

decode : {J : Type 0} → Option (Text → Option J) → Text → Option J
decode none body = none
decode (some factory) body = factory body

-- The registry has the factories, each with what json.Unmarshal makes of a job's data.
pub unmarshal : {J : Type 0} → Dict Text (Text → Option J) → Payload → Option J
unfolding decode
unmarshal registry p = decode (Dict.get registry p.class) p.body

module _ {J : Type 0} (registry : Dict Text (Text → Option J)) (handle : J → Outcome) where
  -- The branches of process, for the payload with its attempt counted.
  pub verdict : Option J → ℕ → ℕ → Verdict
  unfolding handled safe_handle
  verdict none attempts max_attempts = dead_letter
  verdict (some job) attempts max_attempts =
      handled (safe_handle (handle job)) attempts max_attempts

  pub judge : Payload → Verdict
  unfolding verdict unmarshal
  judge p = verdict (unmarshal registry p) (p.attempts + 1) p.max_attempts

  module _ {D : Type 0} (driver : Driver D) where
    pub process : ℕ → Payload → D → D
    unfolding judge conclude
    process now p d = conclude driver (judge p) now (attempted p) d

    -- The inner loop of processAll on at most `fuel` payloads, where `clock n` is the nth reading of
    -- the clock: a Pop reads it, and then what process calls. `others n` is what becomes of the
    -- driver between the nth reading and the next one by other hands: the dispatches of the job that
    -- runs, and whatever other workers and dispatchers do. The result tells whether the loop has
    -- ended, and the number of the next reading.
    pub drain : ℕ → (ℕ → ℕ) → (ℕ → D → D) → ℕ → Text → D → Bool × ℕ × D
    unfolding process
    drain zero clock others n q d = (false, n, d)
    drain (suc fuel) clock others n q d =
        let (r, d') = driver.pop (clock n) q d in
        elim r [
          | none ↦ (true, n + 1, d')
          | some p ↦
              drain fuel clock others (n + 2) q
                (others (n + 1) (process (clock (n + 1)) p (others n d')))
        ]

    -- processAll, with that bound for each queue.
    pub process_all : ℕ → (ℕ → ℕ) → (ℕ → D → D) → ℕ → List Text → D → Bool × ℕ × D
    unfolding drain
    process_all fuel clock others n [] d = (true, n, d)
    process_all fuel clock others n (q ∷ qs) d =
        let (ended, n', d') = drain fuel clock others n q d in
        let (rest, n'', d'') = process_all fuel clock others n' qs d' in (ended && rest, n'', d'')
