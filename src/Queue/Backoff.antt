-- ===== src/Queue/Backoff.antt =====
-- framework/queue/queue.go: how long a payload waits for its next attempt.
use oniworks.Prelude.{ℕ, zero, suc, ◌+◌, ◌-◌, ◌*◌, ◌^◌, ◌≤◌, ◌≡◌, refl, ap, ◌∙◌, arith}
use native.Mathlib.Nat.{pow-le-pow_right, pow-succ'}
use oniworks.Queue.{add_duration, backoff, second}

-- Up to the 33rd attempt the next one may start 2 ^ attempts seconds later, with no overflow.
pub add_duration-backoff :
    (now k : ℕ) → k ≤ 33 → add_duration now (backoff k) ≡ now + 2 ^ k * second
unfolding backoff add_duration
add_duration-backoff now k h =
    let bound : 2 ^ k ≤ 2 ^ 33 = pow-le-pow_right {n = 2} (omega arith) h in ground arith

pub two-backoff : (now k : ℕ) → 1 ≤ k → k ≤ 33 → now + 2 * second ≤ add_duration now (backoff k)
two-backoff now k low high =
    let bound : 2 ^ 1 ≤ 2 ^ k = pow-le-pow_right {n = 2} (omega arith) low in
    ground (arith, add_duration-backoff now k high)

two-pow-add : (j : ℕ) → 2 ^ (55 + j) ≡ 2 ^ 55 * 2 ^ j
two-pow-add zero = refl
two-pow-add (suc j) =
    let double : 2 ^ (55 + suc j) ≡ 2 * 2 ^ (55 + j) =
      ap (λ (n : ℕ). 2 ^ n) (omega arith) ∙ pow-succ' 2 (55 + j) in
    ground (arith, two-pow-add j, pow-succ' 2 j)

-- From the 55th attempt on the product is a multiple of 2 ^ 64, and the next attempt may start at
-- once.
pub add_duration-backoff_overflow : (now k : ℕ) → 55 ≤ k → add_duration now (backoff k) ≡ now
unfolding backoff add_duration
add_duration-backoff_overflow now k h =
    let split : 2 ^ k ≡ 2 ^ 55 * 2 ^ (k - 55) =
      ap (λ (n : ℕ). 2 ^ n) (omega arith) ∙ two-pow-add (k - 55) in
    ground arith
