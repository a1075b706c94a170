-- ===== src/RetryPolicy/Laws.antt =====
-- The bounds of a retry policy and of the waiting times that it gives.
use native.Mathlib.Nat.{pow-suc}
use flowmind.Prelude.{
  ℕ, zero, suc, ◌+◌, ◌-◌, ◌*◌, ◌^◌, ◌≤◌, String, ◌≡◌, true, false, Option, arith,
}
use flowmind.Json.{Number, nan, infinite, finite, Fields, Host}
use flowmind.RetryPolicy.{
  Strategy, fixed, exponential, RetryPolicy, clamp_number, resolve, multiplier, next_retry_at,
}

clamp_bounds :
    (n : Number) (lo hi : ℕ) → lo ≤ hi → (lo ≤ clamp_number n lo hi) × (clamp_number n lo hi ≤ hi)
unfolding clamp_number
clamp_bounds (finite false w f) lo hi h = omega arith
clamp_bounds (finite true w f) lo hi h = omega arith
clamp_bounds nan lo hi h = omega arith
clamp_bounds (infinite s) lo hi h = omega arith

pub record IsBounded (p : RetryPolicy) : Type 0 where
  pub some_attempt : 1 ≤ p.max_attempts
  pub few_attempts : p.max_attempts ≤ 5
  pub some_backoff : 100 ≤ p.backoff_ms
  pub short_backoff : p.backoff_ms ≤ 60000
  pub some_time : 1 ≤ p.timeout_seconds
  pub little_time : p.timeout_seconds ≤ 120

-- Whatever a step's configuration holds, its policy has one to five attempts, a backoff between a
-- tenth of a second and a minute, and a timeout between one second and two minutes.
pub resolve-IsBounded :
    (host : Host) (type : String) (timeout : Option Number) (policy : Option Fields)
    → IsBounded (resolve host type timeout policy)
unfolding resolve
resolve-IsBounded host type timeout policy = record {
  some_attempt = (clamp_bounds _ 1 5 (omega arith)).0;
  few_attempts = (clamp_bounds _ 1 5 (omega arith)).1;
  some_backoff = (clamp_bounds _ 100 60000 (omega arith)).0;
  short_backoff = (clamp_bounds _ 100 60000 (omega arith)).1;
  some_time = (clamp_bounds _ 1 120 (omega arith)).0;
  little_time = (clamp_bounds _ 1 120 (omega arith)).1;
}

multiplier-pos : (s : Strategy) (n : ℕ) → 1 ≤ multiplier s n
unfolding multiplier
multiplier-pos fixed n = omega arith
multiplier-pos exponential n = omega arith

pow-step : (n : ℕ) → 2 ^ n ≤ 2 ^ suc n
pow-step n = omega (arith, pow-suc 2 n)

pred-suc : (n : ℕ) → suc n - 1 ≡ n
pred-suc n = omega arith

multiplier_mono : (s : Strategy) (n : ℕ) → multiplier s n ≤ multiplier s (suc n)
unfolding multiplier
multiplier_mono fixed n = omega arith
multiplier_mono exponential zero = omega arith
multiplier_mono exponential (suc n) = rw (pred-suc n, pred-suc (suc n)) (omega (arith, pow-step n))

-- With a backoff of at most a minute, a retry is no closer than the backoff and at most a minute
-- away, and a later attempt never waits less than the one before.
pub next_retry_at-bounds :
    (p : RetryPolicy) (attempts now : ℕ)
    → p.backoff_ms ≤ 60000
    → (now + p.backoff_ms ≤ next_retry_at p attempts now)
      × (next_retry_at p attempts now ≤ now + 60000)
      × (next_retry_at p attempts now ≤ next_retry_at p (suc attempts) now)
unfolding next_retry_at
next_retry_at-bounds p attempts now h =
    let pos = multiplier-pos p.strategy attempts in
    let mono = multiplier_mono p.strategy attempts in
    let low : p.backoff_ms ≤ p.backoff_ms * multiplier p.strategy attempts = grind arith in
    let high : p.backoff_ms * multiplier p.strategy attempts
        ≤ p.backoff_ms * multiplier p.strategy (suc attempts) =
      grind arith in
    (omega arith, omega arith, omega arith)
