-- ===== src/Backoff.antt =====
-- crates/pipe-bolt-core/src/mqtt/backoff.rs: the delays between reconnections. A duration is a number
-- of nanoseconds; the longest is 2^64 - 1 seconds and 999,999,999 nanoseconds.
use native.Mathlib.Nat.{pow-suc}
use pipe_bolt.Prelude.{
  ap, ap₂, arith, min, ok, refl, suc, zero, ℕ, ◌*◌, ◌+◌, ◌-◌, ◌^◌, ◌∙◌, ◌≡◌, ◌≤◌,
}
use pipe_bolt.Domain.Config.{Duration, ReconnectPolicy}
use pipe_bolt.Domain.Config.Validate.{validate_reconnect}

abbrev pub duration_max : Duration
duration_max = (2 ^ 64 - 1) * 1000000000 + 999999999

-- `Duration::saturating_mul`
abbrev pub saturating_mul : Duration → ℕ → Duration
saturating_mul d n = min (d * n) duration_max

pub record ExponentialBackoff : Type 0 where
  pub min_delay : Duration
  pub max_delay : Duration
  pub current_delay : Duration

-- `ExponentialBackoff::new`
unfoldable pub new : Duration → Duration → ExponentialBackoff
new min_delay max_delay = record {
  min_delay = min_delay;
  max_delay = max_delay;
  current_delay = min_delay;
}

unfoldable pub reset : ExponentialBackoff → ExponentialBackoff
reset b = record b { current_delay = b.min_delay }

-- `next_delay`: the delay, and the backoff after it.
unfoldable pub next_delay : ExponentialBackoff → Duration × ExponentialBackoff
next_delay b = (
  b.current_delay,
  record b { current_delay = min (saturating_mul b.current_delay 2) b.max_delay },
)

-- The backoff after a number of failed connections.
unfoldable pub after_failures : ℕ → ExponentialBackoff → ExponentialBackoff
unfolding next_delay
after_failures zero b = b
after_failures (suc n) b = (next_delay (after_failures n b)).1

abbrev doubled : ℕ → ExponentialBackoff → Duration
doubled n b = min (b.min_delay * 2 ^ n) b.max_delay

double_capped : (x m top : ℕ) → m ≤ top → min (min (min x m * 2) top) m ≡ min (x * 2) m
double_capped x m top h = omega arith

double_pow : (d n : ℕ) → d * 2 ^ n * 2 ≡ d * 2 ^ suc n
double_pow d n = rw pow-suc (omega arith)

pow-one : (d : ℕ) → d * 2 ^ 0 ≡ d
pow-one d = omega arith

after_failures-current :
    (b : ExponentialBackoff) (n : ℕ)
    → b.current_delay ≡ b.min_delay
    → b.min_delay ≤ b.max_delay
    → b.max_delay ≤ duration_max
    → ((after_failures n b).current_delay ≡ doubled n b)
      × ((after_failures n b).max_delay ≡ b.max_delay)
      × ((after_failures n b).min_delay ≡ b.min_delay)
unfolding after_failures
after_failures-current b zero h le top = (omega (arith, pow-one b.min_delay), refl, refl)
after_failures-current b (suc n) h le top =
    let (current, greatest, least) = after_failures-current b n h le top in
    (
      rw (current, greatest) (double_capped (b.min_delay * 2 ^ n) b.max_delay duration_max top)
          ∙ ap (λ t. min t b.max_delay) (double_pow b.min_delay n),
      greatest,
      least,
    )

ordered : (p : ReconnectPolicy) → validate_reconnect p ≡ ok tt → p.min_delay ≤ p.max_delay
unfolding validate_reconnect
ordered p h = ground arith

-- With a reconnect policy that passes its validation, the delay after n failures in a row is the
-- least delay, doubled n times, or the greatest delay if that is less; a reset starts over.
pub next_delay_after :
    (p : ReconnectPolicy) (n : ℕ)
    → validate_reconnect p ≡ ok tt
    → p.max_delay ≤ duration_max
    → ((next_delay (after_failures n (new p.min_delay p.max_delay))).0
        ≡ min (p.min_delay * 2 ^ n) p.max_delay)
      × (reset (after_failures n (new p.min_delay p.max_delay)) ≡ new p.min_delay p.max_delay)
unfolding next_delay new reset
next_delay_after p n valid top =
    let (current, greatest, least) =
      after_failures-current (new p.min_delay p.max_delay) n refl (ordered p valid) top in
    (
      current,
      ap₂ (λ a c. record { min_delay = a; max_delay = c; current_delay = a }) least greatest,
    )
