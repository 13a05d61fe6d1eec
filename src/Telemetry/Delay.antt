-- ===== src/Telemetry/Delay.antt =====
-- The delays of retries (backend/app/services/telemetry.py).
use web_accessible.Prelude.{nat_eq, text_eq, ℕ, zero, suc, ◌+◌, ◌-◌, ◌*◌, ◌≤◌, ◌≡◌, true, arith}
use native.Mathlib.Nat.{mul-le-mul_left}
use web_accessible.Telemetry.{Settings, is_valid_settings, power, min, retry_delay}

power_pos : (n : ℕ) → 1 ≤ power n
power_pos zero = omega arith
power_pos (suc n) = omega (arith, power_pos n)

power_mono : (m k : ℕ) → power m ≤ power (m + k)
power_mono m zero = let e : m + 0 ≡ m = omega arith in rw e (omega arith)
power_mono m (suc k) =
    let e : m + suc k ≡ suc (m + k) = omega arith in rw e (omega (arith, power_mono m k))

min_mono : (a m n : ℕ) → m ≤ n → min a m ≤ min a n
min_mono a m n h = ground (arith, h)

power_le : (m n : ℕ) → m ≤ n → power m ≤ power n
power_le m n h = let e : m + (n - m) ≡ n = omega (arith, h) in rw (← e) (power_mono m (n - m))

-- A delay lies between the base and the limit, and does not fall as the attempts go up.
pub retry_delay_bounds :
    (c : Settings) (m n : ℕ)
    → is_valid_settings c ≡ true
    → m ≤ n
    → (c.retry_base ≤ retry_delay c m)
      × (retry_delay c m ≤ retry_delay c n)
      × (retry_delay c n ≤ c.retry_max)
unfolding retry_delay
retry_delay_bounds c m n valid h =
    let bounded : c.retry_base ≤ c.retry_max = ground (arith, valid) in
    (
      ground (arith, bounded, mul-le-mul_left c.retry_base (power_pos (min (m - 1) 30))),
      min_mono c.retry_max (c.retry_base * power (min (m - 1) 30))
          (c.retry_base * power (min (n - 1) 30))
          (mul-le-mul_left c.retry_base
            (power_le (min (m - 1) 30) (min (n - 1) 30) (ground (arith, h)))),
      ground arith,
    )
