-- ===== src/Watch/Store/Backoff.antt =====
-- The delay after a failed poll (`fail_poll` of watch/store.py).
use native.Mathlib.Nat.{pow-suc}
use watershed_memory.Base.{
  ℕ, zero, suc, ◌+◌, ◌-◌, ◌*◌, ◌^◌, ◌≤◌, min, ◌≡◌, Option, none, some, arith,
}
use watershed_memory.Watch.Store.{backoff}

pow_pos : (n : ℕ) → 1 ≤ 2 ^ n
pow_pos zero = omega arith
pow_pos (suc n) = omega (arith, pow_pos n, pow-suc 2 n)

le_mul_pos : (a x : ℕ) → 1 ≤ x → a ≤ a * x
le_mul_pos a x h = grind arith

pow_mono : (k n : ℕ) → 2 ^ n ≤ 2 ^ (n + k)
pow_mono zero n = let e : n + 0 ≡ n = omega arith in rw e (omega arith)
pow_mono (suc k) n =
    let e : n + suc k ≡ suc (n + k) = omega arith in
    rw e (omega (arith, pow_mono k n, pow-suc 2 (n + k)))

-- The delay after a failure is at least the poll interval or an hour, whichever is less, and an
-- hour at most.
pub backoff_bounds :
    (poll failures : ℕ) (retry : Option ℕ)
    → (min 3600 poll ≤ backoff poll failures retry) × (backoff poll failures retry ≤ 3600)
unfolding backoff
backoff_bounds poll failures none = (
  omega (arith, le_mul_pos poll (2 ^ min (failures - 1) 12) (pow_pos (min (failures - 1) 12))),
  omega arith,
)
backoff_bounds poll failures (some s) = (
  omega (arith, le_mul_pos poll (2 ^ min (failures - 1) 12) (pow_pos (min (failures - 1) 12))),
  omega arith,
)

mul_mono : (a x y : ℕ) → x ≤ y → a * x ≤ a * y
mul_mono a x y h = grind arith

doubling_mono : (poll f : ℕ) → poll * 2 ^ min (f - 1) 12 ≤ poll * 2 ^ min (suc f - 1) 12
doubling_mono poll f =
    let a : ℕ = min (f - 1) 12 in
    let b : ℕ = min (suc f - 1) 12 in
    let e : b ≡ a + (b - a) = omega arith in
    mul_mono poll (2 ^ a) (2 ^ b) (rw e (pow_mono (b - a) a))

-- For the same poll interval and the same requested delay, one more failure never shortens the
-- delay.
pub backoff-suc :
    (poll failures : ℕ) (retry : Option ℕ)
    → backoff poll failures retry ≤ backoff poll (suc failures) retry
unfolding backoff
backoff-suc poll failures none = omega (arith, doubling_mono poll failures)
backoff-suc poll failures (some s) = omega (arith, doubling_mono poll failures)

-- The delay is at least what the source asked for, when that is an hour at most.
pub backoff_retry : (poll failures s : ℕ) → s ≤ 3600 → s ≤ backoff poll failures (some s)
unfolding backoff
backoff_retry poll failures s h = omega arith
