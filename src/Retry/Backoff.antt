-- ===== src/Retry/Backoff.antt =====
-- The backoff under the default policy (retry-manager.ts, calculateBackoff).
use shipyard_cp.Base.{ℕ, zero, suc, ◌^◌, ◌<◌, ◌≡◌, refl, arith, nat_eqb, string_eqb}
use native.Mathlib.Nat.{pow-suc}
use shipyard_cp.Retry.{default_retry_policy, second, calculate_backoff}

pub one_pow : (n : ℕ) → 1 ^ n ≡ 1
one_pow zero = refl
one_pow (suc n) = rw (pow-suc, one_pow n)

-- With the default policy the backoff is below one second at every attempt: it does not grow.
pub default_backoff_flat :
    (n : ℕ) (random : ℕ)
    → random < second
    → calculate_backoff n default_retry_policy random ≡ random
unfolding calculate_backoff
default_backoff_flat n random h = rw one_pow (omega arith)
