-- ===== src/Webhook/Backoff.antt =====
-- services/webhook/service.go: the backoff of a delivery in closed form.
use arcade.Prelude.{
  ℕ, zero, suc, ◌-◌, ◌*◌, ◌^◌, ◌≤◌, ◌<◌, ◌≡◌, sym, inl, inr, arith, min, nat_eq, leb, leb→le,
  Bool-cases,
}
use native.Mathlib.Numerals.{unary_clauses}
use native.Mathlib.Nat.{mul-le-mul_left, pow-suc, min-eq_right}
use arcade.Webhook.{Config, double, or_default, compute_backoff}

pow-pos : (n : ℕ) → 0 < 2 ^ n
pow-pos zero = omega arith
pow-pos (suc n) = simp unary_clauses (omega (arith, pow-pos n))

pub shift : (d n : ℕ) → d * 2 ^ suc n ≡ d * 2 * 2 ^ n
shift d n = simp pow-suc (omega arith)

pub grows : (d n : ℕ) → d ≤ d * 2 ^ n
grows d n = omega (arith, mul-le-mul_left d (pow-pos n))

double-min : (left most d : ℕ) → double left most d ≡ min (d * 2 ^ left) most
unfolding double
double-min zero most d = simp unary_clauses (ground arith)
double-min (suc left) most d = elim (Bool-cases (leb most (d * 2))) [
  | inl b ↦
      rw (b, shift d left)
        (sym (min-eq_right (omega (arith, grows (d * 2) left, leb→le most (d * 2) b))))
  | inr b ↦ rw (b, shift d left) (double-min left most (d * 2))
]

-- The wait before the n-th retry is the initial backoff doubled for each retry after the first, up to
-- the maximum, where what is not set has its default.
pub compute_backoff-min :
    (cfg : Config) (retry_count : ℕ)
    → compute_backoff cfg retry_count
      ≡ min
          (or_default 5000000000 cfg.initial_backoff * 2 ^ (retry_count - 1))
          (or_default 300000000000 cfg.max_backoff)
unfolding compute_backoff
compute_backoff-min cfg retry_count =
    double-min (retry_count - 1) (or_default 300000000000 cfg.max_backoff)
      (or_default 5000000000 cfg.initial_backoff)
