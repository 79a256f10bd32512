-- ===== src/Propagation/Parking/Delay.antt =====
-- services/propagation/propagator.go: when the next attempt of a parked transaction is due.
use arcade.Prelude.{
  ℕ, zero, suc, ◌+◌, ◌-◌, ◌*◌, ◌/◌, ◌%◌, ◌^◌, ◌≤◌, ◌<◌, ◌≡◌, refl, String, inl, inr, true, ◌∷◌,
  some, arith, min, max, ltb, leb, Option, none, ltb-false→le, Bool-cases, false, ◌==◌, nat_eq,
  string_eq, if◌then◌else◌, ◌∙◌,
}
use native.Mathlib.Numerals.{unary_clauses}
use native.Mathlib.Nat.{min-eq_right, mul-le-mul_left}
use arcade.Prelude.Map.{lookup}
use arcade.Models.Status.{pending_retry, can_transition_from}
use arcade.Pebble.Row.{StoredStatus}
use arcade.Pebble.Ops.{Store, pending_row}
use arcade.Pebble.Guard.{HasRow}
use arcade.Webhook.Backoff.{grows, shift}
use arcade.Propagation.Parking.{
  PendingRetry, default_pending_retry_backoff, doubled, unjittered, jittered,
  next_pending_retry_delay, Text,
}
use arcade.Propagation.Parking.Budget.{Parking, IsServed, park, park-found}

clamp : ℕ → ℕ → ℕ
clamp most d = if ltb most d then most else d

clamp-doubled : (left most d : ℕ) → clamp most (doubled left most d) ≡ min (d * 2 ^ left) most
unfolding clamp doubled
clamp-doubled zero most d = simp unary_clauses (ground arith)
clamp-doubled (suc left) most d = elim (Bool-cases (ltb d most)) [
  | inl b ↦ rw (b, shift d left) (clamp-doubled left most (d * 2))
  | inr b ↦
      let h : most ≤ d = ltb-false→le d most b in
      let m : min (d * 2 ^ suc left) most ≡ most =
        min-eq_right (omega (arith, grows d (suc left))) in
      rw (b, m) (ground arith)
]

-- The backoff that is configured, or its default, and the maximum, which is no less.
abbrev pub base_of : PendingRetry → ℕ
base_of cfg = if cfg.backoff == 0 then default_pending_retry_backoff else cfg.backoff

abbrev pub most_of : PendingRetry → ℕ
most_of cfg = max (base_of cfg) cfg.max_backoff

-- The delay that doubles with each attempt, up to the maximum.
abbrev pub doubling : PendingRetry → ℕ → ℕ
doubling cfg attempt = min (base_of cfg * 2 ^ (attempt - 1)) (most_of cfg)

most-max : (a b : ℕ) → (if ltb b a then a else b) ≡ max a b
most-max a b = ground arith

unjittered-doubling :
    (cfg : PendingRetry) (attempt : ℕ) → unjittered cfg attempt ≡ doubling cfg attempt
unfolding unjittered clamp
unjittered-doubling cfg attempt =
    rw (most-max (base_of cfg) cfg.max_backoff)
      (clamp-doubled (attempt - 1) (most_of cfg) (base_of cfg))

-- A part of a delay that is at most 65535 of 327675 is a fifth of it at most.
fifth : (d k : ℕ) → k ≤ 65535 → 5 * (d * k / 327675) ≤ d
fifth d k h = omega (arith, mul-le-mul_left d h)

jittered-bounds :
    (random : Option (ℕ × ℕ)) (d : ℕ)
    → (4 * d ≤ 5 * jittered random d) × (5 * jittered random d ≤ 6 * d)
unfolding jittered
jittered-bounds none d = (omega arith, omega arith)
jittered-bounds (some (high, low)) d =
    let n = (high * 256 + low) % 65536 in
    elim (Bool-cases (leb 65535 (2 * n))) [
      | inl b ↦
          let f = fifth d (2 * n - 65535) (omega arith) in rw b (omega (arith, f), omega (arith, f))
      | inr b ↦
          let f = fifth d (65535 - 2 * n) (omega arith) in rw b (omega (arith, f), omega (arith, f))
    ]

delay_bounds :
    (cfg : PendingRetry) (random : Option (ℕ × ℕ)) (attempt : ℕ)
    → let delay = next_pending_retry_delay cfg random attempt in
      (1000000 ≤ delay)
      × (4 * doubling cfg attempt ≤ 5 * delay)
      × (5 * delay ≤ max 5000000 (6 * doubling cfg attempt))
unfolding next_pending_retry_delay
delay_bounds cfg random attempt =
    rw (unjittered-doubling cfg attempt)
      (ground (arith, jittered-bounds random (doubling cfg attempt)))

-- Where the budget is not spent and the status of the row lets it be parked, a parking that the
-- database serves leaves the row PENDING_RETRY, with one more retry counted, and due after a
-- millisecond at least and after the doubled backoff of that attempt, give or take a fifth
-- of it, whatever the random bytes are or where they cannot be read.
pub parked_until :
    (text : Text) (cfg : PendingRetry) (txid : String) (p : Parking) (s : Store) (e : StoredStatus)
    → IsServed p
    → lookup txid s.rows ≡ some e
    → can_transition_from pending_retry e.status ≡ true
    → e.retry_count < cfg.max_attempts
    → let expected = doubling cfg (e.retry_count + 1) in
      HasRow
        (λ r.
          (r.status ≡ pending_retry)
          × (r.retry_count ≡ e.retry_count + 1)
          × (p.turn.now + 1000000 ≤ r.next_retry_ns)
          × (4 * expected ≤ 5 * (r.next_retry_ns - p.turn.now))
          × (5 * (r.next_retry_ns - p.turn.now) ≤ max 5000000 (6 * expected)))
        txid
        (park text cfg txid p s)
unfolding pending_row
parked_until text cfg txid p s e served found admits left =
    let bounds = delay_bounds cfg p.turn.random (e.retry_count + 1) in
    let within : ltb cfg.max_attempts (e.retry_count + 1) ≡ false = ground arith in
    (
      pending_row p.turn.written (p.first_byte ∷ p.bytes)
          (p.turn.now + next_pending_retry_delay cfg p.turn.random (e.retry_count + 1)) p.reason
          (record e { retry_count = e.retry_count + 1 }),
      park-found text cfg txid p s e served found ∙ rw (within, admits) refl,
      (refl, refl, omega (arith, bounds.0), omega (arith, bounds.1), omega (arith, bounds.2)),
    )
