-- ===== src/Merkle/Endpoint/Backoff.antt =====
-- merkleservice/pool.go: how long an endpoint's drains back off, in ticks.
use arcade.Prelude.{ℕ, zero, suc, ◌*◌, ◌≡◌, false, arith, ◌==◌, nat_eq, if◌then◌else◌, ltb}
use arcade.Merkle.Endpoint.{Endpoint, back_off}

-- Drains in which nothing lands, one after the other.
unfoldable pub fruitless : ℕ → Endpoint → Endpoint
fruitless zero ep = ep
fruitless (suc n) ep = back_off false 0 (fruitless n ep)

-- The ticks after `n` of them.
abbrev pub ticks_after : ℕ → ℕ
ticks_after zero = 0
ticks_after (suc zero) = 1
ticks_after (suc (suc zero)) = 2
ticks_after (suc (suc (suc zero))) = 4
ticks_after (suc (suc (suc (suc zero)))) = 8
ticks_after (suc (suc (suc (suc (suc n))))) = 16

-- The last backoff and the ticks that are left to skip.
abbrev pub HasTicks : ℕ → Endpoint → Type 0
HasTicks t ep = (ep.backoff_ticks ≡ t) × (ep.skip_ticks ≡ t)

turn :
    (ep : Endpoint) (t : ℕ)
    → HasTicks t ep
    → HasTicks (if t == 0 then 1 else if ltb t 12 then t * 2 else t) (back_off false 0 ep)
unfolding back_off
turn ep t e = (ground (arith, e.0), ground (arith, e.0))

-- Of an endpoint without a backoff, drains in which nothing lands back off for 1, 2, 4 and 8 ticks, and
-- from the fifth on for 16, while the constant that is to cap them is 12.
pub fruitless-ticks :
    (n : ℕ) (ep : Endpoint) → HasTicks 0 ep → HasTicks (ticks_after n) (fruitless n ep)
unfolding fruitless
fruitless-ticks zero ep e = e
fruitless-ticks (suc zero) ep e = turn (fruitless zero ep) 0 (fruitless-ticks zero ep e)
fruitless-ticks (suc (suc zero)) ep e =
    turn (fruitless (suc zero) ep) 1 (fruitless-ticks (suc zero) ep e)
fruitless-ticks (suc (suc (suc zero))) ep e =
    turn (fruitless (suc (suc zero)) ep) 2 (fruitless-ticks (suc (suc zero)) ep e)
fruitless-ticks (suc (suc (suc (suc zero)))) ep e =
    turn (fruitless (suc (suc (suc zero))) ep) 4 (fruitless-ticks (suc (suc (suc zero))) ep e)
fruitless-ticks (suc (suc (suc (suc (suc zero))))) ep e =
    turn (fruitless (suc (suc (suc (suc zero)))) ep) 8
      (fruitless-ticks (suc (suc (suc (suc zero)))) ep e)
fruitless-ticks (suc (suc (suc (suc (suc (suc n)))))) ep e =
    turn (fruitless (suc (suc (suc (suc (suc n))))) ep) 16
      (fruitless-ticks (suc (suc (suc (suc (suc n))))) ep e)
