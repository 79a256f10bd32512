-- ===== src/Merkle/Catchup.antt =====
-- merkleservice/pool.go: `catchupQueue`, the bounded queue of the registrations that an endpoint owes,
-- without two entries for one transaction. The mutex makes each operation one step.
use arcade.Prelude.{
  ℕ, zero, suc, ◌+◌, ◌-◌, String, Bool, true, false, not, ◌&&◌, ◌||◌, List, [], ◌∷◌, ◌++◌, Option,
  none, some, ◌==◌, string_eq, if◌then◌else◌, ltb, leb, length, take, drop,
}
use arcade.Prelude.Map.{Map, lookup, insert, delete, member}
pub mod Queue

pub record Registration : Type 0 where
  pub tx_id : String
  pub callback_url : String
  pub callback_token : String

-- `limit` is the field `max`.
pub record Catchup : Type 0 where
  pub limit : ℕ
  pub order : List String
  pub by_tx_id : Map String Registration
  pub inflight : ℕ
  pub dropped : ℕ
  pub overflowed : Bool

unfoldable pub new_catchup : ℕ → Catchup
new_catchup limit = record {
  limit = limit;
  order = [];
  by_tx_id = [];
  inflight = 0;
  dropped = 0;
  overflowed = false;
}

abbrev pub drop_oldest : String → Catchup → Catchup
drop_oldest oldest q = record q {
  by_tx_id = delete oldest q.by_tx_id;
  dropped = q.dropped + 1;
  overflowed = true;
}

-- The loop of `add`, over the order: the oldest entries go while the queue is full.
unfoldable pub make_room : List String → Catchup → Catchup
make_room [] q = record q { order = [] }
make_room (oldest ∷ rest) q =
    let room = make_room rest (drop_oldest oldest q) in
    if leb q.limit (suc (length rest)) then room else record q { order = oldest ∷ rest }

unfoldable pub append_new : Registration → Catchup → Catchup
append_new reg q = record q {
  order = q.order ++ reg.tx_id ∷ [];
  by_tx_id = insert reg.tx_id reg q.by_tx_id;
}

unfoldable pub add : Registration → Catchup → Catchup
add reg q =
    if member reg.tx_id q.by_tx_id
    then record q { by_tx_id = insert reg.tx_id reg q.by_tx_id }
    else append_new reg (make_room q.order q)

-- A missing key of a Go map reads as the zero value.
abbrev pub or_zero : Option Registration → Registration
or_zero none = record { tx_id = ""; callback_url = ""; callback_token = "" }
or_zero (some reg) = reg

unfoldable pub take_out :
    List String → Map String Registration → Map String Registration × List Registration
take_out [] m = (m, [])
take_out (tx_id ∷ order) m =
    let (m', out) = take_out order (delete tx_id m) in (m', or_zero (lookup tx_id m) ∷ out)

-- `take`: up to `n` entries from the front, which stay counted until they are settled.
unfoldable pub take_batch : ℕ → Catchup → Catchup × List Registration
take_batch n q =
    let (m, out) = take_out (take n q.order) q.by_tx_id in
    (record q { order = drop n q.order; by_tx_id = m; inflight = q.inflight + length out }, out)

-- The callers settle what they have taken.
unfoldable pub settle : ℕ → Catchup → Catchup
settle n q = record q { inflight = q.inflight - n }

-- `len`
unfoldable pub owed : Catchup → ℕ
owed q = length q.order + q.inflight

-- The number of entries dropped since the last resync, where a resync is due.
unfoldable pub drained_after_overflow : Catchup → Catchup × Option ℕ
drained_after_overflow q =
    if not q.overflowed || ltb 0 (owed q)
    then (q, none)
    else (record q { overflowed = false; dropped = 0 }, some (q.dropped))
