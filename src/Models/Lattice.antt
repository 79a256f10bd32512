-- ===== src/Models/Lattice.antt =====
-- What the status lattice of models/transaction.go promises about sequences of guarded writes.
use arcade.Prelude.{
  ◌≡◌, ◌≢◌, ◌⊎◌, refl, ap, ◌∙◌, true, not, ◌&&◌, List, [], ◌∷◌, arith, ◌==◌, contains, All,
  if◌then◌else◌,
}
use arcade.Models.Status.{
  Status, unknown, accepted_by_network, seen_on_network, seen_multiple_nodes,
  double_spend_attempted, rejected, mined, immutable, other, status_eq, all_statuses,
  non_terminal_statuses, is_terminal, can_transition_from,
}

-- One of the twelve constants.
abbrev pub IsKnown : Status → Type 0
IsKnown s = contains all_statuses s ≡ true

-- A guarded write: the row keeps its status when the lattice refuses the new one.
unfoldable pub write : Status → Status → Status
write prev s = if can_transition_from s prev then s else prev

unfoldable pub writes : Status → List Status → Status
writes prev [] = prev
writes prev (s ∷ ss) = writes (write prev s) ss

abbrev pub IsConfirmed : Status → Type 0
IsConfirmed s = (s ≡ mined) ⊎ (s ≡ immutable)

write-IsConfirmed : (prev s : Status) → IsKnown s → IsConfirmed prev → IsConfirmed (write prev s)
unfolding write can_transition_from
write-IsConfirmed prev (other s) k c = cc
write-IsConfirmed prev unknown k c = ground arith
write-IsConfirmed prev _ k c = ground arith

immutable-write : (s : Status) → IsKnown s → write immutable s ≡ immutable
unfolding write can_transition_from
immutable-write (other s) k = cc
immutable-write unknown k = ground arith
immutable-write _ k = ground arith

writes-IsConfirmed :
    (prev : Status) (ss : List Status)
    → All IsKnown ss
    → IsConfirmed prev
    → IsConfirmed (writes prev ss)
unfolding writes
writes-IsConfirmed prev [] k c = c
writes-IsConfirmed prev (s ∷ ss) k c =
    writes-IsConfirmed (write prev s) ss k.1 (write-IsConfirmed prev s k.0 c)

immutable-writes : (ss : List Status) → All IsKnown ss → writes immutable ss ≡ immutable
unfolding writes
immutable-writes [] k = refl
immutable-writes (s ∷ ss) k =
    ap (λ p. writes p ss) (immutable-write s k.0) ∙ immutable-writes ss k.1

-- However many guarded writes of known statuses follow, a row that is MINED or IMMUTABLE stays one of
-- the two, and a row that is IMMUTABLE stays so.
writes_never_revert :
    (prev : Status) (ss : List Status)
    → All IsKnown ss
    → IsConfirmed prev
    → IsConfirmed (writes prev ss) × (writes immutable ss ≡ immutable)
writes_never_revert prev ss k c = (writes-IsConfirmed prev ss k c, immutable-writes ss k)

-- Where a row in a terminal status may go.
unfoldable pub terminal_exits : Status → List Status
terminal_exits rejected =
    accepted_by_network ∷ seen_on_network ∷ seen_multiple_nodes ∷ double_spend_attempted ∷ mined
    ∷ immutable ∷ []
terminal_exits double_spend_attempted = rejected ∷ mined ∷ immutable ∷ []
terminal_exits mined = immutable ∷ []
terminal_exits _ = []

-- Between two different known statuses, of which the first is terminal, the guard lets exactly these
-- moves through: REJECTED to ACCEPTED_BY_NETWORK, SEEN_ON_NETWORK, SEEN_MULTIPLE_NODES,
-- DOUBLE_SPEND_ATTEMPTED, MINED and IMMUTABLE; DOUBLE_SPEND_ATTEMPTED to REJECTED, MINED and
-- IMMUTABLE; MINED to IMMUTABLE; and none out of IMMUTABLE.
pub terminal_moves :
    (prev s : Status)
    → is_terminal prev ≡ true
    → IsKnown s
    → s ≢ prev
    → can_transition_from s prev ≡ contains (terminal_exits prev) s
unfolding is_terminal can_transition_from terminal_exits
terminal_moves rejected s t k n = ground arith
terminal_moves double_spend_attempted s t k n = ground arith
terminal_moves mined s t k n = ground arith
terminal_moves immutable s t k n = ground arith
terminal_moves (other p) s t k n = cc
terminal_moves _ s t k n = cc

-- A known status is in the list that is replayed to a client that reconnects exactly when it is
-- neither terminal nor UNKNOWN.
statuses_partition :
    (s : Status)
    → IsKnown s
    → contains non_terminal_statuses s ≡ (not (is_terminal s) && not (s == unknown))
unfolding is_terminal
statuses_partition s k = ground arith
