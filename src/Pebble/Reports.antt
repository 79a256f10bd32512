-- ===== src/Pebble/Reports.antt =====
-- store/pebble/pebble.go: what single operations on a status row report and write.
use arcade.Prelude.{
  ℕ, String, ◌≡◌, refl, ◌⊎◌, inl, inr, true, false, Option, none, some, arith, string_eq,
  Option-cases,
}
use arcade.Prelude.Map.{lookup, lookup-insert_self}
use arcade.Models.Status.{Status, status_eq}
use arcade.Models.Transaction.{TransactionStatus}
use arcade.Pebble.Row.{StoredStatus, merge_status, to_model}
use arcade.Pebble.Ops.{
  Store, Io, Outcome, ok, write_row, with_row, commit, update_allowed, StatusUpdate,
  update_status_returning, err, cleared_row, clear_retry_state,
}
use arcade.Pebble.Guard.{HasRow}

-- Where the database does not fail, ClearRetryState moves a row in any status to the final status
-- that it is given, also where the lattice refuses that move.
clear_retry_state_unguarded :
    (io : Io) (now : ℕ) (t : String) (final : Status) (extra : String) (s : Store)
    (e : StoredStatus)
    → io.cancelled ≡ false
    → io.read_fails ≡ false
    → io.write_fails ≡ false
    → lookup t s.rows ≡ some e
    → HasRow (λ r. r.status ≡ final) t (clear_retry_state io now t final extra s).0
unfolding clear_retry_state with_row commit write_row cleared_row
clear_retry_state_unguarded io now t final extra s e c r w h =
    rw (c, r, h, w) (cleared_row now final extra e, lookup-insert_self t _ s.rows, refl)

-- The previous row that a result reports.
abbrev pub reported : Outcome StatusUpdate → Option TransactionStatus
reported (ok u) = u.prev
reported (err x) = none

-- UpdateStatusReturning reports what it did, whatever the database does: a reported previous row is
-- the row that stood there, the guard let the update through, and the merged row stands there now; in
-- every other case (no previous row reported, or an error) the store is as it was.
update_status_reports :
    (io : Io) (update : TransactionStatus) (s : Store)
    → let (s', r) = update_status_returning io update s in
      ((e : StoredStatus) × (lookup update.tx_id s.rows ≡ some e)
        × (update_allowed update e ≡ true)
        × (r ≡ ok (record { prev = some (to_model e); current = none }))
        × (lookup update.tx_id s'.rows ≡ some (merge_status e update)))
      ⊎ ((s' ≡ s) × (reported r ≡ none))
unfolding update_status_returning with_row commit write_row
update_status_reports io update s = elim (Option-cases (lookup update.tx_id s.rows)) [
  | inl e ↦ inr (ground (arith, e))
  | inr (e, h) ↦ ground (arith, h, lookup-insert_self update.tx_id (merge_status e update) s.rows)
]
