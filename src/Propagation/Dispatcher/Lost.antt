-- ===== src/Propagation/Dispatcher/Lost.antt =====
-- services/propagation/dispatcher.go: a held transaction that is in no set of waiters. No event of
-- another transaction lets it go.
use arcade.Prelude.{
  ℕ, zero, suc, ◌≡◌, ◌≢◌, subst, inl, inr, String, false, List, [], ◌∷◌, ◌++◌, some, arith, ◌==◌,
  string_eq, contains, Option-cases, Bool-cases, beq_ne,
}
use arcade.Prelude.Map.{lookup, delete, member, lookup-insert, lookup-delete}
use arcade.Models.Status.{Status, accepted_by_network, rejected, pending_retry}
use arcade.Propagation.Dispatcher.{
  PropagationMsg, Dispatcher, blocking, hold, enqueue, place, handle_admit, handle_requeue,
  cleanup_waiter_entries, can_release, release_child, release_children, release_waiters, land,
  CascadedTx, cascade_child, cascade_children, cascade_walk, cascade_reject, handle_terminal, drain,
}
use arcade.Propagation.Dispatcher.Handlers.{Ends, report-Ends}
use arcade.Propagation.Dispatcher.Cascade.{handle_terminal-Lands}
use arcade.Propagation.Dispatcher.Admission.{register-contains}
use arcade.Propagation.Dispatcher.Unregistered.{
  IsLost, delete-Unregistered, found-Unregistered, leave_sets-Unregistered,
}

-- `c` is lost, with its message.
module _ (c : String) (msg : PropagationMsg) where
  cleanup-IsLost :
      (child skip : String) (s : Dispatcher)
      → IsLost c msg s
      → IsLost c msg (cleanup_waiter_entries child skip s)
  unfolding cleanup_waiter_entries
  cleanup-IsLost child skip s h = elim (Option-cases (lookup child s.held)) [
    | inl e ↦ rw (e, cleanup_waiter_entries) h
    | inr (m, e) ↦
        rw (e, cleanup_waiter_entries)
          (h.0, h.1, leave_sets-Unregistered c child skip m.input_tx_ids s.waiters h.2)
  ]

  -- The message of another child goes.
  drop_held-IsLost :
      (d : String) (s : Dispatcher)
      → (d == c) ≡ false
      → IsLost c msg s
      → IsLost c msg (record s { held = delete d s.held })
  drop_held-IsLost d s n h = (ground (arith, lookup-delete d c s.held, h.0), h.1, h.2)

  land-IsLost :
      (tx : String) (s : Dispatcher) → (tx == c) ≡ false → IsLost c msg s → IsLost c msg (land tx s)
  unfolding land
  land-IsLost tx s n h = elim (Option-cases (lookup tx s.in_flight)) [
    | inl e ↦ rw (e, land) h
    | inr (o, e) ↦ rw (e, land) (h.0, ground (arith, lookup-delete tx c s.in_flight, h.1), h.2)
  ]

  release_child-IsLost :
      (parent child : String) (s : Dispatcher)
      → (child == c) ≡ false
      → IsLost c msg s
      → IsLost c msg (release_child parent child s)
  unfolding release_child enqueue
  release_child-IsLost parent child s n h = elim (Option-cases (can_release child s)) [
    | inl e ↦ rw (e, release_child) h
    | inr (m, e) ↦
        rw (e, release_child)
          (drop_held-IsLost child (cleanup_waiter_entries child parent s) n
            (cleanup-IsLost child parent s h))
  ]

  release_children-IsLost :
      (parent : String) (cs : List String) (s : Dispatcher)
      → contains cs c ≡ false
      → IsLost c msg s
      → IsLost c msg (release_children parent cs s)
  unfolding release_children
  release_children-IsLost parent [] s n h = h
  release_children-IsLost parent (d ∷ cs) s n h =
      release_children-IsLost parent cs (release_child parent d s) (ground (arith, n))
        (release_child-IsLost parent d s (ground (arith, n)) h)

  release_waiters-IsLost :
      (parent : String) (s : Dispatcher) → IsLost c msg s → IsLost c msg (release_waiters parent s)
  unfolding release_waiters
  release_waiters-IsLost parent s h = elim (Option-cases (lookup parent s.waiters)) [
    | inl e ↦ rw (e, release_waiters) h
    | inr (cs, e) ↦
        rw (e, release_waiters)
          (release_children-IsLost parent cs (record s { waiters = delete parent s.waiters })
            (found-Unregistered c parent cs s.waiters e h.2)
            (h.0, h.1, delete-Unregistered c parent s.waiters h.2))
  ]

  cascade_children-IsLost :
      (parent : String) (cs : List String) (s : Dispatcher)
      → contains cs c ≡ false
      → IsLost c msg s
      → IsLost c msg (cascade_children parent cs s).0
  unfolding cascade_children cascade_child
  cascade_children-IsLost parent [] s n h = h
  cascade_children-IsLost parent (d ∷ cs) s n h =
      cascade_children-IsLost parent cs (cascade_child parent d s).0 (ground (arith, n)) (
        land-IsLost d _ (ground (arith, n)) (
          drop_held-IsLost d (cleanup_waiter_entries d parent s) (ground (arith, n))
            (cleanup-IsLost d parent s h)))

  cascade_walk-IsLost :
      (n : ℕ) (queue : List String) (s : Dispatcher)
      → IsLost c msg s
      → Ends (IsLost c msg) (cascade_walk n queue s)
  unfolding cascade_walk
  cascade_walk-IsLost zero queue s h = tt
  cascade_walk-IsLost (suc n) [] s h = h
  cascade_walk-IsLost (suc n) (parent ∷ queue) s h = elim (Option-cases (lookup parent s.waiters)) [
    | inl e ↦ rw (e, cascade_walk) (cascade_walk-IsLost n queue s h)
    | inr (cs, e) ↦
        rw (e, cascade_walk)
          (report-Ends (IsLost c msg) _ _ (
            cascade_walk-IsLost n (queue ++ cs) _ (
              cascade_children-IsLost parent cs (record s { waiters = delete parent s.waiters })
                (found-Unregistered c parent cs s.waiters e h.2)
                (h.0, h.1, delete-Unregistered c parent s.waiters h.2))))
  ]

  handle_terminal-IsLost :
      (tx : String) (status : Status) (s : Dispatcher)
      → (tx == c) ≡ false
      → IsLost c msg s
      → Ends (IsLost c msg) (handle_terminal tx status s)
  unfolding handle_terminal cascade_reject
  handle_terminal-IsLost tx accepted_by_network s n h =
      release_waiters-IsLost tx (land tx s) (land-IsLost tx s n h)
  handle_terminal-IsLost tx rejected s n h =
      cascade_walk-IsLost _ (tx ∷ []) _ (land-IsLost tx s n h)
  handle_terminal-IsLost tx pending_retry s n h =
      cascade_walk-IsLost _ (tx ∷ []) _ (land-IsLost tx s n h)
  handle_terminal-IsLost tx _ s n h = h

  place-IsLost :
      (other : PropagationMsg) (ps : List String) (s : Dispatcher)
      → (other.tx_id == c) ≡ false
      → IsLost c msg s
      → IsLost c msg (place other ps s).0
  unfolding place hold enqueue
  place-IsLost other [] s n h = h
  place-IsLost other (p ∷ ps) s n h = (
    ground (arith, lookup-insert other.tx_id c other s.held, h.0),
    h.1,
    λ q. ground (arith, register-contains other.tx_id c (p ∷ ps) s.waiters q, h.2 q),
  )

  handle_admit-IsLost :
      (other : PropagationMsg) (offset : ℕ) (s : Dispatcher)
      → (other.tx_id == c) ≡ false
      → IsLost c msg s
      → IsLost c msg (handle_admit other offset s).0
  unfolding handle_admit
  handle_admit-IsLost other offset s n h = elim (Bool-cases (member other.tx_id s.in_flight)) [
    | inl e ↦ rw e h
    | inr e ↦ rw e (
        place-IsLost other (blocking s.in_flight other) _ n
          (h.0, ground (arith, lookup-insert other.tx_id c offset s.in_flight, h.1), h.2))
  ]

  handle_requeue-IsLost :
      (other : PropagationMsg) (s : Dispatcher)
      → (other.tx_id == c) ≡ false
      → IsLost c msg s
      → IsLost c msg (handle_requeue other s)
  unfolding handle_requeue
  handle_requeue-IsLost other s n h = elim (Bool-cases (member other.tx_id s.in_flight)) [
    | inl e ↦ rw e (place-IsLost other (blocking s.in_flight other) s n h)
    | inr e ↦ rw e h
  ]

-- A transaction that is held, in flight and in no set of waiters stays so through every admission and
-- requeue of another transaction, every terminal event of another, whatever its status, and every drain.
pub stuck_child_stays :
    (c : String) (msg other : PropagationMsg) (offset : ℕ) (tx : String) (status : Status)
    (s : Dispatcher)
    → IsLost c msg s
    → other.tx_id ≢ c
    → tx ≢ c
    → IsLost c msg (handle_admit other offset s).0
      × IsLost c msg (handle_requeue other s)
      × ((r : Dispatcher × List CascadedTx) × (handle_terminal tx status s ≡ some r)
          × IsLost c msg r.0)
      × IsLost c msg (drain s).0
unfolding drain
stuck_child_stays c msg other offset tx status s h n m =
    let (r, e, x) = handle_terminal-Lands tx status s in
    (
      handle_admit-IsLost c msg other offset s (beq_ne other.tx_id c n) h,
      handle_requeue-IsLost c msg other s (beq_ne other.tx_id c n) h,
      (
        r,
        e,
        subst (Ends (IsLost c msg)) e (handle_terminal-IsLost c msg tx status s (beq_ne tx c m) h),
      ),
      h,
    )
