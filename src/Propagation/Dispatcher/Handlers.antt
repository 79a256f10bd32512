-- ===== src/Propagation/Dispatcher/Handlers.antt =====
-- services/propagation/dispatcher.go: what the handlers other than an admission do to the flight,
-- the transactions in flight with the tracker: nothing but landings.
use arcade.Prelude.{
  ℕ, suc, zero, ◌≡◌, inl, inr, String, List, [], ◌∷◌, Option, none, some, string_eq, nat_eq,
  Option-cases, Bool-cases, ◌++◌,
}
use arcade.Prelude.Map.{Map, lookup, delete, member}
use arcade.Models.Status.{Status, accepted_by_network, rejected, pending_retry}
use arcade.Propagation.Offsets.{OffsetTracker, mark_done}
use arcade.Propagation.Dispatcher.{
  PropagationMsg, Dispatcher, blocking, hold, enqueue, place, handle_requeue,
  cleanup_waiter_entries, can_release, release_child, release_children, release_waiters, land,
  cascade_child, cascade_children, cascade_walk, report, cascade_reject, handle_terminal,
  CascadedTx,
}

-- What holds of the state that a walk ends in.
abbrev pub Ends : (Dispatcher → Type 0) → Option (Dispatcher × List CascadedTx) → Type 0
Ends P none = Unit
Ends P (some (s, rows)) = P s

pub report-Ends :
    (P : Dispatcher → Type 0) (rows : List CascadedTx) (o : Option (Dispatcher × List CascadedTx))
    → Ends P o
    → Ends P (report rows o)
report-Ends P rows none h = h
report-Ends P rows (some (s, more)) h = h

-- A property of the flight that each landing keeps, every handler but an admission keeps.
module _ (P : Map String ℕ → OffsetTracker → Type 0) where
  abbrev pub Lands : Type 0
  Lands =
      (tx : String) (o : ℕ) (flight : Map String ℕ) (t : OffsetTracker)
      → P flight t
      → lookup tx flight ≡ some o
      → P (delete tx flight) (mark_done o t)

  abbrev pub On : Dispatcher → Type 0
  On s = P s.in_flight s.tracker

  pub place-keeps :
      (msg : PropagationMsg) (ps : List String) (s : Dispatcher) → On s → On (place msg ps s).0
  unfolding place hold enqueue
  place-keeps msg [] s h = h
  place-keeps msg (p ∷ ps) s h = h

  pub handle_requeue-keeps :
      (msg : PropagationMsg) (s : Dispatcher) → On s → On (handle_requeue msg s)
  unfolding handle_requeue
  handle_requeue-keeps msg s h = elim (Bool-cases (member msg.tx_id s.in_flight)) [
    | inl e ↦ rw e (place-keeps msg (blocking s.in_flight msg) s h)
    | inr e ↦ rw e h
  ]

  cleanup-keeps :
      (child skip : String) (s : Dispatcher) → On s → On (cleanup_waiter_entries child skip s)
  unfolding cleanup_waiter_entries
  cleanup-keeps child skip s h = elim (Option-cases (lookup child s.held)) [
    | inl e ↦ rw (e, cleanup_waiter_entries) h
    | inr (msg, e) ↦ rw (e, cleanup_waiter_entries) h
  ]

  release_child-keeps :
      (parent child : String) (s : Dispatcher) → On s → On (release_child parent child s)
  unfolding release_child enqueue
  release_child-keeps parent child s h = elim (Option-cases (can_release child s)) [
    | inl e ↦ rw (e, release_child) h
    | inr (msg, e) ↦ rw (e, release_child) (cleanup-keeps child parent s h)
  ]

  release_children-keeps :
      (parent : String) (cs : List String) (s : Dispatcher)
      → On s
      → On (release_children parent cs s)
  unfolding release_children
  release_children-keeps parent [] s h = h
  release_children-keeps parent (c ∷ cs) s h =
      release_children-keeps parent cs (release_child parent c s) (release_child-keeps parent c s h)

  release_waiters-keeps : (parent : String) (s : Dispatcher) → On s → On (release_waiters parent s)
  unfolding release_waiters
  release_waiters-keeps parent s h = elim (Option-cases (lookup parent s.waiters)) [
    | inl e ↦ rw (e, release_waiters) h
    | inr (cs, e) ↦ rw (e, release_waiters) (release_children-keeps parent cs _ h)
  ]

  module _ (lands : Lands) where
    land-keeps : (tx : String) (s : Dispatcher) → On s → On (land tx s)
    unfolding land
    land-keeps tx s h = elim (Option-cases (lookup tx s.in_flight)) [
      | inl e ↦ rw (e, land) h
      | inr (o, e) ↦ rw (e, land) (lands tx o s.in_flight s.tracker h e)
    ]

    cascade_children-keeps :
        (parent : String) (cs : List String) (s : Dispatcher)
        → On s
        → On (cascade_children parent cs s).0
    unfolding cascade_children cascade_child
    cascade_children-keeps parent [] s h = h
    cascade_children-keeps parent (c ∷ cs) s h =
        cascade_children-keeps parent cs _ (land-keeps c _ (cleanup-keeps c parent s h))

    cascade_walk-keeps :
        (n : ℕ) (queue : List String) (s : Dispatcher) → On s → Ends On (cascade_walk n queue s)
    unfolding cascade_walk
    cascade_walk-keeps zero queue s h = tt
    cascade_walk-keeps (suc n) [] s h = h
    cascade_walk-keeps (suc n) (parent ∷ queue) s h =
        elim (Option-cases (lookup parent s.waiters)) [
          | inl f ↦ rw (f, cascade_walk) (cascade_walk-keeps n queue s h)
          | inr (cs, f) ↦
              rw (f, cascade_walk)
                (report-Ends On _ _
                  (cascade_walk-keeps n (queue ++ cs) _ (cascade_children-keeps parent cs _ h)))
        ]

    pub handle_terminal-keeps :
        (tx : String) (status : Status) (s : Dispatcher)
        → On s
        → Ends On (handle_terminal tx status s)
    unfolding handle_terminal cascade_reject
    handle_terminal-keeps tx accepted_by_network s h =
        release_waiters-keeps tx (land tx s) (land-keeps tx s h)
    handle_terminal-keeps tx rejected s h = cascade_walk-keeps _ (tx ∷ []) _ (land-keeps tx s h)
    handle_terminal-keeps tx pending_retry s h =
        cascade_walk-keeps _ (tx ∷ []) _ (land-keeps tx s h)
    handle_terminal-keeps tx _ s h = h
