-- ===== src/Propagation/Dispatcher/Cascade.antt =====
-- services/propagation/dispatcher.go: what a terminal event takes out of the flight, and what it reports.
use arcade.Prelude.{
  ℕ, ◌+◌, suc, zero, ◌≡◌, refl, ◌∙◌, ap, subst, inl, inr, String, Bool, true, false, ◌&&◌, List, [],
  ◌∷◌, ◌++◌, Option, none, some, arith, string_eq, if◌then◌else◌, contains, Option-cases, map,
  contains-append,
}
use arcade.Prelude.Map.{lookup, delete, lookup-delete}
use arcade.Models.Status.{Status, accepted_by_network, rejected, pending_retry}
use arcade.Propagation.Dispatcher.{
  Dispatcher, cleanup_waiter_entries, can_release, release_child, release_children, release_waiters,
  enqueue, land, CascadedTx, cascade_child, cascade_children, report, cascade_walk, entries,
  cascade_reject, handle_terminal,
}
use arcade.Propagation.Dispatcher.Fuel.{cascade_walk-total}

-- The transactions that rows name.
abbrev pub names : List CascadedTx → List String
names rows = map (λ row. row.tx_id) rows

-- The flight after the transactions in `gone` left it.
abbrev pub Left : List String → Dispatcher → Dispatcher → Type 0
Left gone s s' =
    (a : String) → lookup a s'.in_flight ≡ (if contains gone a then none else lookup a s.in_flight)

Left-trans :
    (xs ys : List String) (s t u : Dispatcher) → Left xs s t → Left ys t u → Left (xs ++ ys) s u
Left-trans xs ys s t u h k a = ground (arith, contains-append xs ys a, h a, k a)

land-Left : (tx : String) (s : Dispatcher) → Left (tx ∷ []) s (land tx s)
unfolding land
land-Left tx s a = elim (Option-cases (lookup tx s.in_flight)) [
  | inl e ↦ rw (e, land) (ground (arith, string_eq.beq_iff tx a, ap (λ k. lookup k s.in_flight), e))
  | inr (o, e) ↦ rw (e, land) (ground (arith, lookup-delete tx a s.in_flight))
]

pub cleanup-in_flight :
    (child skip : String) (s : Dispatcher)
    → (cleanup_waiter_entries child skip s).in_flight ≡ s.in_flight
unfolding cleanup_waiter_entries
cleanup-in_flight child skip s = elim (Option-cases (lookup child s.held)) [
  | inl e ↦ rw (e, cleanup_waiter_entries) refl
  | inr (msg, e) ↦ rw (e, cleanup_waiter_entries) refl
]

cascade_children-Left :
    (parent : String) (cs : List String) (s : Dispatcher)
    → let (s', rows) = cascade_children parent cs s in Left (names rows) s s'
unfolding cascade_children cascade_child
cascade_children-Left parent [] s = λ a. refl
cascade_children-Left parent (c ∷ cs) s =
    Left-trans (c ∷ []) (names (cascade_children parent cs (cascade_child parent c s).0).1) s
      (cascade_child parent c s).0 (cascade_children parent cs (cascade_child parent c s).0).0
      (λ a.
        land-Left c _ a
        ∙ ap (λ f. if contains (c ∷ []) a then none else lookup a f) (cleanup-in_flight c parent s))
      (cascade_children-Left parent cs (cascade_child parent c s).0)

names-append : (xs ys : List CascadedTx) → names (xs ++ ys) ≡ names xs ++ names ys
names-append [] ys = refl
names-append (x ∷ xs) ys = ap (x.tx_id ∷◌) (names-append xs ys)

-- A walk from `s` that ends has reported what left the flight.
abbrev Accounts : Dispatcher → Option (Dispatcher × List CascadedTx) → Type 0
Accounts s none = Unit
Accounts s (some (s', rows)) = Left (names rows) s s'

report-Accounts :
    (s t : Dispatcher) (rows : List CascadedTx) (o : Option (Dispatcher × List CascadedTx))
    → Left (names rows) s t
    → Accounts t o
    → Accounts s (report rows o)
report-Accounts s t rows none h k = tt
report-Accounts s t rows (some (u, more)) h k =
    rw (names-append rows more) (Left-trans (names rows) (names more) s t u h k)

cascade_walk-Accounts :
    (n : ℕ) (queue : List String) (s : Dispatcher) → Accounts s (cascade_walk n queue s)
unfolding cascade_walk
cascade_walk-Accounts zero queue s = tt
cascade_walk-Accounts (suc n) [] s = λ a. refl
cascade_walk-Accounts (suc n) (parent ∷ queue) s = elim (Option-cases (lookup parent s.waiters)) [
  | inl e ↦ rw (e, cascade_walk) (cascade_walk-Accounts n queue s)
  | inr (cs, e) ↦
      rw (e, cascade_walk)
        (report-Accounts s
          (cascade_children parent cs (record s { waiters = delete parent s.waiters })).0 _ _
          (cascade_children-Left parent cs (record s { waiters = delete parent s.waiters }))
          (cascade_walk-Accounts n (queue ++ cs) _))
]

pub release_child-in_flight :
    (parent child : String) (s : Dispatcher)
    → (release_child parent child s).in_flight ≡ s.in_flight
unfolding release_child enqueue
release_child-in_flight parent child s = elim (Option-cases (can_release child s)) [
  | inl e ↦ rw (e, release_child) refl
  | inr (msg, e) ↦ rw (e, release_child) (cleanup-in_flight child parent s)
]

release_children-in_flight :
    (parent : String) (cs : List String) (s : Dispatcher)
    → (release_children parent cs s).in_flight ≡ s.in_flight
unfolding release_children
release_children-in_flight parent [] s = refl
release_children-in_flight parent (c ∷ cs) s =
    release_children-in_flight parent cs (release_child parent c s)
    ∙ release_child-in_flight parent c s

pub release_waiters-in_flight :
    (parent : String) (s : Dispatcher) → (release_waiters parent s).in_flight ≡ s.in_flight
unfolding release_waiters
release_waiters-in_flight parent s = elim (Option-cases (lookup parent s.waiters)) [
  | inl e ↦ rw (e, release_waiters) refl
  | inr (cs, e) ↦ rw (e, release_waiters) (release_children-in_flight parent cs _)
]

-- The statuses that end a flight.
unfoldable pub flips : Status → Bool
flips accepted_by_network = true
flips rejected = true
flips pending_retry = true
flips _ = false

-- The flight after a terminal event: without the transaction, and without those reported.
abbrev pub Lands : String → Status → Dispatcher → Dispatcher × List CascadedTx → Type 0
Lands tx status s (s', rows) =
    (a : String)
    → lookup a s'.in_flight
      ≡ (if flips status && contains (tx ∷ names rows) a then none else lookup a s.in_flight)

cascade_reject-Lands :
    (tx : String) (s : Dispatcher)
    → (r : Dispatcher × List CascadedTx) × (cascade_reject tx (land tx s) ≡ some r)
      × Left (tx ∷ names r.1) s r.0
unfolding cascade_reject
cascade_reject-Lands tx s =
    let (r, e) =
      cascade_walk-total (entries (land tx s).waiters + 2) (tx ∷ []) (land tx s) (omega arith) in
    (
      r,
      e,
      Left-trans (tx ∷ []) (names r.1) s (land tx s) r.0 (land-Left tx s)
          (subst (Accounts (land tx s)) e (cascade_walk-Accounts _ (tx ∷ []) (land tx s))),
    )

-- A terminal event is always handled, and it reports all that it lands: after ACCEPTED_BY_NETWORK,
-- REJECTED or PENDING_RETRY the flight is the one before without the transaction and without the descendants
-- reported, which every transaction else, with its offset, outlasts; after any other status it is
-- the one before.
pub handle_terminal-Lands :
    (tx : String) (status : Status) (s : Dispatcher)
    → (r : Dispatcher × List CascadedTx) × (handle_terminal tx status s ≡ some r)
      × Lands tx status s r
unfolding handle_terminal flips
handle_terminal-Lands tx accepted_by_network s =
    (_, refl, λ a. ap (lookup a) (release_waiters-in_flight tx (land tx s)) ∙ land-Left tx s a)
handle_terminal-Lands tx rejected s = cascade_reject-Lands tx s
handle_terminal-Lands tx pending_retry s = cascade_reject-Lands tx s
handle_terminal-Lands tx _ s = (_, refl, λ a. refl)
