-- ===== src/Propagation/Dispatcher/Release.antt =====
-- services/propagation/dispatcher.go: what an ACCEPTED_BY_NETWORK lets go.
use arcade.Prelude.{
  ℕ, ◌≡◌, refl, sym, ◌∙◌, ap, subst, inl, inr, String, List, [], ◌∷◌, ◌++◌, none, some, arith,
  string_eq, Option-cases, keep, All, All-append, append_assoc, append-nil,
}
use arcade.Prelude.Map.{Map, lookup, lookup-delete}
use arcade.Models.Status.{accepted_by_network}
use arcade.Propagation.Dispatcher.{
  PropagationMsg, Dispatcher, is_blocking, enqueue, cleanup_waiter_entries, can_release,
  release_child, release_children, release_waiters, land, handle_terminal,
}
use arcade.Propagation.Dispatcher.Cascade.{release_child-in_flight, release_waiters-in_flight}

-- A message that may go: it is held, and none of its inputs is in flight.
abbrev pub MayGo : Map String PropagationMsg → Map String ℕ → PropagationMsg → Type 0
MayGo messages flight msg =
    (child : String) × (lookup child messages ≡ some msg)
    × (keep (is_blocking flight child) msg.input_tx_ids ≡ [])

-- The batch of `s'` is the batch of `s` with messages behind it that may go.
abbrev pub Grows : Map String PropagationMsg → Map String ℕ → Dispatcher → Dispatcher → Type 0
Grows messages flight s s' =
    (new : List PropagationMsg) × (s'.pending ≡ s.pending ++ new) × All (MayGo messages flight) new

cleanup-same :
    (child skip : String) (s : Dispatcher)
    → ((cleanup_waiter_entries child skip s).held ≡ s.held)
      × ((cleanup_waiter_entries child skip s).pending ≡ s.pending)
unfolding cleanup_waiter_entries
cleanup-same child skip s = elim (Option-cases (lookup child s.held)) [
  | inl e ↦ rw (e, cleanup_waiter_entries) (refl, refl)
  | inr (msg, e) ↦ rw (e, cleanup_waiter_entries) (refl, refl)
]

-- What may be released is held, and blocked by nothing.
can_release-MayGo :
    (child : String) (s : Dispatcher) (msg : PropagationMsg)
    → can_release child s ≡ some msg
    → (lookup child s.held ≡ some msg)
      × (keep (is_blocking s.in_flight child) msg.input_tx_ids ≡ [])
unfolding can_release
can_release-MayGo child s msg h = elim (Option-cases (lookup child s.held)) [
  | inl e ↦ absurd (ground (arith, (rw (e, can_release) at h)))
  | inr (m, e) ↦
      free m e (keep (is_blocking s.in_flight child) m.input_tx_ids) refl (rw (e, can_release) at h)
]
  where
    free :
        (m : PropagationMsg)
        → lookup child s.held ≡ some m
        → (ks : List String) → keep (is_blocking s.in_flight child) m.input_tx_ids ≡ ks
        → elim (keep (is_blocking s.in_flight child) m.input_tx_ids) [ [] ↦ some m | _ ↦ none ]
          ≡ some msg
        → (lookup child s.held ≡ some msg)
          × (keep (is_blocking s.in_flight child) msg.input_tx_ids ≡ [])
    free m e [] k h =
        let same = ap (λ o. elim o [ none ↦ m | some x ↦ x ]) (rw k at h) in
        (
          e ∙ ap some same,
          ap (λ x. keep (is_blocking s.in_flight child) x.input_tx_ids) (sym same) ∙ k,
        )
    free m e (x ∷ xs) k h = absurd (ground (arith, (rw k at h)))

-- `messages` are held at the start, and `flight` is in flight throughout.
module _ (messages : Map String PropagationMsg) (flight : Map String ℕ) where
  abbrev HeldIn : Dispatcher → Type 0
  HeldIn s =
      (c : String) (m : PropagationMsg) → lookup c s.held ≡ some m → lookup c messages ≡ some m

  release_child-Grows :
      (parent child : String) (s : Dispatcher)
      → s.in_flight ≡ flight
      → HeldIn s
      → Grows messages flight s (release_child parent child s)
        × HeldIn (release_child parent child s)
  unfolding release_child enqueue
  release_child-Grows parent child s f h = elim (Option-cases (can_release child s)) [
    | inl e ↦ rw (e, release_child) (([], sym (append-nil _), tt), h)
    | inr (msg, e) ↦
        rw (e, release_child)
          (let (was, clear) = can_release-MayGo child s msg e in
            let (held_same, pending_same) = cleanup-same child parent s in
            (
              (
                msg ∷ [],
                ap (λ l. l ++ msg ∷ []) pending_same,
                (
                  (
                    child,
                    h child msg was,
                    subst (λ f. keep (is_blocking f child) msg.input_tx_ids ≡ []) f clear,
                  ),
                  tt,
                ),
              ),
              λ c m g. h c m (
                  subst (λ l. lookup c l ≡ some m) held_same
                    (ground (
                      arith,
                      lookup-delete child c (cleanup_waiter_entries child parent s).held,
                      g,
                    ))),
            ))
  ]

  release_children-Grows :
      (parent : String) (cs : List String) (s : Dispatcher)
      → s.in_flight ≡ flight
      → HeldIn s
      → Grows messages flight s (release_children parent cs s)
  unfolding release_children
  release_children-Grows parent [] s f h = ([], sym (append-nil _), tt)
  release_children-Grows parent (c ∷ cs) s f h =
      let (g, h') = release_child-Grows parent c s f h in
      let (new, e, go) = g in
      let (more, e', go') =
        release_children-Grows parent cs (release_child parent c s)
          (release_child-in_flight parent c s ∙ f) h' in
      (
        new ++ more,
        e' ∙ ap (λ l. l ++ more) e ∙ append_assoc s.pending new more,
        All-append _ new more go go',
      )

  release_waiters-Grows :
      (parent : String) (s : Dispatcher)
      → s.in_flight ≡ flight
      → HeldIn s
      → Grows messages flight s (release_waiters parent s)
  unfolding release_waiters
  release_waiters-Grows parent s f h = elim (Option-cases (lookup parent s.waiters)) [
    | inl e ↦ rw (e, release_waiters) ([], sym (append-nil _), tt)
    | inr (cs, e) ↦ rw (e, release_waiters) (release_children-Grows parent cs _ f h)
  ]

land-same :
    (tx : String) (s : Dispatcher) → ((land tx s).held ≡ s.held) × ((land tx s).pending ≡ s.pending)
unfolding land
land-same tx s = elim (Option-cases (lookup tx s.in_flight)) [
  | inl e ↦ rw (e, land) (refl, refl)
  | inr (o, e) ↦ rw (e, land) (refl, refl)
]

-- An acceptance of a transaction is always handled, cascades nothing, and makes the batch grow at its
-- end by messages that were held and of each of which no input, but the empty one and the id that it
-- was held under, is in flight then.
pub accepted-Grows :
    (tx : String) (s : Dispatcher)
    → (s' : Dispatcher) × (handle_terminal tx accepted_by_network s ≡ some (s', []))
      × Grows s.held s'.in_flight s s'
unfolding handle_terminal
accepted-Grows tx s =
    let flight = (release_waiters tx (land tx s)).in_flight in
    let (held_same, pending_same) = land-same tx s in
    let (new, e, go) =
      release_waiters-Grows (land tx s).held flight tx (land tx s)
        (sym (release_waiters-in_flight tx (land tx s))) (λ c m h. h) in
    (
      _,
      refl,
      (
        new,
        e ∙ ap (λ l. l ++ new) pending_same,
        subst (λ l. All (MayGo l flight) new) held_same go,
      ),
    )
