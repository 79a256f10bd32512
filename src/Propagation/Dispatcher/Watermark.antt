-- ===== src/Propagation/Dispatcher/Watermark.antt =====
-- services/propagation/dispatcher.go with offset_tracker.go and mark_queue.go: the states that a
-- dispatcher reaches, and the commit watermark in them.
use arcade.Prelude.{
  ℕ, ◌≡◌, ◌<◌, sym, ◌∙◌, subst, inl, inr, String, Bool, true, false, List, [], ◌∷◌, none, some,
  arith, string_eq, nat_eq, contains, eq_cases, Bool-cases, All,
}
use arcade.Prelude.Map.{Map, lookup, member}
use arcade.Models.Status.{Status}
use arcade.Propagation.Offsets.{OffsetTracker, new_offset_tracker, add, mark_done}
use arcade.Propagation.Offsets.Laws.{
  is_unfinished, IsTracker, add-contains, fresh-is_unfinished, add-is_unfinished,
  mark_done-is_unfinished, add-IsTracker, mark_done-IsTracker, new_offset_tracker-IsTracker,
}
use arcade.Propagation.Dispatcher.{
  PropagationMsg, Dispatcher, new_dispatcher, handle_admit, handle_requeue, handle_terminal, drain,
  CascadedTx,
}
use arcade.Propagation.Dispatcher.Flight.{IsFlight, landed-IsFlight, launched-IsFlight}
use arcade.Propagation.Dispatcher.Handlers.{
  Ends, place-keeps, handle_requeue-keeps, handle_terminal-keeps,
}
use arcade.Propagation.Offsets.Marks.{MarkQueue, advance, advance-below_unfinished}

-- What the goroutine does with one message of its select. An admission's offset is new to the
-- tracker: a claim delivers each offset once.
pub data Step : Dispatcher → Dispatcher → Type 0 where
  admits :
      {s : Dispatcher} (msg : PropagationMsg) (offset : ℕ)
      → contains s.tracker.heap offset ≡ false
      → Step s (handle_admit msg offset s).0
  requeues : {s : Dispatcher} (msg : PropagationMsg) → Step s (handle_requeue msg s)
  terminates :
      {s s' : Dispatcher} (tx : String) (status : Status) (rows : List CascadedTx)
      → handle_terminal tx status s ≡ some (s', rows)
      → Step s s'
  drains : {s : Dispatcher} → Step s (drain s).0
  advances :
      {s : Dispatcher} (claim : Bool) (q : MarkQueue)
      → Step s (record s { tracker = (advance claim q s.tracker).1 })

pub data Reachable : Dispatcher → Type 0 where
  starts : Reachable new_dispatcher
  steps : {s s' : Dispatcher} → Reachable s → Step s s' → Reachable s'

abbrev pub InFlight : Dispatcher → Type 0
InFlight s = IsFlight s.in_flight s.tracker

double_done :
    (o p : ℕ) (t : OffsetTracker)
    → IsTracker t
    → contains t.heap o ≡ false
    → is_unfinished p (mark_done o (add o t)) ≡ is_unfinished p t
double_done o p t v fresh = ground (
  arith,
  mark_done-is_unfinished o p (add o t),
  add-is_unfinished o p t v fresh,
  fresh-is_unfinished o p t fresh,
  nat_eq.beq_iff o p,
)

double_done-IsFlight :
    (o : ℕ) (flight : Map String ℕ) (t : OffsetTracker)
    → IsFlight flight t
    → contains t.heap o ≡ false
    → IsFlight flight (mark_done o (add o t))
double_done-IsFlight o flight t v fresh = record {
  tracks = mark_done-IsTracker o (add o t) (add-IsTracker o t v.tracks fresh) (add-contains o t);
  pinned = λ tx p h. double_done o p t v.tracks fresh ∙ v.pinned tx p h;
  owned = λ p h. v.owned p (sym (double_done o p t v.tracks fresh) ∙ h);
  distinct = v.distinct;
}

not_member : (tx : String) (m : Map String ℕ) → member tx m ≡ false → lookup tx m ≡ none
not_member tx m e = ground (arith, e)

handle_admit-InFlight :
    (msg : PropagationMsg) (o : ℕ) (s : Dispatcher)
    → InFlight s
    → contains s.tracker.heap o ≡ false
    → InFlight (handle_admit msg o s).0
unfolding handle_admit
handle_admit-InFlight msg o s v fresh = elim (Bool-cases (member msg.tx_id s.in_flight)) [
  | inr e ↦ rw e (
      place-keeps IsFlight msg _ _
        (launched-IsFlight msg.tx_id o s.in_flight s.tracker v fresh (not_member msg.tx_id _ e)))
  | inl e ↦ rw e (double_done-IsFlight o s.in_flight s.tracker v fresh)
]

advance-InFlight :
    (claim : Bool) (q : MarkQueue) (flight : Map String ℕ) (t : OffsetTracker)
    → IsFlight flight t
    → IsFlight flight (advance claim q t).1
advance-InFlight claim q flight t v =
    let (free, tracks, same) = advance-below_unfinished claim q t v.tracks in
    record {
      tracks = tracks;
      pinned = λ tx o h. same o ∙ v.pinned tx o h;
      owned = λ o h. v.owned o (sym (same o) ∙ h);
      distinct = v.distinct;
    }

drain-InFlight : (s : Dispatcher) → InFlight s → InFlight (drain s).0
unfolding drain
drain-InFlight s v = v

new_dispatcher-InFlight : InFlight new_dispatcher
unfolding new_dispatcher lookup is_unfinished new_offset_tracker
new_dispatcher-InFlight = record {
  tracks = new_offset_tracker-IsTracker;
  pinned = λ tx o h. absurd (ground (arith, h));
  owned = λ o h. absurd (ground (arith, h));
  distinct = λ a b o ha hb. absurd (ground (arith, ha));
}

Step-InFlight : {s s' : Dispatcher} → Step s s' → InFlight s → InFlight s'
Step-InFlight (admits {s} msg o fresh) v = handle_admit-InFlight msg o s v fresh
Step-InFlight (requeues {s} msg) v = handle_requeue-keeps IsFlight msg s v
Step-InFlight (terminates {s} {s'} tx status rows e) v =
    subst (Ends InFlight) e (handle_terminal-keeps IsFlight landed-IsFlight tx status s v)
Step-InFlight (drains {s}) v = drain-InFlight s v
Step-InFlight (advances {s} claim q) v = advance-InFlight claim q s.in_flight s.tracker v

-- In every state that a dispatcher reaches when each offset admitted is new to the tracker, the tracker is well formed, the offsets that it has unfinished are
-- those of the transactions in flight, and no two transactions in flight have the same offset.
pub Reachable-InFlight : (s : Dispatcher) → Reachable s → InFlight s
Reachable-InFlight _ starts = new_dispatcher-InFlight
Reachable-InFlight _ (steps r x) = Step-InFlight x (Reachable-InFlight _ r)

All-contains : (P : ℕ → Type 0) (xs : List ℕ) (m : ℕ) → All P xs → contains xs m ≡ true → P m
All-contains P [] m a h = absurd (ground (arith, h))
All-contains P (x ∷ xs) m a h = elim (eq_cases x m) [
  | inl (b, e) ↦ subst P e a.0
  | inr (b, e) ↦ All-contains P xs m a.1 (ground (arith, h, b))
]

-- In every state that a dispatcher reaches when each offset admitted is new to the tracker, an offset that an advance of the mark queue marks, with or without a
-- claim and whatever the queue holds, is below the offset of every transaction in flight.
pub watermark_waits :
    (s : Dispatcher) (claim : Bool) (q : MarkQueue) (m o : ℕ) (tx : String)
    → Reachable s
    → contains (advance claim q s.tracker).2 m ≡ true
    → lookup tx s.in_flight ≡ some o
    → m < o
watermark_waits s claim q m o tx r marked h =
    let v = Reachable-InFlight s r in
    All-contains _ (advance claim q s.tracker).2 m
      (advance-below_unfinished claim q s.tracker v.tracks).0 marked o (v.pinned tx o h)
