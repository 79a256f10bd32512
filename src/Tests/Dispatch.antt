-- ===== src/Tests/Dispatch.antt =====
-- services/propagation/dispatcher.go: a chain of transactions, and a waiter that is lost.
use arcade.Prelude.{◌≡◌, ◌<◌, refl, true, List, [], ◌∷◌, some, string_eq, nat_eq, beq-false→ne}
use arcade.Prelude.Map.{lookup, insert, delete}
use arcade.Models.Status.{accepted_by_network, rejected}
use arcade.Propagation.Offsets.{
  new_offset_tracker, push, add, mark_done, clean, clean_top, delete_offset, lowest_unfinished,
}
use arcade.Propagation.Offsets.Marks.{markable, advance}
use arcade.Propagation.Dispatcher.{
  PropagationMsg, Dispatcher, new_dispatcher, is_blocking, blocking, waiting_on, register, hold,
  enqueue, place, handle_admit, handle_requeue, can_release, release_child, release_children,
  release_waiters, land, CascadedTx, handle_terminal, drain,
}
use arcade.Propagation.Dispatcher.Watermark.{
  admits, Reachable, starts, steps, InFlight, Reachable-InFlight, watermark_waits,
}
use arcade.Propagation.Dispatcher.Cascade.{Lands, handle_terminal-Lands}
use arcade.Propagation.Dispatcher.Admission.{Admission, handle_admit-Admission}
use arcade.Propagation.Dispatcher.Release.{Grows, accepted-Grows}
use arcade.Propagation.Dispatcher.Unregistered.{IsLost}
use arcade.Propagation.Dispatcher.Lost.{stuck_child_stays}

abbrev parent : PropagationMsg
parent = record { tx_id = "p"; raw_tx = 1 ∷ []; input_tx_ids = [] }

abbrev other_parent : PropagationMsg
other_parent = record { tx_id = "q"; raw_tx = 3 ∷ []; input_tx_ids = [] }

abbrev child : PropagationMsg
child = record { tx_id = "c"; raw_tx = 2 ∷ []; input_tx_ids = "p" ∷ "q" ∷ [] }

-- The parent is in flight at offset 5.
abbrev one_parent : Dispatcher
one_parent = (handle_admit parent 5 new_dispatcher).0

one_parent-Reachable : Reachable one_parent
unfolding new_dispatcher new_offset_tracker
one_parent-Reachable = steps starts (admits parent 5 refl)

Reachable-InFlight_example : InFlight one_parent
Reachable-InFlight_example = Reachable-InFlight one_parent one_parent-Reachable

watermark_waits_example : 3 < 5
unfolding handle_admit new_dispatcher new_offset_tracker add push blocking is_blocking place enqueue
    insert lookup advance lowest_unfinished clean_top clean delete_offset markable
watermark_waits_example =
    watermark_waits one_parent true (record { msgs = 3 ∷ 5 ∷ []; head = 0 }) 3 5 "p"
      one_parent-Reachable refl refl

-- The parent, and its child, which is held.
abbrev held_child : Dispatcher
held_child = (handle_admit child 6 one_parent).0

handle_admit-Admission_example :
    let (s', r) = handle_admit child 6 one_parent in Admission child 6 one_parent s' r
handle_admit-Admission_example = handle_admit-Admission child 6 one_parent

handle_terminal-Lands_example :
    (r : Dispatcher × List CascadedTx) × (handle_terminal "p" rejected held_child ≡ some r)
    × Lands "p" rejected held_child r
handle_terminal-Lands_example = handle_terminal-Lands "p" rejected held_child

accepted-Grows_example :
    (s' : Dispatcher) × (handle_terminal "p" accepted_by_network held_child ≡ some (s', []))
    × Grows held_child.held s'.in_flight held_child s'
accepted-Grows_example = accepted-Grows "p" held_child

-- The child waits on `p`; then `q` enters the flight, and `p` is accepted. The child is lost.
abbrev lost : Dispatcher
lost = record {
  in_flight = ("c", 6) ∷ ("q", 7) ∷ [];
  waiters = [];
  held = ("c", child) ∷ [];
  pending = parent ∷ other_parent ∷ [];
  tracker = record { heap = 5 ∷ 6 ∷ 7 ∷ []; done = 5 ∷ [] };
}

lost-reached :
    handle_terminal "p" accepted_by_network (handle_admit other_parent 7 held_child).0
    ≡ some (lost, [])
unfolding handle_admit new_dispatcher new_offset_tracker add push mark_done blocking is_blocking
    place hold enqueue register waiting_on insert lookup delete handle_terminal land release_waiters
    release_children release_child can_release
lost-reached = refl

lost-IsLost : IsLost "c" child lost
unfolding lookup waiting_on
lost-IsLost = (refl, refl, λ p. refl)

-- Also when `q`, its last parent in flight, is accepted.
stuck_child_stays_example :
    IsLost "c" child (handle_admit parent 8 lost).0
    × IsLost "c" child (handle_requeue parent lost)
    × ((r : Dispatcher × List CascadedTx) × (handle_terminal "q" accepted_by_network lost ≡ some r)
        × IsLost "c" child r.0)
    × IsLost "c" child (drain lost).0
stuck_child_stays_example =
    stuck_child_stays "c" child parent 8 "q" accepted_by_network lost lost-IsLost
      (beq-false→ne "p" "c" refl) (beq-false→ne "q" "c" refl)
