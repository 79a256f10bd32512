-- ===== src/Propagation/Dispatcher.antt =====
-- services/propagation/dispatcher.go: the state that one dispatcher goroutine owns and the handlers of
-- its messages. A set of strings is a list that holds each once; Go's random order over a map or a
-- set is the order of the list. Channels, metrics and trace contexts are left out.
use arcade.Prelude.{
  ℕ, ◌+◌, suc, zero, String, Bool, not, ◌&&◌, ◌||◌, List, [], ◌∷◌, ◌++◌, Option, none, some, ◌==◌,
  string_eq, if◌then◌else◌, keep, contains, length,
}
use arcade.Prelude.Map.{Map, lookup, insert, delete, member}
use arcade.Models.Status.{Status, accepted_by_network, rejected, pending_retry}
use arcade.Propagation.Offsets.{OffsetTracker, new_offset_tracker, add, mark_done}
pub mod Flight
pub mod Handlers
pub mod Watermark
pub mod Fuel
pub mod Cascade
pub mod Admission
pub mod Release
pub mod Lost
pub mod Unregistered

-- propagationMsg, less its span and its retry count.
pub record PropagationMsg : Type 0 where
  pub tx_id : String
  pub raw_tx : List ℕ
  pub input_tx_ids : List String

pub record Dispatcher : Type 0 where
  pub in_flight : Map String ℕ
  pub waiters : Map String (List String)
  pub held : Map String PropagationMsg
  pub pending : List PropagationMsg
  pub tracker : OffsetTracker

unfoldable pub new_dispatcher : Dispatcher
new_dispatcher = record {
  in_flight = [];
  waiters = [];
  held = [];
  pending = [];
  tracker = new_offset_tracker;
}

pub data AdmitResult : Type 0 where
  admitted : AdmitResult
  held : AdmitResult
  duplicate : AdmitResult

-- The inputs that block a transaction: not empty, not itself, and in flight.
unfoldable pub is_blocking : Map String ℕ → String → String → Bool
is_blocking in_flight tx parent = not (parent == "" || parent == tx) && member parent in_flight

unfoldable pub blocking : Map String ℕ → PropagationMsg → List String
blocking in_flight msg = keep (is_blocking in_flight msg.tx_id) msg.input_tx_ids

-- The waiters of a parent, empty when it has none.
unfoldable pub waiting_on : Map String (List String) → String → List String
waiting_on waiters parent = elim (lookup parent waiters) [ none ↦ [] | some set ↦ set ]

-- `set[msg.TXID] = struct{}{}` for each parent.
unfoldable pub register : String → List String → Map String (List String) → Map String (List String)
register child [] waiters = waiters
register child (parent ∷ parents) waiters =
    let set = waiting_on waiters parent in
    register child parents
      (insert parent (if contains set child then set else set ++ child ∷ []) waiters)

-- What handleAdmit and handleRequeue share: hold on the blocking parents, or append to the batch.
unfoldable pub hold : PropagationMsg → List String → Dispatcher → Dispatcher
hold msg parents s = record s {
  waiters = register msg.tx_id parents s.waiters;
  held = insert msg.tx_id msg s.held;
}

unfoldable pub enqueue : PropagationMsg → Dispatcher → Dispatcher
enqueue msg s = record s { pending = s.pending ++ msg ∷ [] }

unfoldable pub place : PropagationMsg → List String → Dispatcher → Dispatcher × AdmitResult
place msg [] s = (enqueue msg s, AdmitResult.admitted)
place msg (p ∷ ps) s = (hold msg (p ∷ ps) s, AdmitResult.held)

-- handleAdmit
unfoldable pub handle_admit : PropagationMsg → ℕ → Dispatcher → Dispatcher × AdmitResult
handle_admit msg offset s =
    if member msg.tx_id s.in_flight
    then (record s { tracker = mark_done offset (add offset s.tracker) }, AdmitResult.duplicate)
    else place msg (blocking s.in_flight msg) (record s {
      in_flight = insert msg.tx_id offset s.in_flight;
      tracker = add offset s.tracker;
    })

-- handleRequeue
unfoldable pub handle_requeue : PropagationMsg → Dispatcher → Dispatcher
handle_requeue msg s =
    if member msg.tx_id s.in_flight then (place msg (blocking s.in_flight msg) s).0 else s

-- cleanupWaiterEntries: the child leaves the sets of its other parents; an empty set goes.
unfoldable pub leave_set : String → String → Map String (List String) → Map String (List String)
leave_set child parent waiters = elim (lookup parent waiters) [
  | none ↦ waiters
  | some set ↦ elim (keep (λ c. not (c == child)) set) [
    | [] ↦ delete parent waiters
    | c ∷ cs ↦ insert parent (c ∷ cs) waiters
  ]
]

unfoldable pub leave_sets :
    String → String → List String → Map String (List String) → Map String (List String)
leave_sets child skip [] waiters = waiters
leave_sets child skip (p ∷ ps) waiters =
    let skipped = p == "" || p == child || p == skip in
    leave_sets child skip ps (if skipped then waiters else leave_set child p waiters)

unfoldable pub cleanup_waiter_entries : String → String → Dispatcher → Dispatcher
cleanup_waiter_entries child skip s = elim (lookup child s.held) [
  | none ↦ s
  | some msg ↦ record s { waiters = leave_sets child skip msg.input_tx_ids s.waiters }
]

-- canRelease
unfoldable pub can_release : String → Dispatcher → Option PropagationMsg
can_release child s = elim (lookup child s.held) [
  | none ↦ none
  | some msg ↦ elim (keep (is_blocking s.in_flight child) msg.input_tx_ids) [
    | [] ↦ some msg
    | _ ↦ none
  ]
]

-- releaseWaiters: its loop over the children, then the whole.
unfoldable pub release_child : String → String → Dispatcher → Dispatcher
release_child parent child s = elim (can_release child s) [
  | none ↦ s
  | some msg ↦
      let s' = cleanup_waiter_entries child parent s in
      enqueue msg (record s' { held = delete child s'.held })
]

unfoldable pub release_children : String → List String → Dispatcher → Dispatcher
release_children parent [] s = s
release_children parent (c ∷ cs) s = release_children parent cs (release_child parent c s)

unfoldable pub release_waiters : String → Dispatcher → Dispatcher
release_waiters parent s = elim (lookup parent s.waiters) [
  | none ↦ s
  | some children ↦
      release_children parent children (record s { waiters = delete parent s.waiters })
]

-- The transaction leaves the flight, its offset done.
unfoldable pub land : String → Dispatcher → Dispatcher
land tx s = elim (lookup tx s.in_flight) [
  | none ↦ s
  | some offset ↦ record s {
    in_flight = delete tx s.in_flight;
    tracker = mark_done offset s.tracker;
  }
]

pub record CascadedTx : Type 0 where
  pub tx_id : String
  pub raw_tx : List ℕ

unfoldable pub raw_of : Map String PropagationMsg → String → List ℕ
raw_of messages child = elim (lookup child messages) [ none ↦ [] | some msg ↦ msg.raw_tx ]

-- cascadeReject: one child, the children of one parent, and the walk, with a bound on its turns.
unfoldable pub cascade_child : String → String → Dispatcher → Dispatcher × CascadedTx
cascade_child parent child s =
    let s' = cleanup_waiter_entries child parent s in
    (
      land child (record s' { held = delete child s'.held }),
      record { tx_id = child; raw_tx = raw_of s'.held child },
    )

unfoldable pub cascade_children : String → List String → Dispatcher → Dispatcher × List CascadedTx
cascade_children parent [] s = (s, [])
cascade_children parent (c ∷ cs) s =
    let (s', row) = cascade_child parent c s in
    let (t, rows) = cascade_children parent cs s' in (t, row ∷ rows)

abbrev pub report :
    List CascadedTx → Option (Dispatcher × List CascadedTx) → Option (Dispatcher × List CascadedTx)
report rows none = none
report rows (some (s, more)) = some (s, rows ++ more)

unfoldable pub cascade_walk : ℕ → List String → Dispatcher → Option (Dispatcher × List CascadedTx)
cascade_walk zero queue s = none
cascade_walk (suc n) [] s = some (s, [])
cascade_walk (suc n) (parent ∷ queue) s = elim (lookup parent s.waiters) [
  | none ↦ cascade_walk n queue s
  | some children ↦
      let (s', rows) =
        cascade_children parent children (record s { waiters = delete parent s.waiters }) in
      report rows (cascade_walk n (queue ++ children) s')
]

-- The entries in the sets of waiters.
unfoldable pub entries : Map String (List String) → ℕ
entries [] = 0
entries ((p, set) ∷ waiters) = length set + entries waiters

unfoldable pub cascade_reject : String → Dispatcher → Option (Dispatcher × List CascadedTx)
cascade_reject tx s = cascade_walk (entries s.waiters + 2) (tx ∷ []) s

-- handleTerminal
unfoldable pub handle_terminal :
    String → Status → Dispatcher → Option (Dispatcher × List CascadedTx)
handle_terminal tx accepted_by_network s = some (release_waiters tx (land tx s), [])
handle_terminal tx rejected s = cascade_reject tx (land tx s)
handle_terminal tx pending_retry s = cascade_reject tx (land tx s)
handle_terminal tx _ s = some (s, [])

-- The drain request, and the flush tick that finds a free slot: the batch is handed over.
unfoldable pub drain : Dispatcher → Dispatcher × List PropagationMsg
drain s = (record s { pending = [] }, s.pending)
