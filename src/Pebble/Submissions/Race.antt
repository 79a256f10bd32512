-- ===== src/Pebble/Submissions/Race.antt =====
-- store/pebble/pebble.go: RecordDeliveryAttempt and UpdateDeliveryStatus on one submission, step by step:
-- the first takes submissionMu for its read and its write, the second does not.
use arcade.Prelude.{
  ℕ, ◌≡◌, refl, String, Bool, true, false, List, [], ◌∷◌, Option, none, some, arith, string_eq,
  if◌then◌else◌, Bool-cases, inl, inr,
}
use arcade.Prelude.Map.{lookup, lookup-insert_self}
use arcade.Models.Status.{Status}
use arcade.Pebble.Ops.{Io, Outcome, ok}
use arcade.Pebble.Reorg.{healthy}
use arcade.Pebble.Submissions.{
  Submission, Submissions, with_submission, write_submission, read_submission, write_back,
  delivery_row, update_delivery_status, attempt_row, record_delivery_attempt,
}

-- A call on a row is its read, and then its write of the row that was read.
read-write :
    (io : Io) (id : String) (f : Submission → Submission) (s : Submissions)
    (o : Option (Option Submission))
    → lookup id s.subs ≡ o
    → with_submission io o s tt (λ r. write_submission io id (f r) tt s)
      ≡ write_back io id f (read_submission io id s) s
unfolding with_submission read_submission write_back
read-write io id f s none e = rw e (ground arith)
read-write io id f s (some none) e = rw e (ground arith)
read-write io id f s (some (some r)) e = rw e (elim (Bool-cases io.cancelled) [
  | inl b ↦ rw b refl
  | inr b ↦ elim (Bool-cases io.read_fails) [ inl c ↦ rw (b, c) refl | inr c ↦ rw (b, c) refl ]
])

pub update_delivery_status-write_back :
    (io : Io) (id : String) (last : Status) (count next : ℕ) (s : Submissions)
    → update_delivery_status io id last count next s
      ≡ write_back io id (delivery_row last count next) (read_submission io id s) s
unfolding update_delivery_status
update_delivery_status-write_back io id last count next s =
    read-write io id (delivery_row last count next) s (lookup id s.subs) refl

record_delivery_attempt-write_back :
    (io : Io) (id : String) (at : ℕ) (result : String) (s : Submissions)
    → record_delivery_attempt io id at result s
      ≡ write_back io id (attempt_row at result) (read_submission io id s) s
unfolding record_delivery_attempt
record_delivery_attempt-write_back io id at result s =
    read-write io id (attempt_row at result) s (lookup id s.subs) refl

pub data Action : Type 0 where
  locks reads writes unlocks : Action

-- The actions of the calls, in their order.
unfoldable pub update_delivery_status_actions : List Action
update_delivery_status_actions = reads ∷ writes ∷ []

unfoldable pub record_delivery_attempt_actions : List Action
record_delivery_attempt_actions = locks ∷ reads ∷ writes ∷ unlocks ∷ []

-- A call that runs: what it makes of the row, the actions that are left, and the row as it read it.
pub record Running : Type 0 where
  pub change : Submission → Submission
  pub left : List Action
  pub found : Outcome (Option Submission)

-- The store, and whether the mutex is held.
abbrev pub Shared : Type 0
Shared = Submissions × Bool

-- The next action of a call; one that takes a held mutex waits.
unfoldable pub take_action : String → List Action → Running → Shared → Shared × Running
take_action id [] c w = (w, c)
take_action id (locks ∷ rest) c (s, held) =
    if held then ((s, held), c) else ((s, true), record c { left = rest })
take_action id (reads ∷ rest) c (s, held) =
    ((s, held), record c { left = rest; found = read_submission healthy id s })
take_action id (writes ∷ rest) c (s, held) =
    (((write_back healthy id c.change c.found s).0, held), record c { left = rest })
take_action id (unlocks ∷ rest) c (s, held) = ((s, false), record c { left = rest })

-- Whose turn it is.
pub data Caller : Type 0 where
  updater recorder : Caller

unfoldable pub take_turns :
    String → List Caller → Shared → Running → Running → Shared × (Running × Running)
take_turns id [] w u a = (w, (u, a))
take_turns id (updater ∷ turns) w u a =
    let (w', u') = take_action id u.left u w in take_turns id turns w' u' a
take_turns id (recorder ∷ turns) w u a =
    let (w', a') = take_action id a.left a w in take_turns id turns w' u a'

-- The two calls, before their first action.
abbrev pub updating : Status → ℕ → ℕ → Running
updating last count next = record {
  change = delivery_row last count next;
  left = update_delivery_status_actions;
  found = ok none;
}

abbrev pub recording : ℕ → String → Running
recording at result = record {
  change = attempt_row at result;
  left = record_delivery_attempt_actions;
  found = ok none;
}

-- There is an order of the actions in which both calls end, and the row counts as many attempts as before.
abbrev pub UndoesCount : String → Submission → Running → Running → Submissions → Type 0
UndoesCount id r u a s =
    (turns : List Caller) × ((take_turns id turns (s, false) u a).1.0.left ≡ [])
    × ((take_turns id turns (s, false) u a).1.1.left ≡ [])
    × (r' : Submission) × (lookup id (take_turns id turns (s, false) u a).0.0.subs ≡ some (some r'))
    × (r'.attempts ≡ r.attempts)

found-read :
    (id : String) (s : Submissions) (r : Submission)
    → lookup id s.subs ≡ some (some r)
    → read_submission healthy id s ≡ ok (some r)
unfolding read_submission
found-read id s r l = rw l refl

-- Where nothing fails, of a submission that is there, an update of its delivery status and a record of an
-- attempt can interleave so that both end and the row counts as many attempts as before: the update takes
-- no mutex, and writes the row as it read it before the attempt was counted.
pub retry_write_loses_attempt :
    (id : String) (last : Status) (count at next : ℕ) (result : String) (s : Submissions)
    (r : Submission)
    → lookup id s.subs ≡ some (some r)
    → UndoesCount id r (updating last count next) (recording at result) s
unfolding take_turns take_action update_delivery_status_actions record_delivery_attempt_actions
    write_back write_submission delivery_row
retry_write_loses_attempt id last count at next result s r l = (
  updater ∷ recorder ∷ recorder ∷ recorder ∷ recorder ∷ updater ∷ [],
  refl,
  refl,
  delivery_row last count next r,
  rw (found-read id s r l) (lookup-insert_self id (some (delivery_row last count next r)) _),
  refl,
)
