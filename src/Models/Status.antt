-- ===== src/Models/Status.antt =====
-- models/transaction.go: `Status`, a Go string with twelve constants, its classification and the
-- transition guard. `other s` is any string that is none of the constants; `other ""` is the empty
-- status of a row that does not exist.
use arcade.Prelude.{
  ℕ, String, ◌≡◌, ◌↔◌, Bool, true, not, ◌||◌, List, [], ◌∷◌, arith, IsEq, ◌==◌, contains, eqb,
  string_eq, if◌then◌else◌, ap,
}

pub data Status : Type 0 where
  unknown received sent_to_network accepted_by_network seen_on_network seen_multiple_nodes : Status
  double_spend_attempted rejected pending_retry stump_processing mined immutable : Status
  other : String → Status

abbrev pub rank : Status → ℕ
rank unknown = 0
rank received = 1
rank sent_to_network = 2
rank accepted_by_network = 3
rank seen_on_network = 4
rank seen_multiple_nodes = 5
rank double_spend_attempted = 6
rank rejected = 7
rank pending_retry = 8
rank stump_processing = 9
rank mined = 10
rank immutable = 11
rank (other s) = 12

-- Go's `==` on the strings.
abbrev pub status_beq : Status → Status → Bool
status_beq (other s) (other t) = s == t
status_beq s t = eqb (rank s) (rank t)

pub status_beq_iff : (s t : Status) → (status_beq s t ≡ true) ↔ (s ≡ t)
status_beq_iff (other s) (other t) =
    (λ h. ap other ((string_eq.beq_iff s t).0 h), λ h. (string_eq.beq_iff s t).1 (ground arith))
status_beq_iff _ _ = ground arith

instance abbrev pub status_eq : IsEq Status
status_eq = record { beq = status_beq; beq_iff = status_beq_iff }

-- AllStatuses
abbrev pub all_statuses : List Status
all_statuses =
    unknown ∷ received ∷ sent_to_network ∷ accepted_by_network ∷ seen_on_network
    ∷ seen_multiple_nodes ∷ double_spend_attempted ∷ rejected ∷ pending_retry ∷ stump_processing
    ∷ mined ∷ immutable ∷ []

-- The keys of `terminalStatuses`.
abbrev pub terminal_statuses : List Status
terminal_statuses = rejected ∷ double_spend_attempted ∷ mined ∷ immutable ∷ []

unfoldable pub is_terminal : Status → Bool
is_terminal s = contains terminal_statuses s

abbrev pub non_terminal_statuses : List Status
non_terminal_statuses =
    received ∷ sent_to_network ∷ accepted_by_network ∷ seen_on_network ∷ seen_multiple_nodes
    ∷ pending_retry ∷ stump_processing ∷ []

unfoldable pub disallowed_previous_statuses : Status → List Status
disallowed_previous_statuses unknown =
    sent_to_network ∷ accepted_by_network ∷ seen_on_network ∷ seen_multiple_nodes ∷ pending_retry
    ∷ stump_processing ∷ rejected ∷ double_spend_attempted ∷ mined ∷ immutable ∷ []
disallowed_previous_statuses received =
    sent_to_network ∷ accepted_by_network ∷ seen_on_network ∷ seen_multiple_nodes ∷ pending_retry
    ∷ stump_processing ∷ rejected ∷ double_spend_attempted ∷ mined ∷ immutable ∷ []
disallowed_previous_statuses sent_to_network =
    sent_to_network ∷ accepted_by_network ∷ seen_on_network ∷ seen_multiple_nodes ∷ rejected
    ∷ double_spend_attempted ∷ mined ∷ immutable ∷ []
disallowed_previous_statuses accepted_by_network =
    accepted_by_network ∷ seen_on_network ∷ seen_multiple_nodes ∷ double_spend_attempted ∷ mined
    ∷ immutable ∷ []
disallowed_previous_statuses seen_on_network =
    seen_on_network ∷ seen_multiple_nodes ∷ pending_retry ∷ double_spend_attempted ∷ mined
    ∷ immutable ∷ []
disallowed_previous_statuses seen_multiple_nodes =
    seen_multiple_nodes ∷ pending_retry ∷ double_spend_attempted ∷ mined ∷ immutable ∷ []
disallowed_previous_statuses pending_retry =
    seen_on_network ∷ seen_multiple_nodes ∷ rejected ∷ double_spend_attempted ∷ mined ∷ immutable
    ∷ []
disallowed_previous_statuses stump_processing =
    rejected ∷ double_spend_attempted ∷ mined ∷ immutable ∷ []
disallowed_previous_statuses rejected =
    seen_on_network ∷ seen_multiple_nodes ∷ mined ∷ immutable ∷ []
disallowed_previous_statuses double_spend_attempted = mined ∷ immutable ∷ []
disallowed_previous_statuses mined = immutable ∷ []
disallowed_previous_statuses immutable = []
disallowed_previous_statuses (other s) = []

-- `CanTransitionFrom`, with the receiver `s` first: may a row in `prev` be moved to `s`?
unfoldable pub can_transition_from : Status → Status → Bool
unfolding disallowed_previous_statuses
can_transition_from s prev =
    if prev == other "" || prev == s
    then true
    else not (contains (disallowed_previous_statuses s) prev)
