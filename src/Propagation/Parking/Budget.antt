-- ===== src/Propagation/Parking/Budget.antt =====
-- services/propagation/propagator.go: the durable retries of a parked transaction come to an end.
use arcade.Prelude.{
  ℕ, ◌+◌, ◌<◌, ◌≡◌, refl, String, inl, inr, List, [], ◌∷◌, some, arith, ltb, lt→ltb, Bool-cases,
  length, All, nat_eq, string_eq, if◌then◌else◌,
}
use arcade.Prelude.Map.{lookup, insert, lookup-insert_self}
use arcade.Models.Status.{Status, rejected, pending_retry, can_transition_from}
use arcade.Pebble.Row.{StoredStatus}
use arcade.Pebble.Ops.{
  Store, Io, with_row, commit, write_row, bump_retry_count, set_pending_retry_fields,
  clear_retry_state, pending_row, cleared_row, Outcome, ok, err,
}
use arcade.Pebble.Guard.{HasRow}
use arcade.Pebble.Reorg.{healthy}
use arcade.Propagation.Parking.{
  PendingRetry, next_pending_retry_delay, Text, Turn, announce, after_bump, give_up_reason,
  schedule_pending_retry,
}

-- One parking of a transaction: what the call meets, the raw transaction, and the reason.
pub record Parking : Type 0 where
  pub turn : Turn
  pub first_byte : ℕ
  pub bytes : List ℕ
  pub reason : String

-- The database does what it is asked.
abbrev pub IsServed : Parking → Type 0
IsServed p = (p.turn.bump ≡ healthy) × (p.turn.write ≡ healthy)

abbrev pub park : Text → PendingRetry → String → Parking → Store → Store
park text cfg txid p s =
    (schedule_pending_retry text cfg p.turn txid (p.first_byte ∷ p.bytes) p.reason s).0

abbrev pub park_all : Text → PendingRetry → String → List Parking → Store → Store
park_all text cfg txid [] s = s
park_all text cfg txid (p ∷ ps) s = park_all text cfg txid ps (park text cfg txid p s)

-- A row that a parking leaves: one more retry counted, and rejected where that exceeds the budget.
abbrev Charges : PendingRetry → ℕ → StoredStatus → Type 0
Charges cfg n r = (r.retry_count ≡ n) × (cfg.max_attempts < n → r.status ≡ rejected)

bump-found :
    (io : Io) (txid : String) (s : Store) (e : StoredStatus)
    → io ≡ healthy
    → lookup txid s.rows ≡ some e
    → let e' = record e { retry_count = e.retry_count + 1 } in
      bump_retry_count io txid s
      ≡ (record s { rows = insert txid e' s.rows }, ok (e.retry_count + 1))
unfolding bump_retry_count with_row commit
bump-found io txid s e h found = rw (h, found, h) refl

clear-found :
    (io : Io) (now : ℕ) (txid reason : String) (final : Status) (s : Store) (e : StoredStatus)
    → io ≡ healthy
    → lookup txid s.rows ≡ some e
    → lookup txid (clear_retry_state io now txid final reason s).0.rows
      ≡ some (cleared_row now final reason e)
unfolding clear_retry_state with_row commit write_row
clear-found io now txid reason final s e h found =
    rw (h, found, h) (lookup-insert_self txid (cleared_row now final reason e) s.rows)

-- The row that SetPendingRetryFields leaves, where the lattice lets it write.
abbrev pub booked : ℕ → List ℕ → ℕ → String → StoredStatus → StoredStatus
booked now raw_tx next reason e =
    if can_transition_from pending_retry e.status then pending_row now raw_tx next reason e else e

book-found :
    (io : Io) (now next : ℕ) (txid reason : String) (raw_tx : List ℕ) (s : Store) (e : StoredStatus)
    → io ≡ healthy
    → lookup txid s.rows ≡ some e
    → lookup txid (set_pending_retry_fields io now txid raw_tx next reason s).0.rows
      ≡ some (booked now raw_tx next reason e)
unfolding set_pending_retry_fields with_row commit write_row
book-found io now next txid reason raw_tx s e h found =
    elim (Bool-cases (can_transition_from pending_retry e.status)) [
      | inl b ↦
          rw (h, found, b, h)
            (lookup-insert_self txid (pending_row now raw_tx next reason e) s.rows)
      | inr b ↦ rw (h, found, b) found
    ]

announce-store :
    (txid reason : String) (r : Store × Outcome (Unit {0})) → (announce txid reason r).0 ≡ r.0
unfolding announce
announce-store txid reason (s, ok u) = refl
announce-store txid reason (s, err e) = refl

-- What the store holds for a transaction after it is parked: its count is one higher, and the row is
-- rejected where that is over the budget, and else booked for the next attempt.
abbrev settled : Text → PendingRetry → Parking → ℕ → StoredStatus → StoredStatus
settled text cfg p count e =
    if ltb cfg.max_attempts count
    then cleared_row p.turn.written rejected (give_up_reason text cfg.max_attempts p.reason) e
    else booked p.turn.written (p.first_byte ∷ p.bytes)
        (p.turn.now + next_pending_retry_delay cfg p.turn.random count) p.reason e

abbrev parked : Text → PendingRetry → Parking → StoredStatus → StoredStatus
parked text cfg p e =
    settled text cfg p (e.retry_count + 1) (record e { retry_count = e.retry_count + 1 })

after-found :
    (text : Text) (cfg : PendingRetry) (p : Parking) (txid : String) (s : Store) (e : StoredStatus)
    (count : ℕ)
    → p.turn.write ≡ healthy
    → lookup txid s.rows ≡ some e
    → lookup txid
        (after_bump text cfg p.turn txid (p.first_byte ∷ p.bytes) p.reason (s, ok count)).0.rows
      ≡ some (settled text cfg p count e)
unfolding after_bump
after-found text cfg p txid s e count k found = elim (Bool-cases (ltb cfg.max_attempts count)) [
  | inl b ↦
      rw (b, announce-store txid (give_up_reason text cfg.max_attempts p.reason) _)
        (clear-found p.turn.write p.turn.written txid _ rejected s e k found)
  | inr b ↦ rw b (book-found p.turn.write p.turn.written _ txid p.reason _ s e k found)
]

pub park-found :
    (text : Text) (cfg : PendingRetry) (txid : String) (p : Parking) (s : Store) (e : StoredStatus)
    → IsServed p
    → lookup txid s.rows ≡ some e
    → lookup txid (park text cfg txid p s).rows ≡ some (parked text cfg p e)
unfolding schedule_pending_retry
park-found text cfg txid p s e (h, k) found =
    rw (park, bump-found p.turn.bump txid s e h found)
      (after-found text cfg p txid _ (record e { retry_count = e.retry_count + 1 })
        (e.retry_count + 1) k (lookup-insert_self txid _ s.rows))

abbrev Rejects : PendingRetry → StoredStatus → Type 0
Rejects cfg r = cfg.max_attempts < r.retry_count → r.status ≡ rejected

settled-count :
    (text : Text) (cfg : PendingRetry) (p : Parking) (count : ℕ) (e : StoredStatus)
    → (settled text cfg p count e).retry_count ≡ e.retry_count
unfolding cleared_row pending_row
settled-count text cfg p count e = elim (Bool-cases (ltb cfg.max_attempts count)) [
  | inl b ↦ rw b refl
  | inr b ↦ rw b (elim (Bool-cases (can_transition_from pending_retry e.status)) [
    | inl c ↦ rw c refl
    | inr c ↦ rw c refl
  ])
]

parked-status :
    (text : Text) (cfg : PendingRetry) (p : Parking) (e : StoredStatus)
    → cfg.max_attempts < e.retry_count + 1
    → (parked text cfg p e).status ≡ rejected
unfolding cleared_row
parked-status text cfg p e h = rw (lt→ltb cfg.max_attempts (e.retry_count + 1) h) refl

gives_up_from :
    (text : Text) (cfg : PendingRetry) (txid : String) (ps : List Parking) (s : Store)
    (e : StoredStatus)
    → All IsServed ps
    → lookup txid s.rows ≡ some e
    → (cfg.max_attempts < e.retry_count → e.status ≡ rejected)
    → cfg.max_attempts < e.retry_count + length ps
    → HasRow (λ r. r.status ≡ rejected) txid (park_all text cfg txid ps s)
gives_up_from text cfg txid [] s e a found done over = (e, found, done (omega arith))
gives_up_from text cfg txid (p ∷ ps) s e (a, rest) found done over =
    let n =
      settled-count text cfg p (e.retry_count + 1) (record e { retry_count = e.retry_count + 1 }) in
    gives_up_from text cfg txid ps (park text cfg txid p s) (parked text cfg p e) rest
      (park-found text cfg txid p s e a found) (λ h. parked-status text cfg p e (omega (arith, n)))
      (omega (arith, n))

-- A transaction that has a row, in whatever status, is REJECTED after it has been parked once more
-- and so often that its count of durable retries exceeds the budget, where the database works and
-- nothing else writes the row.
pub gives_up :
    (text : Text) (cfg : PendingRetry) (txid : String) (p : Parking) (ps : List Parking) (s : Store)
    (e : StoredStatus)
    → All IsServed (p ∷ ps)
    → lookup txid s.rows ≡ some e
    → cfg.max_attempts < e.retry_count + length (p ∷ ps)
    → HasRow (λ r. r.status ≡ rejected) txid (park_all text cfg txid (p ∷ ps) s)
gives_up text cfg txid p ps s e (a, rest) found over =
    let n =
      settled-count text cfg p (e.retry_count + 1) (record e { retry_count = e.retry_count + 1 }) in
    gives_up_from text cfg txid ps (park text cfg txid p s) (parked text cfg p e) rest
      (park-found text cfg txid p s e a found) (λ h. parked-status text cfg p e (omega (arith, n)))
      (omega (arith, n))
