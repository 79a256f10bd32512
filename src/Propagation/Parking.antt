-- ===== src/Propagation/Parking.antt =====
-- services/propagation/propagator.go: the retry budgets, and the durable retry of a transaction that
-- is parked. Durations are nanoseconds without a bound, 0 where they are not positive.
use arcade.Prelude.{
  ℕ, zero, suc, ◌+◌, ◌-◌, ◌*◌, ◌/◌, ◌%◌, String, Bool, ◌||◌, List, [], ◌∷◌, Option, none, some,
  if◌then◌else◌, ltb, leb, leb, ◌==◌, string_eq, nat_eq,
}
use arcade.Models.Status.{Status, rejected}
use arcade.Models.Transaction.{TransactionStatus}
use arcade.Pebble.Ops.{
  Store, Io, Outcome, ok, err, bump_retry_count, set_pending_retry_fields, clear_retry_state,
}
pub mod Budget
pub mod Delay

-- The fields of propagationMsg that the retry budgets read.
pub record RetryMsg : Type 0 where
  pub tx_id : String
  pub raw_tx : List ℕ
  pub retry_count : ℕ
  pub merkle_retry_count : ℕ

-- A message in front of the retries or of the exhausted ones.
abbrev Divided : Type 0
Divided = List RetryMsg × List RetryMsg

unfoldable pub charge_one : Bool → RetryMsg → Divided → Divided
charge_one over m (retry, exhausted) =
    if over then (retry, m ∷ exhausted) else (m ∷ retry, exhausted)

unfoldable pub charge_retry_budget : ℕ → List RetryMsg → Divided
charge_retry_budget max_attempts [] = ([], [])
charge_retry_budget max_attempts (m ∷ msgs) =
    charge_one (ltb max_attempts (m.retry_count + 1)) (record m { retry_count = m.retry_count + 1 })
      (charge_retry_budget max_attempts msgs)

unfoldable pub charge_merkle_retry_budget : ℕ → List RetryMsg → Divided
charge_merkle_retry_budget max_attempts [] = ([], [])
charge_merkle_retry_budget max_attempts (m ∷ msgs) =
    charge_one (ltb max_attempts (m.merkle_retry_count + 1))
      (record m { merkle_retry_count = m.merkle_retry_count + 1 })
      (charge_merkle_retry_budget max_attempts msgs)

pub record PendingRetry : Type 0 where
  pub backoff : ℕ
  pub max_backoff : ℕ
  pub max_attempts : ℕ

abbrev pub default_pending_retry_backoff : ℕ
default_pending_retry_backoff = 5000000000

-- The doublings that are left of the loop.
unfoldable pub doubled : ℕ → ℕ → ℕ → ℕ
doubled zero most delay = delay
doubled (suc left) most delay =
    let rest = doubled left most (delay * 2) in if ltb delay most then rest else delay

-- The delay before the jitter.
unfoldable pub unjittered : PendingRetry → ℕ → ℕ
unjittered cfg retry_count =
    let base = if cfg.backoff == 0 then default_pending_retry_backoff else cfg.backoff in
    let most = if ltb cfg.max_backoff base then base else cfg.max_backoff in
    let delay = doubled (retry_count - 1) most base in if ltb most delay then most else delay

-- The jitter of two random bytes, or none where they cannot be read: the sixteen-bit number `n` that they
-- make moves the delay by n / 65535 * 0.4 - 0.2 of it, cut to whole nanoseconds toward zero. The
-- floating-point product is exact here.
unfoldable pub jittered : Option (ℕ × ℕ) → ℕ → ℕ
jittered none delay = delay
jittered (some (high, low)) delay =
    let n = (high * 256 + low) % 65536 in
    if leb 65535 (2 * n)
    then delay + delay * (2 * n - 65535) / 327675
    else delay - delay * (65535 - 2 * n) / 327675

unfoldable pub next_pending_retry_delay : PendingRetry → Option (ℕ × ℕ) → ℕ → ℕ
next_pending_retry_delay cfg random retry_count =
    let delay = jittered random (unjittered cfg retry_count) in
    if ltb delay 1000000 then 1000000 else delay

-- The standard library's strings.Contains, and the three formats that fmt.Sprintf fills.
pub record Text : Type 0 where
  pub has_text : String → String → Bool
  pub no_peer_answered : ℕ → String
  pub parent_unknown : ℕ → String → String
  pub last_response : ℕ → String → String

unfoldable pub line_is_missing_parent_condition : Text → String → Bool
line_is_missing_parent_condition text line =
    text.has_text line "TX_MISSING_PARENT (" || text.has_text line "TX_NOT_FOUND ("

unfoldable pub give_up_reason : Text → ℕ → String → String
give_up_reason text max_attempts last_reason =
    if last_reason == ""
    then text.no_peer_answered max_attempts
    else (if line_is_missing_parent_condition text last_reason
        then text.parent_unknown max_attempts last_reason
        else text.last_response max_attempts last_reason)

-- What one call meets: the database in its two store calls, the clock and the random bytes.
pub record Turn : Type 0 where
  pub bump : Io
  pub write : Io
  pub now : ℕ
  pub written : ℕ
  pub random : Option (ℕ × ℕ)

-- The status that is published for a transaction that is given up; all other fields are zero.
unfoldable pub given_up : String → String → TransactionStatus
given_up txid reason = record {
  tx_id = txid;
  status = rejected;
  status_code = 0;
  timestamp = 0;
  tx_ids = [];
  block_hash = "";
  block_height = 0;
  merkle_path = [];
  extra_info = reason;
  competing_txs = [];
  raw_tx = [];
  retry_count = 0;
  next_retry_at = 0;
  created_at = 0;
  orphaned_proofs = [];
  merkle_registered_at = 0;
}

-- The statuses that go to publishRejections.
unfoldable pub announce :
    String → String → Store × Outcome (Unit {0}) → Store × List TransactionStatus
announce txid reason (s, ok u) = (s, given_up txid reason ∷ [])
announce txid reason (s, err e) = (s, [])

-- What follows the count.
unfoldable pub after_bump :
    Text
    → PendingRetry
    → Turn
    → String
    → List ℕ
    → String
    → Store × Outcome ℕ
    → Store × List TransactionStatus
after_bump text cfg turn txid raw_tx last_reason (s, err e) = (s, [])
after_bump text cfg turn txid raw_tx last_reason (s, ok count) =
    let reason = give_up_reason text cfg.max_attempts last_reason in
    let next = turn.now + next_pending_retry_delay cfg turn.random count in
    if ltb cfg.max_attempts count
    then announce txid reason (clear_retry_state turn.write turn.written txid rejected reason s)
    else ((set_pending_retry_fields turn.write turn.written txid raw_tx next last_reason s).0, [])

unfoldable pub schedule_pending_retry :
    Text → PendingRetry → Turn → String → List ℕ → String → Store → Store × List TransactionStatus
schedule_pending_retry text cfg turn txid [] last_reason s = (s, [])
schedule_pending_retry text cfg turn txid (b ∷ bytes) last_reason s =
    after_bump text cfg turn txid (b ∷ bytes) last_reason (bump_retry_count turn.bump txid s)
