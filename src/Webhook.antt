-- ===== src/Webhook.antt =====
-- services/webhook: the delivery of status updates to the callback URLs of a transaction's submissions. The
-- store is Pebble's; what its calls, the encoding and the POST meet is the `Turn` of a delivery. A
-- duration is its nanoseconds, 0 where it is not positive. The text of a reason comes with the reply. The body of a POST
-- is left out but for the status, and so is the merkle path that an update may carry.
use arcade.Prelude.{
  ℕ, zero, suc, ◌+◌, ◌-◌, ◌*◌, String, Bool, true, false, not, ◌&&◌, ◌||◌, List, [], ◌∷◌, Option,
  none, some, ◌==◌, nat_eq, string_eq, if◌then◌else◌, ltb, leb,
}
use arcade.Models.Status.{Status, status_eq, mined, rejected, immutable, double_spend_attempted}
use arcade.Pebble.Ops.{Io, Outcome, ok, err}
use arcade.Pebble.Submissions.{
  Submission, Submissions, update_delivery_status_cas, update_delivery_status,
  record_delivery_attempt, get_submissions_by_txid,
}
pub mod Backoff
pub mod Claimed
pub mod Claims
pub mod Retried
pub mod Interleaved
pub mod Alone

pub record Config : Type 0 where
  pub max_retries : ℕ
  pub initial_backoff : ℕ
  pub max_backoff : ℕ

pub record Update : Type 0 where
  pub tx_id : String
  pub status : Status
  pub extra_info : String

pub record Post : Type 0 where
  pub callback_url : String
  pub callback_token : String
  pub tx_id : String
  pub status : Status

pub data Reply : Type 0 where
  transport_error : String → Reply
  answered : ℕ → String → Reply

pub record Turn : Type 0 where
  pub claim_io : Io
  pub attempt_io : Io
  pub failure_io : Io
  pub encodes : Bool
  pub reply : Reply
  pub attempted_at : ℕ
  pub failed_at : ℕ

-- The store, and the POSTs made, the newest first.
abbrev pub World : Type 0
World = Submissions × List Post

-- Whether an update goes to a submission.
unfoldable pub should_deliver : Submission → Update → Bool
should_deliver sub update =
    if sub.last_delivered_status == update.status
    then update.status == mined && update.extra_info == "reorg_reanchor"
    else sub.full_status_updates
      || update.status == mined
      || update.status == rejected
      || update.status == immutable
      || update.status == double_spend_attempted

-- The loop of the backoff: `left` doublings remain.
unfoldable pub double : ℕ → ℕ → ℕ → ℕ
double zero most d = if ltb most d then most else d
double (suc left) most d =
    let rest = double left most (d * 2) in if leb most (d * 2) then most else rest

abbrev pub or_default : ℕ → ℕ → ℕ
or_default fallback n = if n == 0 then fallback else n

unfoldable pub compute_backoff : Config → ℕ → ℕ
compute_backoff cfg retry_count =
    double (retry_count - 1) (or_default 300000000000 cfg.max_backoff)
      (or_default 5000000000 cfg.initial_backoff)

-- The retry state after a failed POST: `record_failure`.
unfoldable pub record_failure : Config → Io → ℕ → Submission → Status → Submissions → Submissions
record_failure cfg io now sub status s =
    let next_count = sub.retry_count + 1 in
    if leb (or_default 10 cfg.max_retries) next_count
    then (update_delivery_status io sub.submission_id status next_count 0 s).0
    else (update_delivery_status io sub.submission_id status next_count
        (now + compute_backoff cfg next_count) s).0

unfoldable pub record_attempt : Turn → Submission → String → Submissions → Submissions
record_attempt t sub result s =
    (record_delivery_attempt t.attempt_io sub.submission_id t.attempted_at result s).0

unfoldable pub fail : Config → Turn → Submission → Status → String → Submissions → Submissions
fail cfg t sub status reason s =
    record_failure cfg t.failure_io t.failed_at sub status (record_attempt t sub reason s)

unfoldable pub record_reply :
    Config → Turn → Submission → Status → Reply → Submissions → Submissions
record_reply cfg t sub status (transport_error reason) s = fail cfg t sub status reason s
record_reply cfg t sub status (answered code reason) s =
    if ltb code 200 || leb 300 code
    then fail cfg t sub status reason s
    else record_attempt t sub "delivered" s

unfoldable pub post_claimed : Config → Turn → Submission → Update → Outcome Bool → World → World
post_claimed cfg t sub update (err e) w = w
post_claimed cfg t sub update (ok false) w = w
post_claimed cfg t sub update (ok true) (s, posts) =
    if t.encodes
    then (
      record_reply cfg t sub update.status t.reply s,
      record {
        callback_url = sub.callback_url;
        callback_token = sub.callback_token;
        tx_id = update.tx_id;
        status = update.status;
      }
          ∷ posts,
    )
    else (s, posts)

-- A delivery POSTs only with the claim of the transition.
unfoldable pub deliver : Config → Turn → Submission → Update → World → World
deliver cfg t sub update (s, posts) =
    let (s', claimed) =
      update_delivery_status_cas t.claim_io sub.submission_id sub.last_delivered_status
        update.status s in
    post_claimed cfg t sub update claimed (s', posts)

module _ (cfg : Config) (turns : String → Turn) where
  -- The loop over the submissions: `turns` gives a submission's turn.
  unfoldable pub deliver_all : Update → List Submission → World → World
  deliver_all update [] w = w
  deliver_all update (sub ∷ subs) w = deliver_all update subs (
      if sub.callback_url == "" || not (should_deliver sub update)
      then w
      else deliver cfg (turns sub.submission_id) sub update w)

  -- `dispatchOne`; a lookup that fails delivers nothing.
  unfoldable pub dispatch_one : Bool → Update → World → World
  dispatch_one lookup_fails update (s, posts) =
      if lookup_fails then (s, posts) else elim (get_submissions_by_txid update.tx_id s) [
        | none ↦ (s, posts)
        | some subs ↦ deliver_all update subs (s, posts)
      ]

  -- `reapOnce`: the submissions that are due again get the status of their last claim.
  unfoldable pub reap_all : List Submission → World → World
  reap_all [] w = w
  reap_all (sub ∷ subs) w = reap_all subs (
      if sub.callback_url == ""
      then w
      else deliver cfg (turns sub.submission_id) sub
          (record { tx_id = sub.tx_id; status = sub.last_delivered_status; extra_info = "" }) w)
