-- ===== src/Webhook/Interleaved.antt =====
-- services/webhook/service.go: replicas that deliver one update to one submission at the same time. A call of
-- deliver is cut where another replica's store calls can come in between: the claim, which holds a mutex
-- from its read to its write, is one step; so are the POST, the record of the attempt, and the read and the
-- write of the retry state, which holds no mutex.
use arcade.Prelude.{
  ℕ, zero, suc, ◌+◌, ◌≤◌, ◌≡◌, ◌≢◌, ◌⊎◌, refl, sym, subst, inl, inr, Bool, true, false, ◌||◌, List,
  [], ◌∷◌, map, Option, none, some, arith, nat_eq, string_eq, if◌then◌else◌, ltb, leb, length,
  Bool-cases, All,
}
use arcade.Models.Status.{Status, status_eq}
use arcade.Pebble.Ops.{Outcome, ok, err}
use arcade.Pebble.Submissions.{
  Submission, Submissions, read_submission, write_back, delivery_row, update_delivery_status_cas,
}
use arcade.Webhook.{
  Config, Update, Post, Reply, transport_error, answered, Turn, World, or_default, compute_backoff,
  record_attempt,
}
use arcade.Webhook.Claimed.{
  IsClaimed, Claims, cas-Claims, lost, written-IsClaimed, attempt-IsClaimed,
}
pub mod Once

-- What a replica does next.
pub data Stage : Type 0 where
  claiming : Stage
  posting : Stage
  noting : Reply → Stage
  reading : Stage
  storing : Outcome (Option Submission) → Stage
  ended : Stage

abbrev pub Replica : Type 0
Replica = Turn × Stage

unfoldable pub after_claim : Turn → Outcome Bool → Stage
after_claim t (ok true) = if t.encodes then posting else ended
after_claim t (ok false) = ended
after_claim t (err e) = ended

-- The retry state that recordFailure writes.
unfoldable pub failure_row : Config → Turn → Submission → Status → Submission → Submission
failure_row cfg t sub status =
    let next_count = sub.retry_count + 1 in
    delivery_row status next_count (
      if leb (or_default 10 cfg.max_retries) next_count
      then 0
      else t.failed_at + compute_backoff cfg next_count)

unfoldable pub note : Turn → Submission → Reply → World → World × Stage
note t sub (transport_error reason) (s, posts) = ((record_attempt t sub reason s, posts), reading)
note t sub (answered code reason) (s, posts) =
    if ltb code 200 || leb 300 code
    then ((record_attempt t sub reason s, posts), reading)
    else ((record_attempt t sub "delivered" s, posts), ended)

module _ (cfg : Config) (sub : Submission) (update : Update) where
  unfoldable pub act : Turn → Stage → World → World × Stage
  act t claiming (s, posts) =
      let (s', c) =
        update_delivery_status_cas t.claim_io sub.submission_id sub.last_delivered_status
          update.status s in
      ((s', posts), after_claim t c)
  act t posting (s, posts) =
      let post : Post = record {
        callback_url = sub.callback_url;
        callback_token = sub.callback_token;
        tx_id = update.tx_id;
        status = update.status;
      } in
      ((s, post ∷ posts), noting t.reply)
  act t (noting reply) w = note t sub reply w
  act t reading (s, posts) =
      ((s, posts), storing (read_submission t.failure_io sub.submission_id s))
  act t (storing found) (s, posts) = (
    (
      (write_back t.failure_io sub.submission_id (failure_row cfg t sub update.status) found s).0,
      posts,
    ),
    ended,
  )
  act t ended w = (w, ended)

  -- The replica at a position takes its next step.
  unfoldable pub act_at : ℕ → List Replica → World → World × List Replica
  act_at i [] w = (w, [])
  act_at zero ((t, stage) ∷ rest) w = let (w', stage') = act t stage w in (w', (t, stage') ∷ rest)
  act_at (suc i) (r ∷ rest) w = let (w', rest') = act_at i rest w in (w', r ∷ rest')

  -- The positions whose turn it is, one after the other.
  unfoldable pub interleave : List ℕ → List Replica → World → World
  interleave [] rs w = w
  interleave (i ∷ order) rs w = let (w', rs') = act_at i rs w in interleave order rs' w'
