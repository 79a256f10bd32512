-- ===== src/Webhook/Retried.antt =====
-- services/webhook: a delivery that fails is due again after its backoff, until the retries are used up.
use arcade.Prelude.{
  ℕ, ◌+◌, ◌-◌, ◌<◌, ◌≡◌, refl, sym, subst, inl, inr, String, Bool, true, false, ◌||◌, List, Option,
  none, some, arith, nat_eq, string_eq, if◌then◌else◌, ltb, leb, Bool-cases, beq_refl,
}
use arcade.Prelude.Map.{lookup, insert, lookup-insert_self}
use arcade.Models.Status.{Status, status_eq}
use arcade.Pebble.Ops.{Outcome, ok}
use arcade.Pebble.Reorg.{healthy}
use arcade.Pebble.Submissions.{
  Submission, Submissions, with_submission, write_submission, delivery_row, attempt_row,
  claimed_row, claim_found, update_delivery_status_cas, update_delivery_status,
  record_delivery_attempt, is_ready,
}
use arcade.Webhook.{
  Config, Update, Post, Reply, transport_error, answered, Turn, record_failure, record_attempt,
  fail, or_default, compute_backoff, record_reply, post_claimed, deliver,
}
use arcade.Webhook.Backoff.{compute_backoff-min, grows}

-- No answer, or one that is not a success.
abbrev pub is_failure : Reply → Bool
is_failure (transport_error reason) = true
is_failure (answered code reason) = ltb code 200 || leb 300 code

-- When a failed delivery is due again: never, where its retries are used up.
abbrev pub due_again : Config → ℕ → ℕ → Option ℕ
due_again cfg retry_count failed_at =
    if leb (or_default 10 cfg.max_retries) retry_count
    then none
    else some (failed_at + compute_backoff cfg retry_count)

abbrev pub is_due : ℕ → Option ℕ → Bool
is_due now none = false
is_due now (some t) = leb t now

default-pos : (d n : ℕ) → 0 < d → 0 < or_default d n
default-pos d n h = ground (arith, h, nat_eq.beq_iff n 0)

compute_backoff-pos : (cfg : Config) (n : ℕ) → 0 < compute_backoff cfg n
compute_backoff-pos cfg n =
    let i = or_default 5000000000 cfg.initial_backoff in
    let p : 0 < i = default-pos 5000000000 cfg.initial_backoff (omega arith) in
    let m : 0 < or_default 300000000000 cfg.max_backoff =
      default-pos 300000000000 cfg.max_backoff (omega arith) in
    omega (arith, compute_backoff-min cfg n, grows i (n - 1), p, m)

-- A turn in which the store works and the update can be encoded.
abbrev pub quiet : Reply → ℕ → ℕ → Turn
quiet reply attempted_at failed_at = record {
  claim_io = healthy;
  attempt_io = healthy;
  failure_io = healthy;
  encodes = true;
  reply = reply;
  attempted_at = attempted_at;
  failed_at = failed_at;
}

-- The store with another row of the submission.
abbrev store_row : String → Submission → Submissions → Submissions
store_row id r s = record s { subs = insert id (some r) s.subs }

module _ (id : String) (s : Submissions) (r : Submission)
    (l : lookup id s.subs ≡ some (some r)) where
  cas_healthy :
      (next : Status)
      → update_delivery_status_cas healthy id r.last_delivered_status next s
        ≡ (store_row id (claimed_row next r) s, ok true)
  unfolding update_delivery_status_cas with_submission claim_found write_submission
  cas_healthy next = rw (l, beq_refl r.last_delivered_status) refl

  attempt_healthy :
      (at : ℕ) (result : String)
      → (record_delivery_attempt healthy id at result s).0
        ≡ store_row id (attempt_row at result r) s
  unfolding record_delivery_attempt with_submission write_submission
  attempt_healthy at result = rw l refl

  update_healthy :
      (last : Status) (count next : ℕ)
      → (update_delivery_status healthy id last count next s).0
        ≡ store_row id (delivery_row last count next r) s
  unfolding update_delivery_status with_submission write_submission
  update_healthy last count next = rw l refl

-- The row after a failure.
abbrev pub AfterFailure : Config → Submission → Status → ℕ → ℕ → Submissions → Type 0
AfterFailure cfg sub status failed_at now s =
    (r : Submission) × (lookup sub.submission_id s.subs ≡ some (some r))
    × (r.retry_count ≡ sub.retry_count + 1)
    × (r.last_delivered_status ≡ status)
    × (is_ready now r ≡ is_due now (due_again cfg (sub.retry_count + 1) failed_at))

module _ (cfg : Config) (sub : Submission) (status : Status) (failed_at now : ℕ) where
  abbrev HasRow : ℕ → Option ℕ → Submissions → Type 0
  HasRow next due x =
      (r : Submission) × (lookup sub.submission_id x.subs ≡ some (some r))
      × (r.retry_count ≡ sub.retry_count + 1)
      × (r.last_delivered_status ≡ status)
      × (is_ready now r ≡ is_due now due)

  written-HasRow :
      (s : Submissions) (r : Submission) (next : ℕ) (due : Option ℕ)
      → lookup sub.submission_id s.subs ≡ some (some r)
      → is_ready now (delivery_row status (sub.retry_count + 1) next r) ≡ is_due now due
      → HasRow next due
          (update_delivery_status healthy sub.submission_id status (sub.retry_count + 1) next s).0
  unfolding delivery_row
  written-HasRow s r next due l e =
      let row = delivery_row status (sub.retry_count + 1) next r in
      subst (λ x. HasRow next due x)
        (sym (update_healthy sub.submission_id s r l status (sub.retry_count + 1) next))
        (row, lookup-insert_self sub.submission_id (some row) s.subs, refl, refl, e)

  never-ready : (r : Submission) (count : ℕ) → is_ready now (delivery_row status count 0 r) ≡ false
  unfolding is_ready delivery_row
  never-ready r count = ground arith

  later-ready :
      (r : Submission) (count next : ℕ)
      → 0 < next
      → is_ready now (delivery_row status (count + 1) next r) ≡ leb next now
  unfolding is_ready delivery_row
  later-ready r count next p = ground (arith, p)

  recorded-AfterFailure :
      (s : Submissions) (r : Submission)
      → lookup sub.submission_id s.subs ≡ some (some r)
      → AfterFailure cfg sub status failed_at now
          (record_failure cfg healthy failed_at sub status s)
  unfolding record_failure
  recorded-AfterFailure s r l =
      let n = sub.retry_count + 1 in
      let next = failed_at + compute_backoff cfg n in
      elim (Bool-cases (leb (or_default 10 cfg.max_retries) n)) [
        | inl b ↦ rw b (written-HasRow s r 0 none l (never-ready r n))
        | inr b ↦ rw b (
            written-HasRow s r next (some next) l
              (later-ready r sub.retry_count next (omega (arith, compute_backoff-pos cfg n))))
      ]

  fail-AfterFailure :
      (reply : Reply) (at : ℕ) (reason : String) (s : Submissions) (r : Submission)
      → lookup sub.submission_id s.subs ≡ some (some r)
      → AfterFailure cfg sub status failed_at now
          (fail cfg (quiet reply at failed_at) sub status reason s)
  unfolding fail record_attempt
  fail-AfterFailure reply at reason s r l =
      subst
        (λ x.
          AfterFailure cfg sub status failed_at now
            (record_failure cfg healthy failed_at sub status x))
        (sym (attempt_healthy sub.submission_id s r l at reason))
        (recorded-AfterFailure (store_row sub.submission_id (attempt_row at reason r) s)
          (attempt_row at reason r)
          (lookup-insert_self sub.submission_id (some (attempt_row at reason r)) s.subs))

  replied-AfterFailure :
      (reply : Reply) (at : ℕ) (s : Submissions) (r : Submission)
      → lookup sub.submission_id s.subs ≡ some (some r)
      → is_failure reply ≡ true
      → AfterFailure cfg sub status failed_at now
          (record_reply cfg (quiet reply at failed_at) sub status reply s)
  unfolding record_reply
  replied-AfterFailure (transport_error reason) at s r l f =
      fail-AfterFailure (transport_error reason) at reason s r l
  replied-AfterFailure (answered code reason) at s r l f =
      rw f (fail-AfterFailure (answered code reason) at reason s r l)

-- Where the store works: a delivery to a submission whose last status is still the one that was read,
-- and whose POST fails, leaves the submission with the update's status as the last, one more
-- retry, and due from the end of its backoff on, or never where its retries are used up.
pub failed_delivery_due :
    (cfg : Config) (sub : Submission) (update : Update) (reply : Reply)
    (attempted_at failed_at now : ℕ) (s : Submissions) (posts : List Post) (r : Submission)
    → lookup sub.submission_id s.subs ≡ some (some r)
    → r.last_delivered_status ≡ sub.last_delivered_status
    → is_failure reply ≡ true
    → AfterFailure cfg sub update.status failed_at now
        (deliver cfg (quiet reply attempted_at failed_at) sub update (s, posts)).0
unfolding deliver post_claimed
failed_delivery_due cfg sub update reply at failed_at now s posts r l e f =
    let id = sub.submission_id in
    let row = claimed_row update.status r in
    let t = quiet reply at failed_at in
    let q : update_delivery_status_cas healthy id sub.last_delivered_status update.status s
        ≡ (store_row id row s, ok true) =
      subst
        (λ st.
          update_delivery_status_cas healthy id st update.status s ≡ (store_row id row s, ok true))
        e (cas_healthy id s r l update.status) in
    subst
      (λ (x : Submissions × Outcome Bool).
        AfterFailure cfg sub update.status failed_at now
          (post_claimed cfg t sub update x.1 (x.0, posts)).0)
      (sym q)
      (replied-AfterFailure cfg sub update.status failed_at now reply at (store_row id row s) row
        (lookup-insert_self id (some row) s.subs) f)
