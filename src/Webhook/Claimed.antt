-- ===== src/Webhook/Claimed.antt =====
-- services/webhook/service.go: what stands in the store after a claim, and that what a delivery records
-- afterwards keeps it.
use arcade.Prelude.{
  ℕ, ◌+◌, ◌≡◌, ◌≢◌, refl, sym, inl, inr, String, Bool, true, false, ◌||◌, Option, none, some, arith,
  ◌==◌, nat_eq, string_eq, ltb, leb, Bool-cases, beq_ne,
}
use arcade.Prelude.Map.{lookup, lookup-insert_self}
use arcade.Models.Status.{Status, status_eq}
use arcade.Pebble.Ops.{Io, Outcome, ok, err, read_error}
use arcade.Pebble.Submissions.{
  Submission, Submissions, with_submission, write_submission, delivery_row, attempt_row,
  claimed_row, claim_found, update_delivery_status_cas, update_delivery_status,
  record_delivery_attempt,
}
use arcade.Webhook.{
  Config, Update, Reply, transport_error, answered, Turn, record_failure, record_attempt, fail,
  or_default, compute_backoff, record_reply,
}

-- The submission is there, and `status` is the last that was claimed for it.
abbrev pub IsClaimed : String → Status → Submissions → Type 0
IsClaimed id status s =
    (r : Submission) × (lookup id s.subs ≡ some (some r)) × (r.last_delivered_status ≡ status)

module _ (id : String) (status : Status) where
  pub written-IsClaimed :
      {A : Type 0} (io : Io) (r : Submission) (a : A) (s : Submissions)
      → r.last_delivered_status ≡ status
      → IsClaimed id status s
      → IsClaimed id status (write_submission io id r a s).0
  unfolding write_submission
  written-IsClaimed io r a s e v = elim (Bool-cases (io.write_fails)) [
    | inl b ↦ rw b v
    | inr b ↦ rw b (r, lookup-insert_self id (some r) s.subs, e)
  ]

  with-IsClaimed :
      {A : Type 0} (io : Io) (s : Submissions) (missing : A)
      (next : Submission → Submissions × Outcome A)
      → ((r : Submission) → r.last_delivered_status ≡ status → IsClaimed id status (next r).0)
      → IsClaimed id status s
      → IsClaimed id status (with_submission io (lookup id s.subs) s missing next).0
  unfolding with_submission
  with-IsClaimed io s missing next f (r, l, e) = elim (Bool-cases (io.cancelled)) [
    | inl b ↦ rw b (r, l, e)
    | inr b ↦ elim (Bool-cases (io.read_fails)) [
      | inl c ↦ rw (b, c) (r, l, e)
      | inr c ↦ rw (b, c, l) (f r e)
    ]
  ]

  pub attempt-IsClaimed :
      (io : Io) (at : ℕ) (result : String) (s : Submissions)
      → IsClaimed id status s
      → IsClaimed id status (record_delivery_attempt io id at result s).0
  unfolding record_delivery_attempt attempt_row
  attempt-IsClaimed io at result s v =
      with-IsClaimed io s tt (λ r. write_submission io id (attempt_row at result r) tt s)
        (λ r e. written-IsClaimed io (attempt_row at result r) tt s e v) v

  pub update-IsClaimed :
      (io : Io) (count next : ℕ) (s : Submissions)
      → IsClaimed id status s
      → IsClaimed id status (update_delivery_status io id status count next s).0
  unfolding update_delivery_status delivery_row
  update-IsClaimed io count next s v =
      with-IsClaimed io s tt (λ r. write_submission io id (delivery_row status count next r) tt s)
        (λ r e. written-IsClaimed io (delivery_row status count next r) tt s refl v) v

-- A claim is won and stands, or changes nothing.
abbrev pub Claims : String → Status → Submissions → Submissions × Outcome Bool → Type 0
Claims id next s (s', ok true) = IsClaimed id next s'
Claims id next s (s', ok false) = s' ≡ s
Claims id next s (s', err e) = s' ≡ s

module _ (id : String) (expected next : Status) where
  found-Claims :
      (io : Io) (s : Submissions) (r : Submission)
      → Claims id next s (claim_found io id expected next s r)
  unfolding claim_found write_submission claimed_row
  found-Claims io s r = elim (Bool-cases (r.last_delivered_status == expected)) [
    | inr b ↦ rw b refl
    | inl b ↦ elim (Bool-cases (io.write_fails)) [
      | inl c ↦ rw (b, c) refl
      | inr c ↦
          rw (b, c)
            (claimed_row next r, lookup-insert_self id (some (claimed_row next r)) s.subs, refl)
    ]
  ]

  looked-Claims :
      (io : Io) (s : Submissions) (o : Option (Option Submission))
      → Claims id next s (with_submission io o s false (claim_found io id expected next s))
  unfolding with_submission
  looked-Claims io s o = elim (Bool-cases (io.cancelled)) [
    | inl b ↦ rw b refl
    | inr b ↦ elim (Bool-cases (io.read_fails)) [
      | inl c ↦ rw (b, c) refl
      | inr c ↦ rw (b, c) (row_Claims o)
    ]
  ]
    where
      row_Claims :
          (x : Option (Option Submission))
          → Claims id next s (elim x [
            | none ↦ (s, ok false)
            | some row ↦ elim row [
              | none ↦ (s, err read_error)
              | some r ↦ claim_found io id expected next s r
            ]
          ])
      row_Claims none = refl
      row_Claims (some none) = refl
      row_Claims (some (some r)) = found-Claims io s r

  pub cas-Claims :
      (io : Io) (s : Submissions)
      → Claims id next s (update_delivery_status_cas io id expected next s)
  unfolding update_delivery_status_cas
  cas-Claims io s = looked-Claims io s (lookup id s.subs)

  -- A claim of a transition that was claimed before changes nothing and is not won.
  pub lost :
      expected ≢ next
      → (io : Io) (s : Submissions) → IsClaimed id next s
      → let (s', c) = update_delivery_status_cas io id expected next s in (s' ≡ s) × (c ≢ ok true)
  unfolding update_delivery_status_cas with_submission claim_found
  lost f io s (r, l, e) = elim (Bool-cases (io.cancelled)) [
    | inl b ↦ rw b (refl, λ q. absurd (ground (arith, q)))
    | inr b ↦ elim (Bool-cases (io.read_fails)) [
      | inl c ↦ rw (b, c) (refl, λ q. absurd (ground (arith, q)))
      | inr c ↦
          rw (b, c, l, e, beq_ne next expected (λ q. f (sym q)))
            (refl, λ q. absurd (ground (arith, q)))
    ]
  ]

module _ (cfg : Config) (sub : Submission) (update : Update) where
  pub failed-IsClaimed :
      (t : Turn) (reason : String) (s : Submissions)
      → IsClaimed sub.submission_id update.status s
      → IsClaimed sub.submission_id update.status (fail cfg t sub update.status reason s)
  unfolding fail record_failure record_attempt
  failed-IsClaimed t reason s v =
      elim (Bool-cases (leb (or_default 10 cfg.max_retries) (sub.retry_count + 1))) [
        | inl b ↦ rw b (
            update-IsClaimed sub.submission_id update.status t.failure_io (sub.retry_count + 1) 0
              (attempted t reason s) (kept t reason s v))
        | inr b ↦ rw b (
            update-IsClaimed sub.submission_id update.status t.failure_io (sub.retry_count + 1)
              (t.failed_at + compute_backoff cfg (sub.retry_count + 1)) (attempted t reason s)
              (kept t reason s v))
      ]
    where
      attempted : Turn → String → Submissions → Submissions
      attempted u result x =
          (record_delivery_attempt u.attempt_io sub.submission_id u.attempted_at result x).0

      kept :
          (u : Turn) (result : String) (x : Submissions)
          → IsClaimed sub.submission_id update.status x
          → IsClaimed sub.submission_id update.status (attempted u result x)
      kept u result x w =
          attempt-IsClaimed sub.submission_id update.status u.attempt_io u.attempted_at result x w

  pub replied-IsClaimed :
      (t : Turn) (reply : Reply) (s : Submissions)
      → IsClaimed sub.submission_id update.status s
      → IsClaimed sub.submission_id update.status (record_reply cfg t sub update.status reply s)
  unfolding record_reply record_attempt
  replied-IsClaimed t (transport_error reason) s v = failed-IsClaimed t reason s v
  replied-IsClaimed t (answered code reason) s v =
      elim (Bool-cases (ltb code 200 || leb 300 code)) [
        | inl b ↦ rw b (failed-IsClaimed t reason s v)
        | inr b ↦ rw b (
            attempt-IsClaimed sub.submission_id update.status t.attempt_io t.attempted_at
              "delivered" s v)
      ]
