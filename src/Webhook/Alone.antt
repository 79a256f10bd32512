-- ===== src/Webhook/Alone.antt =====
-- services/webhook/service.go: the steps of one replica, with no other in between, are the whole call.
use arcade.Prelude.{
  ℕ, ◌+◌, ◌≡◌, refl, ap, sym, inl, inr, String, Bool, true, false, ◌||◌, List, [], ◌∷◌, nat_eq,
  string_eq, if◌then◌else◌, ltb, leb, Bool-cases,
}
use arcade.Models.Status.{status_eq}
use arcade.Pebble.Ops.{Outcome, ok, err}
use arcade.Pebble.Submissions.{Submission, Submissions, update_delivery_status_cas}
use arcade.Pebble.Submissions.Race.{update_delivery_status-write_back}
use arcade.Webhook.{
  Config, Update, Post, Reply, transport_error, answered, Turn, World, or_default, compute_backoff,
  record_failure, record_attempt, fail, record_reply, post_claimed, deliver,
}
use arcade.Webhook.Interleaved.{
  Stage, claiming, posting, reading, ended, after_claim, failure_row, note, act, act_at, interleave,
}

module _ (cfg : Config) (sub : Submission) (update : Update) (t : Turn) where
  -- The rest of a call from a stage on.
  abbrev rest : List ℕ → World × Stage → World
  rest order (w, stage) = interleave cfg sub update order ((t, stage) ∷ []) w

  failed-rest :
      (reason : String) (s : Submissions) (posts : List Post)
      → rest (0 ∷ 0 ∷ []) ((record_attempt t sub reason s, posts), reading)
        ≡ (fail cfg t sub update.status reason s, posts)
  unfolding interleave act_at act fail record_failure failure_row
  failed-rest reason s posts =
      elim (Bool-cases (leb (or_default 10 cfg.max_retries) (sub.retry_count + 1))) [
        | inl b ↦ rw b (
            ap (λ x. (x.0, posts))
              (sym (
                update_delivery_status-write_back t.failure_io sub.submission_id update.status
                  (sub.retry_count + 1) 0 (record_attempt t sub reason s))))
        | inr b ↦ rw b (
            ap (λ x. (x.0, posts))
              (sym (
                update_delivery_status-write_back t.failure_io sub.submission_id update.status
                  (sub.retry_count + 1) (t.failed_at + compute_backoff cfg (sub.retry_count + 1))
                  (record_attempt t sub reason s))))
      ]

  noted-rest :
      (reply : Reply) (s : Submissions) (posts : List Post)
      → rest (0 ∷ 0 ∷ []) (note t sub reply (s, posts))
        ≡ (record_reply cfg t sub update.status reply s, posts)
  unfolding note record_reply interleave act_at act
  noted-rest (transport_error reason) s posts = failed-rest reason s posts
  noted-rest (answered code reason) s posts = elim (Bool-cases (ltb code 200 || leb 300 code)) [
    | inl b ↦ rw b (failed-rest reason s posts)
    | inr b ↦ rw b refl
  ]

  claimed-rest :
      (c : Outcome Bool) (s : Submissions) (posts : List Post)
      → rest (0 ∷ 0 ∷ 0 ∷ 0 ∷ []) ((s, posts), after_claim t c)
        ≡ post_claimed cfg t sub update c (s, posts)
  unfolding after_claim post_claimed interleave act_at act
  claimed-rest (err e) s posts = refl
  claimed-rest (ok false) s posts = refl
  claimed-rest (ok true) s posts = encoded t.encodes
    where
      encoded :
          (b : Bool)
          → rest (0 ∷ 0 ∷ 0 ∷ 0 ∷ []) ((s, posts), if b then posting else ended) ≡ (
              if b
              then (
                record_reply cfg t sub update.status t.reply s,
                record {
                  callback_url = sub.callback_url;
                  callback_token = sub.callback_token;
                  tx_id = update.tx_id;
                  status = update.status;
                }
                    ∷ posts,
              )
              else (s, posts))
      encoded true = noted-rest t.reply s (post ∷ posts)
        where
          post : Post
          post = record {
            callback_url = sub.callback_url;
            callback_token = sub.callback_token;
            tx_id = update.tx_id;
            status = update.status;
          }
      encoded false = refl

  -- A replica alone, five steps on, has done what deliver does.
  pub interleave-deliver :
      (w : World)
      → interleave cfg sub update (0 ∷ 0 ∷ 0 ∷ 0 ∷ 0 ∷ []) ((t, claiming) ∷ []) w
        ≡ deliver cfg t sub update w
  unfolding interleave act_at act deliver
  interleave-deliver (s, posts) =
      let r =
        update_delivery_status_cas t.claim_io sub.submission_id sub.last_delivered_status
          update.status s in
      claimed-rest r.1 r.0 posts
