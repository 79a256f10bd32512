-- ===== src/Tests/Hooks.antt =====
-- The webhook's theorems at concrete deliveries.
use arcade.Prelude.{
  ℕ, ◌≡◌, ◌≤◌, ◌^◌, ◌*◌, ◌-◌, min, refl, true, false, List, [], ◌∷◌, some, arith, length,
}
use arcade.Prelude.Map.{lookup}
use arcade.Models.Status.{Status, received, mined}
use arcade.Pebble.Submissions.{Submission, Submissions}
use arcade.Webhook.{
  Config, Update, answered, transport_error, Turn, should_deliver, compute_backoff, or_default,
  deliver,
}
use arcade.Webhook.Backoff.{compute_backoff-min}
use arcade.Webhook.Claims.{deliver_each, reanchor_posts_each}
use arcade.Webhook.Interleaved.{claiming, interleave}
use arcade.Webhook.Interleaved.Once.{delivered_at_most_once}
use arcade.Webhook.Retried.{quiet, AfterFailure, failed_delivery_due}

abbrev config : Config
config = record { max_retries = 3; initial_backoff = 10; max_backoff = 50 }

abbrev told : Status → Submission
told status = record {
  submission_id = "s";
  tx_id = "t";
  callback_url = "http://c";
  callback_token = "k";
  full_status_updates = false;
  last_delivered_status = status;
  retry_count = 1;
  next_retry_at = 0;
  attempts = 0;
  last_attempt_at = 0;
  last_result = "";
  created_at = 1;
}

abbrev told_store : Status → Submissions
told_store status = record {
  subs = ("s", some (told status)) ∷ [];
  by_tx = ("t", "s") ∷ [];
  by_token = [];
}

abbrev mined_update : Update
mined_update = record { tx_id = "t"; status = mined; extra_info = "reorg_reanchor" }

abbrev replicas : List Turn
replicas = quiet (answered 200 "") 5 6 ∷ quiet (transport_error "reset") 7 8 ∷ []

-- The first claims, the second is refused, the first POSTs, fails, and reads its row; the rest follows.
abbrev order : List ℕ
order = 0 ∷ 1 ∷ 0 ∷ 0 ∷ 0 ∷ 1 ∷ 0 ∷ []

delivered_at_most_once_example :
    length
      (interleave config
        (told received)
        mined_update
        order
        ((quiet (transport_error "reset") 7 8, claiming)
          ∷ (quiet (answered 200 "") 5 6, claiming)
          ∷ [])
        (told_store received, [])).1
    ≤ 1
delivered_at_most_once_example =
    delivered_at_most_once config (told received) mined_update (λ e. absurd (ground (arith, e)))
      (quiet (transport_error "reset") 7 8 ∷ quiet (answered 200 "") 5 6 ∷ []) order
      (told_store received, [])

reanchor_posts_each_example :
    (should_deliver (told mined) mined_update ≡ true)
    × (length (deliver_each config (told mined) mined_update replicas (told_store mined, [])).1 ≡ 2)
unfolding lookup
reanchor_posts_each_example =
    reanchor_posts_each config (told mined) mined_update replicas (told_store mined, []) refl refl
      refl ((refl, refl), ((refl, refl), tt)) (told mined, refl, refl)

failed_delivery_due_example :
    AfterFailure config
      (told received)
      mined
      9
      100
      (deliver config
        (quiet (answered 503 "status 503") 8 9)
        (told received)
        mined_update
        (told_store received, [])).0
unfolding lookup
failed_delivery_due_example =
    failed_delivery_due config (told received) mined_update (answered 503 "status 503") 8 9 100
      (told_store received) [] (told received) refl refl refl

compute_backoff-min_example :
    compute_backoff config 4
    ≡ min (or_default 5000000000 10 * 2 ^ (4 - 1)) (or_default 300000000000 50)
compute_backoff-min_example = compute_backoff-min config 4
