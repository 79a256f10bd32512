-- ===== src/Webhook/Claims.antt =====
-- services/webhook/service.go: a re-anchored event is POSTed by every replica.
use arcade.Prelude.{
  ◌+◌, ◌≡◌, refl, sym, subst, ◌∙◌, Bool, true, false, List, [], ◌∷◌, arith, nat_eq, string_eq,
  if◌then◌else◌, length, All, beq_refl,
}
use arcade.Models.Status.{status_eq, mined}
use arcade.Pebble.Ops.{Outcome, ok, err}
use arcade.Pebble.Reorg.{healthy}
use arcade.Pebble.Submissions.{
  Submission, Submissions, with_submission, write_submission, claim_found,
  update_delivery_status_cas,
}
use arcade.Webhook.{
  Config, Update, Post, Turn, World, should_deliver, record_reply, post_claimed, deliver,
}
use arcade.Webhook.Claimed.{IsClaimed, Claims, cas-Claims, replied-IsClaimed}

-- Replicas that read the submission before any of them delivers, and whose calls of deliver then come
-- one after the other. It is the one order in which no two of them overlap.
unfoldable pub deliver_each : Config → Submission → Update → List Turn → World → World
deliver_each cfg sub update [] w = w
deliver_each cfg sub update (t ∷ turns) w =
    deliver_each cfg sub update turns (deliver cfg t sub update w)

module _ (cfg : Config) (sub : Submission) (update : Update) where
  -- A claim of the status that was last delivered, where nothing fails.
  reclaimed :
      (s : Submissions)
      → IsClaimed sub.submission_id sub.last_delivered_status s
      → (update_delivery_status_cas healthy sub.submission_id sub.last_delivered_status
          sub.last_delivered_status s).1
        ≡ ok true
  unfolding update_delivery_status_cas with_submission claim_found write_submission
  reclaimed s (r, l, e) = rw (l, e, beq_refl sub.last_delivered_status) refl

-- The claim reaches the store, and the update can be encoded.
abbrev pub IsHealthy : Turn → Type 0
IsHealthy t = (t.claim_io ≡ healthy) × (t.encodes ≡ true)

chosen :
    {A : Type 0} (P : A → Type 0) (b : Bool) (p q : A) → b ≡ true → P p → P (if b then p else q)
chosen P true p q e h = h
chosen P false p q e h = absurd (ground (arith, e))

module _ (cfg : Config) (sub : Submission) (update : Update)
    (same : sub.last_delivered_status ≡ update.status) where
  abbrev PostsOneMore : List Post → World → Type 0
  PostsOneMore posts w =
      IsClaimed sub.submission_id update.status w.0 × (length w.1 ≡ length posts + 1)

  posts_again :
      (t : Turn) (s s' : Submissions) (posts : List Post) (c : Outcome Bool)
      → c ≡ ok true
      → t.encodes ≡ true
      → Claims sub.submission_id update.status s (s', c)
      → PostsOneMore posts (post_claimed cfg t sub update c (s', posts))
  unfolding post_claimed
  posts_again t s s' posts (err e) q n h = absurd (ground (arith, q))
  posts_again t s s' posts (ok false) q n h = absurd (ground (arith, q))
  posts_again t s s' posts (ok true) q n h =
      chosen (PostsOneMore posts) t.encodes
        (
          record_reply cfg t sub update.status t.reply s',
          record {
            callback_url = sub.callback_url;
            callback_token = sub.callback_token;
            tx_id = update.tx_id;
            status = update.status;
          }
              ∷ posts,
        )
        (s', posts) n (replied-IsClaimed cfg sub update t t.reply s' h, omega arith)

  delivers_again :
      (t : Turn) (s : Submissions) (posts : List Post)
      → IsHealthy t
      → IsClaimed sub.submission_id update.status s
      → PostsOneMore posts (deliver cfg t sub update (s, posts))
  unfolding deliver
  delivers_again t s posts (c, n) v =
      let id = sub.submission_id in
      let last = sub.last_delivered_status in
      let r = update_delivery_status_cas t.claim_io id last update.status s in
      let v' = subst (λ st. IsClaimed id st s) (sym same) v in
      posts_again t s r.0 posts r.1
        (subst (λ io. (update_delivery_status_cas io id last update.status s).1 ≡ ok true) (sym c)
          (subst (λ st. (update_delivery_status_cas healthy id last st s).1 ≡ ok true) same
            (reclaimed cfg sub update s v')))
        n (cas-Claims id last update.status t.claim_io s)

  all_post :
      (turns : List Turn) (w : World)
      → All IsHealthy turns
      → IsClaimed sub.submission_id update.status w.0
      → length (deliver_each cfg sub update turns w).1 ≡ length w.1 + length turns
  unfolding deliver_each
  all_post [] w h v = omega arith
  all_post (t ∷ turns) (s, posts) h v =
      let (v', e) = delivers_again t s posts h.0 v in
      omega (arith, e, all_post turns (deliver cfg t sub update (s, posts)) h.1 v')

-- Of a MINED event that says that a reorg has re-anchored the transaction, for a submission that was last
-- told MINED: the event is to be delivered, and where the claims reach the store and the event can be encoded, each
-- replica POSTs it, since the claim from MINED to MINED is won every time.
pub reanchor_posts_each :
    (cfg : Config) (sub : Submission) (update : Update) (turns : List Turn) (w : World)
    → sub.last_delivered_status ≡ mined
    → update.status ≡ mined
    → update.extra_info ≡ "reorg_reanchor"
    → All IsHealthy turns
    → IsClaimed sub.submission_id mined w.0
    → (should_deliver sub update ≡ true)
      × (length (deliver_each cfg sub update turns w).1 ≡ length w.1 + length turns)
unfolding should_deliver
reanchor_posts_each cfg sub update turns w l m x h v = (
  rw (l, m, x) refl,
  all_post cfg sub update (l ∙ sym m) turns w h
      (subst (λ st. IsClaimed sub.submission_id st w.0) (sym m) v),
)
