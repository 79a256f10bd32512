-- ===== src/Webhook/Interleaved/Once.antt =====
-- services/webhook/service.go: replicas that overlap POST an update once.
use arcade.Prelude.{
  ℕ, zero, suc, ◌+◌, ◌≤◌, ◌≡◌, ◌≢◌, ◌⊎◌, refl, sym, subst, inl, inr, Bool, true, false, ◌||◌, List,
  [], ◌∷◌, map, Option, none, some, arith, nat_eq, string_eq, ltb, leb, length, Bool-cases, All,
}
use arcade.Models.Status.{status_eq}
use arcade.Pebble.Ops.{Outcome, ok, err}
use arcade.Pebble.Submissions.{
  Submission, Submissions, write_back, delivery_row, update_delivery_status_cas,
}
use arcade.Webhook.{
  Config, Update, Post, Reply, transport_error, answered, Turn, World, record_attempt,
}
use arcade.Webhook.Claimed.{
  IsClaimed, Claims, cas-Claims, lost, written-IsClaimed, attempt-IsClaimed,
}
use arcade.Webhook.Interleaved.{
  Stage, claiming, posting, noting, reading, storing, ended, Replica, after_claim, failure_row,
  note, act, act_at, interleave,
}

module _ (cfg : Config) (sub : Submission) (update : Update) where
  -- Replicas that have claimed and not yet POSTed.
  abbrev owes : Stage → ℕ
  owes posting = 1
  owes _ = 0

  abbrev owed : List Replica → ℕ
  owed [] = 0
  owed ((t, stage) ∷ rest) = owes stage + owed rest

  abbrev HasWinner : World → Type 0
  HasWinner w = IsClaimed sub.submission_id update.status w.0

  written-winner :
      (t : Turn) (s : Submissions) (found : Outcome (Option Submission))
      → IsClaimed sub.submission_id update.status s
      → IsClaimed sub.submission_id update.status
          (write_back t.failure_io sub.submission_id
            (failure_row cfg t sub update.status)
            found
            s).0
  unfolding write_back failure_row delivery_row
  written-winner t s (err e) v = v
  written-winner t s (ok none) v = v
  written-winner t s (ok (some r)) v =
      written-IsClaimed sub.submission_id update.status t.failure_io
        (failure_row cfg t sub update.status r) tt s refl v

  -- What a step leaves, where the transition is claimed: it stays so, and no more is POSTed than was owed.
  abbrev Spends : ℕ → World × Stage → Type 0
  Spends n (w', stage) = HasWinner w' × (length w'.1 + owes stage ≤ n)

  noted-Spends :
      (t : Turn) (reply : Reply) (w : World)
      → HasWinner w
      → Spends (length w.1) (note t sub reply w)
  unfolding note record_attempt
  noted-Spends t (transport_error reason) (s, posts) v = (
    attempt-IsClaimed sub.submission_id update.status t.attempt_io t.attempted_at reason s v,
    omega arith,
  )
  noted-Spends t (answered code reason) (s, posts) v =
      elim (Bool-cases (ltb code 200 || leb 300 code)) [
        | inl b ↦ rw b (
          attempt-IsClaimed sub.submission_id update.status t.attempt_io t.attempted_at reason s v,
          omega arith,
        )
        | inr b ↦ rw b (
          attempt-IsClaimed sub.submission_id update.status t.attempt_io t.attempted_at "delivered"
              s v,
          omega arith,
        )
      ]

  module _ (f : sub.last_delivered_status ≢ update.status) where
    owes-lost : (t : Turn) (c : Outcome Bool) → c ≢ ok true → owes (after_claim t c) ≡ 0
    unfolding after_claim
    owes-lost t (ok true) n = absurd (n refl)
    owes-lost t (ok false) n = refl
    owes-lost t (err e) n = refl

    act-Spends :
        (t : Turn) (stage : Stage) (w : World)
        → HasWinner w
        → Spends (length w.1 + owes stage) (act cfg sub update t stage w)
    unfolding act
    act-Spends t claiming (s, posts) v =
        let n = lost sub.submission_id sub.last_delivered_status update.status f t.claim_io s v in
        (
          subst (IsClaimed sub.submission_id update.status) (sym n.0) v,
          omega (arith, owes-lost t _ n.1),
        )
    act-Spends t posting (s, posts) v = (v, omega arith)
    act-Spends t (noting reply) w v = let (k, l) = noted-Spends t reply w v in (k, omega (arith, l))
    act-Spends t reading (s, posts) v = (v, omega arith)
    act-Spends t (storing found) (s, posts) v = (written-winner t s found v, omega arith)
    act-Spends t ended w v = (v, omega arith)

    act_at-taken :
        (i : ℕ) (rs : List Replica) (w : World)
        → HasWinner w
        → let (w', rs') = act_at cfg sub update i rs w in
          HasWinner w' × (length w'.1 + owed rs' ≤ length w.1 + owed rs)
    unfolding act_at
    act_at-taken i [] w v = (v, omega arith)
    act_at-taken zero ((t, stage) ∷ rest) w v =
        let (k, l) = act-Spends t stage w v in (k, omega (arith, l))
    act_at-taken (suc i) ((t, stage) ∷ rest) w v =
        let (k, l) = act_at-taken i rest w v in (k, omega (arith, l))

    interleave-taken :
        (order : List ℕ) (rs : List Replica) (w : World)
        → HasWinner w
        → length (interleave cfg sub update order rs w).1 ≤ length w.1 + owed rs
    unfolding interleave
    interleave-taken [] rs w v = omega arith
    interleave-taken (i ∷ order) rs w v =
        let (k, l) = act_at-taken i rs w v in
        omega (
          arith,
          l,
          interleave-taken order (act_at cfg sub update i rs w).1 (act_at cfg sub update i rs w).0
              k,
        )

    -- Replicas that have not claimed, or were refused.
    abbrev IsIdle : Replica → Type 0
    IsIdle (t, claiming) = Unit
    IsIdle (t, ended) = Unit
    IsIdle (t, posting) = ⊥
    IsIdle (t, noting reply) = ⊥
    IsIdle (t, reading) = ⊥
    IsIdle (t, storing found) = ⊥

    -- Nothing is POSTed and all are idle, or the transition is claimed and one POST is made or owed.
    abbrev OnePost : ℕ → ℕ → World → Type 0
    OnePost base n w = HasWinner w × (length w.1 + n ≤ base + 1)

    owes-after_claim : (t : Turn) (c : Outcome Bool) → owes (after_claim t c) ≤ 1
    unfolding after_claim
    owes-after_claim t (ok true) = elim (Bool-cases t.encodes) [
      | inl b ↦ rw b (omega arith)
      | inr b ↦ rw b (omega arith)
    ]
    owes-after_claim t (ok false) = omega arith
    owes-after_claim t (err e) = omega arith

    claimed-once :
        (t : Turn) (s s' : Submissions) (posts : List Post) (c : Outcome Bool)
        → Claims sub.submission_id update.status s (s', c)
        → ((length posts ≡ length posts) × IsIdle (t, after_claim t c))
          ⊎ OnePost (length posts) (owes (after_claim t c)) (s', posts)
    unfolding after_claim
    claimed-once t s s' posts (ok true) h = inr (h, omega (arith, owes-after_claim t (ok true)))
    claimed-once t s s' posts (ok false) h = inl (refl, tt)
    claimed-once t s s' posts (err e) h = inl (refl, tt)

    act-once :
        (t : Turn) (stage : Stage) (w : World)
        → IsIdle (t, stage)
        → let (w', stage') = act cfg sub update t stage w in
          ((length w'.1 ≡ length w.1) × IsIdle (t, stage')) ⊎ OnePost (length w.1) (owes stage') w'
    unfolding act
    act-once t claiming (s, posts) v =
        let r =
          update_delivery_status_cas t.claim_io sub.submission_id sub.last_delivered_status
            update.status s in
        claimed-once t s r.0 posts r.1
          (cas-Claims sub.submission_id sub.last_delivered_status update.status t.claim_io s)
    act-once t ended w v = inl (refl, tt)
    act-once t posting w v = elim v [ ]
    act-once t (noting _) w v = elim v [ ]
    act-once t reading w v = elim v [ ]
    act-once t (storing _) w v = elim v [ ]

    idle-owed : (rs : List Replica) → All IsIdle rs → owed rs ≡ 0
    idle-owed [] h = refl
    idle-owed ((t, claiming) ∷ rs) h = omega (arith, idle-owed rs h.1)
    idle-owed ((t, ended) ∷ rs) h = omega (arith, idle-owed rs h.1)
    idle-owed ((t, posting) ∷ rs) h = elim h.0 [ ]
    idle-owed ((t, noting _) ∷ rs) h = elim h.0 [ ]
    idle-owed ((t, reading) ∷ rs) h = elim h.0 [ ]
    idle-owed ((t, storing _) ∷ rs) h = elim h.0 [ ]

    act_at-once :
        (i : ℕ) (rs : List Replica) (w : World)
        → All IsIdle rs
        → let (w', rs') = act_at cfg sub update i rs w in
          ((length w'.1 ≡ length w.1) × All IsIdle rs') ⊎ OnePost (length w.1) (owed rs') w'
    unfolding act_at
    act_at-once i [] w h = inl (refl, tt)
    act_at-once zero ((t, stage) ∷ rest) w h = elim (act-once t stage w h.0) [
      | inl (e, k) ↦ inl (e, (k, h.1))
      | inr (v, l) ↦ inr (v, omega (arith, l, idle-owed rest h.1))
    ]
    act_at-once (suc i) (r ∷ rest) w h = elim (act_at-once i rest w h.1) [
      | inl (e, k) ↦ inl (e, (h.0, k))
      | inr (v, l) ↦ inr (v, omega (arith, l, idle-owed (r ∷ []) (h.0, tt)))
    ]

    interleave-once :
        (order : List ℕ) (rs : List Replica) (w : World)
        → All IsIdle rs
        → length (interleave cfg sub update order rs w).1 ≤ length w.1 + 1
    unfolding interleave
    interleave-once [] rs w h = omega arith
    interleave-once (i ∷ order) rs w h = elim (act_at-once i rs w h) [
      | inl (e, k) ↦ omega (
        arith,
        e,
        interleave-once order (act_at cfg sub update i rs w).1 (act_at cfg sub update i rs w).0 k,
      )
      | inr (v, l) ↦ omega (
        arith,
        l,
        interleave-taken order (act_at cfg sub update i rs w).1 (act_at cfg sub update i rs w).0 v,
      )
    ]

    started : (turns : List Turn) → All IsIdle (map (λ t. (t, claiming)) turns)
    started [] = tt
    started (t ∷ turns) = (tt, started turns)

    -- Of any number of replicas that deliver one update to one submission at the same time, whose steps come
    -- in any order, and with whatever failures, at most one POSTs it, where the update is not the one
    -- that was last delivered.
    pub delivered_at_most_once :
        (turns : List Turn) (order : List ℕ) (w : World)
        → length (interleave cfg sub update order (map (λ t. (t, claiming)) turns) w).1
          ≤ length w.1 + 1
    delivered_at_most_once turns order w = interleave-once order _ w (started turns)
