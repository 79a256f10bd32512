-- ===== src/Pebble/Submissions/Delivery.antt =====
-- store/pebble/pebble.go: what the claim of a delivery guarantees.
use arcade.Prelude.{
  ℕ, ◌+◌, ◌≤◌, ◌≡◌, ◌≢◌, ◌⊎◌, refl, sym, ap, subst, ◌∙◌, inl, inr, String, Bool, true, false, ◌||◌,
  List, [], ◌∷◌, Option, none, some, arith, ◌==◌, nat_eq, string_eq, Bool-cases, eq_cases, beq_ne,
}
use arcade.Prelude.Map.{lookup, lookup-insert_self, lookup-insert_ne}
use arcade.Models.Status.{Status, status_eq}
use arcade.Pebble.Ops.{Io, Outcome, ok, err}
use arcade.Pebble.Submissions.{
  Submission, Submissions, with_submission, write_submission, attempt_row, record_delivery_attempt,
  claimed_row, claim_found, update_delivery_status_cas,
}

-- Workers that race for one delivery: each claims the same transition of a submission, with whatever
-- failures, and attempts are recorded of this and of other submissions.
pub data Event : Type 0 where
  claims : Io → Event
  attempts_at : Io → String → ℕ → String → Event

abbrev won : Outcome Bool → ℕ
won (ok true) = 1
won (ok false) = 0
won (err e) = 0

module _ (id : String) (expected next : Status) where
  unfoldable pub step : Event → Submissions → Submissions × ℕ
  step (claims io) s = let (s', r) = update_delivery_status_cas io id expected next s in (s', won r)
  step (attempts_at io i at result) s = ((record_delivery_attempt io i at result s).0, 0)

  -- How many of the claims succeed.
  unfoldable pub wins : List Event → Submissions → ℕ
  wins [] s = 0
  wins (e ∷ events) s = let (s', n) = step e s in n + wins events s'

  -- The submission is there, and its transition is claimed.
  abbrev IsClaimed : Submissions → Type 0
  IsClaimed s =
      (r : Submission) × (lookup id s.subs ≡ some (some r)) × (r.last_delivered_status ≡ next)

  attempted-elsewhere :
      (io : Io) (i : String) (at : ℕ) (result : String) (s : Submissions)
      (o : Option (Option Submission))
      → i ≢ id
      → lookup id
          (with_submission io o s tt
            (λ r. write_submission io i (attempt_row at result r) tt s)).0.subs
        ≡ lookup id s.subs
  unfolding with_submission write_submission
  attempted-elsewhere io i at result s none f = ground arith
  attempted-elsewhere io i at result s (some none) f = ground arith
  attempted-elsewhere io i at result s (some (some r)) f =
      ground (arith, lookup-insert_ne i id (some (attempt_row at result r)) s.subs f)

  written-IsClaimed :
      {A : Type 0} (io : Io) (r : Submission) (a : A) (s : Submissions)
      → r.last_delivered_status ≡ next
      → IsClaimed s
      → IsClaimed (write_submission io id r a s).0
  unfolding write_submission
  written-IsClaimed io r a s c v = elim (Bool-cases io.write_fails) [
    | inl b ↦ rw b v
    | inr b ↦ rw b (r, lookup-insert_self id (some r) s.subs, c)
  ]

  attempted-here :
      (io : Io) (at : ℕ) (result : String) (s : Submissions) (r : Submission)
      → lookup id s.subs ≡ some (some r)
      → r.last_delivered_status ≡ next
      → IsClaimed
          (with_submission io
            (some (some r))
            s
            tt
            (λ r. write_submission io id (attempt_row at result r) tt s)).0
  unfolding with_submission attempt_row write_submission
  attempted-here io at result s r l c = elim (Bool-cases io.cancelled) [
    | inl b ↦ rw b (r, l, c)
    | inr b ↦ rw b (elim (Bool-cases io.read_fails) [
      | inl d ↦ rw d (r, l, c)
      | inr d ↦ rw d (
          written-IsClaimed io
            (record r { attempts = r.attempts + 1; last_attempt_at = at; last_result = result }) tt
            s c (r, l, c))
    ])
  ]

  -- A claim of a submission whose transition is claimed changes nothing.
  claim-claimed :
      (io : Io) (s : Submissions) (r : Submission)
      → expected ≢ next
      → r.last_delivered_status ≡ next
      → let (s', o) =
          with_submission io (some (some r)) s false (claim_found io id expected next s) in
        (s' ≡ s) × (won o ≡ 0)
  unfolding with_submission claim_found
  claim-claimed io s r f c =
      let differs : (r.last_delivered_status == expected) ≡ false =
        beq_ne r.last_delivered_status expected (λ q. f (sym q ∙ c)) in
      (ground (arith, differs), ground (arith, differs))

  step-IsClaimed :
      (e : Event) (s : Submissions)
      → expected ≢ next
      → IsClaimed s
      → IsClaimed (step e s).0 × ((step e s).1 ≡ 0)
  unfolding step update_delivery_status_cas record_delivery_attempt
  step-IsClaimed (claims io) s f (r, l, c) =
      let same = ap (λ o. with_submission io o s false (claim_found io id expected next s)) l in
      (
        subst (λ z. IsClaimed z.0) (sym same)
            (subst IsClaimed (sym (claim-claimed io s r f c).0) (r, l, c)),
        ap (λ z. won z.1) same ∙ (claim-claimed io s r f c).1,
      )
  step-IsClaimed (attempts_at io i at result) s f (r, l, c) = (
    elim (eq_cases i id) [
      | inr (b, x) ↦ (r, attempted-elsewhere io i at result s (lookup i s.subs) x ∙ l, c)
      | inl (b, x) ↦
          subst (λ z. IsClaimed (record_delivery_attempt io z at result s).0) (sym x)
            (subst
              (λ o.
                IsClaimed
                  (with_submission io o s tt
                    (λ r. write_submission io id (attempt_row at result r) tt s)).0)
              (sym l) (attempted-here io at result s r l c))
    ],
    refl,
  )

  wins-claimed :
      (events : List Event) (s : Submissions) → expected ≢ next → IsClaimed s → wins events s ≡ 0
  unfolding wins
  wins-claimed [] s f v = refl
  wins-claimed (e ∷ events) s f v = omega (
    arith,
    (step-IsClaimed e s f v).1,
    wins-claimed events (step e s).0 f (step-IsClaimed e s f v).0,
  )

  -- A claim that succeeds leaves the transition claimed.
  claim-wins :
      (io : Io) (s : Submissions) (o : Option (Option Submission))
      → let (s', r) = with_submission io o s false (claim_found io id expected next s) in
        (won r ≡ 0) ⊎ ((won r ≡ 1) × IsClaimed s')
  unfolding with_submission claim_found write_submission claimed_row
  claim-wins io s none = inl (ground arith)
  claim-wins io s (some none) = inl (ground arith)
  claim-wins io s (some (some r)) = elim (Bool-cases (io.cancelled || io.read_fails)) [
    | inl b ↦ inl (ground (arith, b))
    | inr b ↦ found (ground (arith, b)) (ground (arith, b))
  ]
    where
      found :
          io.cancelled ≡ false
          → io.read_fails ≡ false
          → let (s', o) =
              with_submission io (some (some r)) s false (claim_found io id expected next s) in
            (won o ≡ 0) ⊎ ((won o ≡ 1) × IsClaimed s')
      found b d =
          rw (b, d)
            (elim (Bool-cases (r.last_delivered_status == expected)) [
              | inr q ↦ rw q (inl refl)
              | inl q ↦ rw q (elim (Bool-cases io.write_fails) [
                | inl w ↦ rw w (inl refl)
                | inr w ↦ rw w (
                    inr (
                      refl,
                      (
                        claimed_row next r,
                        lookup-insert_self id (some (claimed_row next r)) s.subs,
                        refl,
                      ),
                    ))
              ])
            ])

  -- Of any number of workers that claim one transition of a submission, in whatever order, with whatever
  -- failures, and with attempts recorded in between, at most one is told that it has it.
  wins_at_most_once : (events : List Event) (s : Submissions) → expected ≢ next → wins events s ≤ 1
  unfolding wins step update_delivery_status_cas
  wins_at_most_once [] s f = omega arith
  wins_at_most_once (attempts_at io i at result ∷ events) s f =
      omega (arith, wins_at_most_once events (record_delivery_attempt io i at result s).0 f)
  wins_at_most_once (claims io ∷ events) s f = elim (claim-wins io s (lookup id s.subs)) [
    | inl z ↦
        omega (
          arith,
          z,
          wins_at_most_once events (update_delivery_status_cas io id expected next s).0 f,
        )
    | inr (z, v) ↦
        omega
          (arith, z, wins-claimed events (update_delivery_status_cas io id expected next s).0 f v)
  ]
