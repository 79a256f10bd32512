-- ===== src/Tests/Delivery.antt =====
-- store/pebble/pebble.go: a lease that two holders want, and an attempt that is lost.
use arcade.Prelude.{
  ◌+◌, ◌≡◌, refl, inl, inr, true, List, [], ◌∷◌, some, arith, ltb, if◌then◌else◌, string_eq,
  beq-false→ne,
}
use arcade.Prelude.Map.{lookup, insert}
use arcade.Models.Status.{received}
use arcade.Pebble.Ops.{ok}
use arcade.Pebble.Reorg.{healthy}
use arcade.Pebble.Leases.{
  Call, acquires, releases, call_all, try_acquire_or_renew, write_lease, taken_by_other,
  lease_exclusive,
}
use arcade.Pebble.Submissions.{Submission, Submissions}
use arcade.Pebble.Submissions.Race.{updating, recording, UndoesCount, retry_write_loses_attempt}

abbrev contended : List Call
contended =
    acquires healthy 6 "leader" "b" 10
    ∷ releases healthy "leader" "b"
    ∷ acquires healthy 7 "other" "b" 3
    ∷ []

lease_exclusive_example :
    let s' = call_all contended (try_acquire_or_renew healthy 5 "leader" "a" 10 []).0 in
    try_acquire_or_renew healthy 8 "leader" "b" 10 s' ≡ (
      if ltb 8 (5 + 10)
      then (s', ok 0)
      else (insert "leader" (some (record { holder = "b"; expires = 8 + 10 })) s', ok (8 + 10)))
unfolding try_acquire_or_renew write_lease taken_by_other lookup
lease_exclusive_example =
    lease_exclusive "leader" "a" "b" healthy 5 10 8 10 [] contended (beq-false→ne "b" "a" refl)
      (omega arith) refl
      (
        inr (beq-false→ne "b" "a" refl, omega arith),
        (inr (beq-false→ne "b" "a" refl), (inl (beq-false→ne "other" "leader" refl), tt)),
      )

abbrev submitted : Submission
submitted = record {
  submission_id = "s";
  tx_id = "t";
  callback_url = "http://c";
  callback_token = "";
  full_status_updates = true;
  last_delivered_status = received;
  retry_count = 0;
  next_retry_at = 0;
  attempts = 2;
  last_attempt_at = 0;
  last_result = "";
  created_at = 1;
}

abbrev one_submission : Submissions
one_submission = record { subs = ("s", some submitted) ∷ []; by_tx = []; by_token = [] }

retry_write_loses_attempt_example :
    UndoesCount "s" submitted (updating received 1 9) (recording 4 "status 403") one_submission
unfolding lookup
retry_write_loses_attempt_example =
    retry_write_loses_attempt "s" received 1 4 9 "status 403" one_submission submitted refl
