-- ===== src/Pebble/Submissions.antt =====
-- store/pebble/pebble.go, the submissions: a client's subscription to a transaction, with the state of
-- its delivery. A stored submission may be unreadable (`none`). InsertSubmission's batch is one new
-- state; RecordDeliveryAttempt and UpdateDeliveryStatusCAS hold a mutex from their read to their write,
-- and UpdateDeliveryStatus does not, so it is also given as a read and a write.
use arcade.Prelude.{
  ℕ, zero, suc, ◌+◌, ◌-◌, ◌≤◌, ◌<◌, ◌≡◌, ◌≢◌, ◌⊎◌, refl, sym, ap, ◌∙◌, inl, inr, String, Bool, true,
  false, not, ◌&&◌, ◌||◌, List, [], ◌∷◌, ◌++◌, Option, none, some, arith, ◌==◌, nat_eq, string_eq,
  if◌then◌else◌, ltb, leb, length, take, Bool-cases, eq_cases, beq_ne, beq_refl,
}
use arcade.Prelude.Map.{Map, lookup, insert, lookup-insert, lookup-insert_self, lookup-insert_ne}
use arcade.Models.Status.{Status, status_eq}
use arcade.Pebble.Ops.{Io, Error, context_cancelled, read_error, write_error, Outcome, ok, err}
pub mod Delivery
pub mod Race

pub record Submission : Type 0 where
  pub submission_id : String
  pub tx_id : String
  pub callback_url : String
  pub callback_token : String
  pub full_status_updates : Bool
  pub last_delivered_status : Status
  pub retry_count : ℕ
  pub next_retry_at : ℕ
  pub attempts : ℕ
  pub last_attempt_at : ℕ
  pub last_result : String
  pub created_at : ℕ

-- The rows, as far as they parse, and the two indexes, each an index value with a submission's id.
pub record Submissions : Type 0 where
  pub subs : Map String (Option Submission)
  pub by_tx : List (String × String)
  pub by_token : List (String × String)

-- Setting a key of an index that is there changes nothing.
abbrev pub has_entry : String → String → List (String × String) → Bool
has_entry k id [] = false
has_entry k id ((j, i) ∷ rest) = (j == k && i == id) || has_entry k id rest

unfoldable pub add_entry : String → String → List (String × String) → List (String × String)
add_entry k id entries =
    if k == "" || has_entry k id entries then entries else entries ++ (k, id) ∷ []

-- What an insertion stores: the retry time and the bookkeeping of attempts start at zero.
unfoldable pub inserted_row : Submission → Submission
inserted_row sub = record sub {
  next_retry_at = 0;
  attempts = 0;
  last_attempt_at = 0;
  last_result = "";
}

unfoldable pub insert_submission : Io → Submission → Submissions → Submissions × Outcome {0} Unit
insert_submission io sub s =
    if io.cancelled
    then (s, err context_cancelled)
    else if io.write_fails
    then (s, err write_error)
    else (
      record {
        subs = insert sub.submission_id (some (inserted_row sub)) s.subs;
        by_tx = add_entry sub.tx_id sub.submission_id s.by_tx;
        by_token = add_entry sub.callback_token sub.submission_id s.by_token;
      },
      ok tt,
    )

-- Check the context, read the row, and go on with it; a row that does not parse is a read error.
unfoldable pub with_submission :
    {A : Type 0}
    → Io
    → Option (Option Submission)
    → Submissions
    → A
    → (Submission → Submissions × Outcome A)
    → Submissions × Outcome A
with_submission io found s missing next =
    if io.cancelled
    then (s, err context_cancelled)
    else if io.read_fails
    then (s, err read_error)
    else elim found [
      | none ↦ (s, ok missing)
      | some row ↦ elim row [ none ↦ (s, err read_error) | some r ↦ next r ]
    ]

unfoldable pub write_submission :
    {A : Type 0} → Io → String → Submission → A → Submissions → Submissions × Outcome A
write_submission io id row a s =
    if io.write_fails
    then (s, err write_error)
    else (record s { subs = insert id (some row) s.subs }, ok a)

unfoldable pub delivery_row : Status → ℕ → ℕ → Submission → Submission
delivery_row last count next r = record r {
  last_delivered_status = last;
  retry_count = count;
  next_retry_at = next;
}

unfoldable pub update_delivery_status :
    Io → String → Status → ℕ → ℕ → Submissions → Submissions × Outcome {0} Unit
update_delivery_status io id last count next s =
    with_submission io (lookup id s.subs) s tt
      (λ r. write_submission io id (delivery_row last count next r) tt s)

-- The read of RecordDeliveryAttempt and of UpdateDeliveryStatus, and the write of a row that was read.
unfoldable pub read_submission : Io → String → Submissions → Outcome (Option Submission)
read_submission io id s =
    if io.cancelled
    then err context_cancelled
    else if io.read_fails
    then err read_error
    else elim (lookup id s.subs) [
      | none ↦ ok none
      | some row ↦ elim row [ none ↦ err read_error | some r ↦ ok (some r) ]
    ]

unfoldable pub write_back :
    Io
    → String
    → (Submission → Submission)
    → Outcome (Option Submission)
    → Submissions
    → Submissions × Outcome {0} Unit
write_back io id f (err e) s = (s, err e)
write_back io id f (ok none) s = (s, ok tt)
write_back io id f (ok (some r)) s = write_submission io id (f r) tt s

unfoldable pub attempt_row : ℕ → String → Submission → Submission
attempt_row at result r = record r {
  attempts = r.attempts + 1;
  last_attempt_at = at;
  last_result = result;
}

unfoldable pub record_delivery_attempt :
    Io → String → ℕ → String → Submissions → Submissions × Outcome {0} Unit
record_delivery_attempt io id at result s =
    with_submission io (lookup id s.subs) s tt
      (λ r. write_submission io id (attempt_row at result r) tt s)

unfoldable pub claimed_row : Status → Submission → Submission
claimed_row next r = record r { last_delivered_status = next; retry_count = 0; next_retry_at = 0 }

unfoldable pub claim_found :
    Io → String → Status → Status → Submissions → Submission → Submissions × Outcome Bool
claim_found io id expected next s r =
    if r.last_delivered_status == expected
    then write_submission io id (claimed_row next r) true s
    else (s, ok false)

unfoldable pub update_delivery_status_cas :
    Io → String → Status → Status → Submissions → Submissions × Outcome Bool
update_delivery_status_cas io id expected next s =
    with_submission io (lookup id s.subs) s false (claim_found io id expected next s)

-- The rows that an index walk loads: it stops with an error once it has `limit` of them, and a row that
-- is gone or does not parse is passed over. A limit of 0 is none; reading never fails here.
unfoldable pub collect :
    ℕ
    → Map String (Option Submission)
    → List (String × String)
    → String
    → List Submission
    → Option (List Submission)
collect limit subs [] key acc = some acc
collect limit subs ((k, id) ∷ rest) key acc =
    let skipped = collect limit subs rest key acc in
    if k == key
    then elim (lookup id subs) [
      | none ↦ skipped
      | some row ↦ elim row [
        | none ↦ skipped
        | some r ↦
            let taken = collect limit subs rest key (acc ++ r ∷ []) in
            if ltb 0 limit && leb limit (length acc) then none else taken
      ]
    ]
    else skipped

unfoldable pub get_submissions_by_txid : String → Submissions → Option (List Submission)
get_submissions_by_txid txid s = collect 0 s.subs s.by_tx txid []

unfoldable pub get_submissions_by_token : String → Submissions → Option (List Submission)
get_submissions_by_token token s = collect 0 s.subs s.by_token token []

abbrev pub max_token_replay_scan : ℕ
max_token_replay_scan = 250000

-- ListSubmissionsReadyForRetry: the rows to retry, the earliest first, at most `limit`.
unfoldable pub is_ready : ℕ → Submission → Bool
is_ready now r = ltb 0 r.retry_count && ltb 0 r.next_retry_at && leb r.next_retry_at now

unfoldable pub candidates : ℕ → Map String (Option Submission) → List Submission
candidates now [] = []
candidates now ((id, none) ∷ rest) = candidates now rest
candidates now ((id, some r) ∷ rest) =
    let others = candidates now rest in if is_ready now r then r ∷ others else others

unfoldable pub insert_by_retry : Submission → List Submission → List Submission
insert_by_retry r [] = r ∷ []
insert_by_retry r (x ∷ xs) =
    let rest = insert_by_retry r xs in
    if leb r.next_retry_at x.next_retry_at then r ∷ x ∷ xs else x ∷ rest

unfoldable pub sort_by_retry : List Submission → List Submission
sort_by_retry [] = []
sort_by_retry (r ∷ rest) = insert_by_retry r (sort_by_retry rest)

unfoldable pub list_submissions_ready_for_retry : ℕ → ℕ → Submissions → List Submission
list_submissions_ready_for_retry now limit s = take limit (sort_by_retry (candidates now s.subs))
