-- ===== src/Finality.antt =====
-- finality/finality.go: the lock-time rule that the intake applies, and the message of a rejection.
-- The transaction is the SDK's; the rule reads its lock time and the sequence numbers of its inputs.
-- `default_sequence` is the SDK's DefaultSequenceNumber.
use arcade.Prelude.{
  ℕ, ◌+◌, ◌-◌, ◌*◌, ◌/◌, ◌%◌, ◌^◌, ◌≢◌, ◌⊎◌, eq_cases, ◌≤◌, ◌<◌, ◌≡◌, ◌↔◌, refl, Bool, true, false,
  ◌&&◌, List, [], ◌∷◌, arith, ◌==◌, nat_eq, if◌then◌else◌, ltb, inl, inr, min,
}
pub mod Median
pub mod Checker
pub mod Past
pub mod Soundness

-- A 32-bit number.
abbrev pub IsWord : ℕ → Type 0
IsWord n = n < 2 ^ 32

-- The rule compares 32-bit numbers and adds to none of them, so that nothing wraps; `IsWord` says
-- where their range matters.
pub record Transaction : Type 0 where
  -- The sequence number of each input.
  pub sequences : List ℕ
  pub lock_time : ℕ

abbrev pub lock_time_threshold : ℕ
lock_time_threshold = 500000000

pub record NotFinalError : Type 0 where
  pub lock_time : ℕ
  pub height_based : Bool
  pub next_block_height : ℕ
  pub median_time_past : ℕ

-- What the rule returns: nil, the error on a transaction without inputs, or the typed error.
pub data Verdict : Type 0 where
  final : Verdict
  no_inputs : Verdict
  not_final : NotFinalError → Verdict

-- How a duration is rendered: "11m", "3h50m" or "3h", "2d4h" or "2d".
pub data Eta : Type 0 where
  in_minutes : ℕ → Eta
  in_hours : ℕ → ℕ → Eta
  in_days : ℕ → ℕ → Eta

unfoldable pub humanize_seconds : ℕ → Eta
humanize_seconds seconds =
    let minutes = (seconds + 59) / 60 in
    if ltb minutes 60
    then in_minutes minutes
    else if ltb minutes 1440
    then in_hours (minutes / 60) (minutes % 60)
    else in_days (minutes / 1440) ((minutes % 1440) / 60)

-- What remains, in blocks or in seconds, and the seconds that the message renders.
unfoldable pub remaining : NotFinalError → ℕ
remaining e =
    if e.height_based
    then e.lock_time + 1 - e.next_block_height
    else e.lock_time + 1 - e.median_time_past

unfoldable pub message_eta : NotFinalError → Eta
message_eta e = humanize_seconds (if e.height_based then remaining e * 600 else remaining e)

module _ (default_sequence : ℕ) where
  unfoldable pub all_sequences_final : Bool → List ℕ → Bool
  all_sequences_final acc [] = acc
  all_sequences_final acc (s ∷ rest) = all_sequences_final (acc && s == default_sequence) rest

  unfoldable pub is_transaction_final : Transaction → ℕ → ℕ → Verdict
  is_transaction_final tx next_height mtp = elim (tx.sequences) [
    | [] ↦ no_inputs
    | _ ∷ _ ↦
        if all_sequences_final true tx.sequences
        then final
        else if tx.lock_time == 0
        then final
        else if ltb tx.lock_time lock_time_threshold
        then if ltb tx.lock_time next_height
          then final
          else not_final (record {
            lock_time = tx.lock_time;
            height_based = true;
            next_block_height = next_height;
            median_time_past = mtp;
          })
        else if ltb tx.lock_time mtp
        then final
        else not_final (record {
          lock_time = tx.lock_time;
          height_based = false;
          next_block_height = next_height;
          median_time_past = mtp;
        })
  ]

  -- The clock that a lock time is read against.
  unfoldable pub clock : Transaction → ℕ → ℕ → ℕ
  clock tx height mtp = if ltb tx.lock_time lock_time_threshold then height else mtp

  -- What a rejection says of the transaction and of the tip that it was read at.
  module _ (tx : Transaction) (height mtp : ℕ) (e : NotFinalError)
      (h : is_transaction_final tx height mtp ≡ not_final e) where
    not_final-remaining : clock tx height mtp + remaining e ≡ tx.lock_time + 1
    unfolding is_transaction_final clock remaining
    not_final-remaining = ground (arith, h)

    not_final-clock : clock tx height mtp ≤ tx.lock_time
    unfolding is_transaction_final clock
    not_final-clock = ground (arith, h)

    not_final-later :
        (height' mtp' : ℕ)
        → (is_transaction_final tx height' mtp' ≡ final)
          ↔ (tx.lock_time + 1 ≤ clock tx height' mtp')
    unfolding is_transaction_final clock
    not_final-later height' mtp' = ground (arith, h)

  -- Of a rejected transaction, where its lock time and the clocks of a later tip are 32-bit: what the error
  -- reports as remaining is never zero; the transaction is accepted at the later tip exactly when the
  -- clock that its lock time is read against, the next height or the median time past, has advanced by
  -- at least that; and at the largest clocks it is accepted exactly where its lock time is not the
  -- largest 32-bit number, with which it is not accepted at the later tip either.
  pub remaining_exact :
      (tx : Transaction) (height mtp : ℕ) (e : NotFinalError) (height' mtp' : ℕ)
      → IsWord tx.lock_time
      → IsWord height'
      → IsWord mtp'
      → is_transaction_final tx height mtp ≡ not_final e
      → (0 < remaining e)
        × ((is_transaction_final tx height' mtp' ≡ final)
            ↔ (clock tx height mtp + remaining e ≤ clock tx height' mtp'))
        × ((is_transaction_final tx (2 ^ 32 - 1) (2 ^ 32 - 1) ≡ final)
            ↔ (tx.lock_time ≢ 2 ^ 32 - 1))
        × ((tx.lock_time ≢ 2 ^ 32 - 1) ⊎ (is_transaction_final tx height' mtp' ≢ final))
  unfolding clock
  remaining_exact tx height mtp e height' mtp' w wh wm h =
      let last = not_final-later tx height mtp e h (2 ^ 32 - 1) (2 ^ 32 - 1) in
      let later = not_final-later tx height mtp e h height' mtp' in
      (
        omega (arith, not_final-remaining tx height mtp e h, not_final-clock tx height mtp e h),
        rw (not_final-remaining tx height mtp e h) later,
        (λ q. ground (arith, last.0 q), λ q. last.1 (ground (arith, q))),
        elim (eq_cases tx.lock_time (2 ^ 32 - 1)) [
          | inl (b, q) ↦ inr (λ r. absurd (ground (arith, q, later.0 r)))
          | inr (b, q) ↦ inl q
        ],
      )

-- The seconds that a rendered duration reads as.
abbrev pub shown : Eta → ℕ
shown (in_minutes m) = m * 60
shown (in_hours h m) = h * 3600 + m * 60
shown (in_days d h) = d * 86400 + h * 3600

-- A rendered duration is less than a minute too long and less than an hour too short, and only no
-- duration is rendered as nothing.
pub humanize_seconds_close :
    (seconds : ℕ)
    → (shown (humanize_seconds seconds) < seconds + 60)
      × (seconds < shown (humanize_seconds seconds) + 3600)
      × (min 1 seconds ≤ shown (humanize_seconds seconds))
unfolding humanize_seconds
humanize_seconds_close seconds = ground arith
