-- ===== src/Tests/Locks.antt =====
-- finality/finality.go and finality/mtp.go: a transaction that is locked until height 50, seen at 5.
use arcade.Prelude.{
  ℕ, ◌+◌, ◌-◌, ◌*◌, inr, ◌^◌, ◌≢◌, ◌⊎◌, arith, ◌≤◌, ◌<◌, ◌≡◌, ◌↔◌, refl, ap, subst, true, List, [],
  ◌∷◌, none, some,
}
use arcade.Finality.{
  Transaction, NotFinalError, final, remaining, all_sequences_final, is_transaction_final, clock,
  remaining_exact,
}
use arcade.Finality.Median.{insert_sorted, sort, median}
use arcade.Finality.Checker.{
  Poll, Sources, window, timestamps_of, window_median, is_fresh, store_median, read_tip,
  chain_state, new_checker, all_default, lock_time_irrelevant, check_state, check,
}
use arcade.Finality.Past.{headers_of}
use arcade.Finality.Soundness.{after, past, Follows, Rejected, check_rejects}

abbrev default_sequence : ℕ
default_sequence = 4294967295

abbrev locked : Transaction
locked = record { sequences = 0 ∷ []; lock_time = 50 }

abbrev locked_error : ℕ → NotFinalError
locked_error mtp = record {
  lock_time = 50;
  height_based = true;
  next_block_height = 6;
  median_time_past = mtp;
}

remaining_exact_example :
    (0 < remaining (locked_error 100))
    × ((is_transaction_final default_sequence locked 51 101 ≡ final) ↔ (
        clock default_sequence locked 6 100 + remaining (locked_error 100)
        ≤ clock default_sequence locked 51 101))
    × ((is_transaction_final default_sequence locked (2 ^ 32 - 1) (2 ^ 32 - 1) ≡ final)
        ↔ (50 ≢ 2 ^ 32 - 1))
    × ((50 ≢ 2 ^ 32 - 1) ⊎ (is_transaction_final default_sequence locked 51 101 ≢ final))
unfolding is_transaction_final all_sequences_final
remaining_exact_example =
    remaining_exact default_sequence locked 6 100 (locked_error 100) 51 101 (omega arith)
      (omega arith) (omega arith) refl

abbrev jumbled : List ℕ
jumbled = 3 ∷ 1 ∷ 2 ∷ []

abbrev ordered : List ℕ
ordered = 1 ∷ 2 ∷ 3 ∷ []

-- Blocks ten seconds apart: the median of the times 100 to 150 is 130.
abbrev block_time : ℕ → ℕ
block_time height = 100 + height * 10

abbrev seen_at : ℕ → Poll
seen_at now = record {
  now = now;
  view = record {
    tip = some (record { hash = "a"; height = 5 });
    headers = λ start count. some (headers_of block_time start count);
  };
  stored = now + 1;
}

seen_at-Follows : (now : ℕ) → Follows (λ hash. 5) (λ hash. block_time) (seen_at now)
seen_at-Follows now t e =
    (ap (λ o. elim o [ none ↦ 5 | some z ↦ z.height ]) e, λ start count. inr refl)

abbrev online : Sources
online = record { reader = some (seen_at 40); height_reader = none }

check_rejects_example :
    Rejected
      (past (λ hash. 5) (λ hash. block_time))
      15
      default_sequence
      (seen_at 3 ∷ [])
      online
      locked
      (locked_error 130)
unfolding check new_checker lock_time_irrelevant all_default check_state chain_state is_fresh
    read_tip store_median window_median window timestamps_of median sort insert_sorted after
    is_transaction_final all_sequences_final
check_rejects_example =
    check_rejects default_sequence (λ hash. 5) (λ hash. block_time) 15 (seen_at 3 ∷ []) online
      locked (locked_error 130) (seen_at-Follows 3, tt)
      (λ p e.
        subst (Follows (λ hash. 5) (λ hash. block_time))
          (ap (λ o. elim o [ none ↦ seen_at 40 | some z ↦ z ]) e) (seen_at-Follows 40))
      refl
