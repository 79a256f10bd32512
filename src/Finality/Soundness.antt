-- ===== src/Finality/Soundness.antt =====
-- finality/mtp.go: what the checker rejects is locked at a tip that was shown to it lately.
use arcade.Prelude.{
  ℕ, ◌+◌, ◌%◌, ◌^◌, ◌<◌, ◌≡◌, ◌⊎◌, refl, ap, ◌∙◌, inl, inr, String, false, not, ◌&&◌, List, [], ◌∷◌,
  Option, none, some, arith, ◌==◌, nat_eq, string_eq, All, All-mono, Bool-cases, beq→eq,
}
use arcade.Finality.{
  Transaction, not_final, NotFinalError, lock_time_threshold, is_transaction_final,
}
use arcade.Finality.Past.{Reads, median_time_past, window_median-median_time_past}
use arcade.Finality.Checker.{
  Tip, Snapshot, State, Poll, Sources, window_median, is_fresh, store_median, read_tip, chain_state,
  next_height_u32, zero_state, check_height_only, check_state, check, new_checker, note_unavailable,
  lock_time_irrelevant,
}

-- The readings of a checker, the newest first.
unfoldable pub after : ℕ → List Poll → State
after ttl [] = zero_state
after ttl (p ∷ older) = (chain_state ttl p (after ttl older)).0

-- The tip that a reading shows.
abbrev pub tip_hash_of : Poll → Option String
tip_hash_of p = elim (p.view.tip) [ none ↦ none | some t ↦ some (t.hash) ]

-- One of the readings showed this tip and was stored at this time.
abbrev pub Shown : List Poll → String → ℕ → Type 0
Shown [] hash at = ⊥
Shown (p ∷ older) hash at = ((tip_hash_of p ≡ some hash) × (p.stored ≡ at)) ⊎ Shown older hash at

-- Every reading that shows a tip has its height, and where it has the headers of its window, their
-- median.
abbrev pub Commits : (String → ℕ × ℕ) → Poll → Type 0
Commits chain p =
    (t : Tip)
    → p.view.tip ≡ some t
    → ((chain t.hash).0 ≡ t.height)
      × ((m : ℕ) → window_median p.view t ≡ some m → (chain t.hash).1 ≡ m)

-- What is kept is nothing, or what the chain has below a tip that was shown when it was kept.
record IsFaithful (chain : String → ℕ × ℕ) (log : List Poll) (snap : Snapshot) : Type 0 where
  agrees : (snap.fetched_at == 0) ≡ false → chain snap.tip_hash ≡ (snap.tip_height, snap.mtp)
  shown : (snap.fetched_at == 0) ≡ false → Shown log snap.tip_hash snap.fetched_at

module _ (chain : String → ℕ × ℕ) (ttl : ℕ) where
  -- An answer is what the chain has below some tip, which this reading shows or which an earlier
  -- one showed, shortly before.
  abbrev Answers : List Poll → Poll → ℕ × ℕ → Type 0
  Answers log p hm =
      (hash : String) × (chain hash ≡ hm)
      × ((tip_hash_of p ≡ some hash) ⊎ ((at : ℕ) × Shown log hash at × (p.now < at + ttl)))

  abbrev Right : List Poll → Poll → Option (ℕ × ℕ) → Type 0
  Right log p none = Unit
  Right log p (some hm) = Answers log p hm

  module _ (log : List Poll) (p : Poll) (st : State) (v : IsFaithful chain log st.snap) where
    weaken : IsFaithful chain (p ∷ log) st.snap
    weaken = record { agrees = v.agrees; shown = λ h. inr (v.shown h) }

    -- The reading keeps the snapshot faithful, and its answer, if any, is right.
    abbrev Good : State × Option (ℕ × ℕ) → Type 0
    Good (st', answer) = IsFaithful chain (p ∷ log) st'.snap × Right log p answer

    module _ (c : Commits chain p) where
      store_median-Good :
          (tip : Tip)
          → p.view.tip ≡ some tip
          → (o : Option ℕ) → window_median p.view tip ≡ o
          → Good (store_median p tip st o)
      unfolding store_median note_unavailable
      store_median-Good tip e none w = (weaken, tt)
      store_median-Good tip e (some m) w = (
        record { agrees = λ h. pair; shown = λ h. inl (shows, refl) },
        (tip.hash, pair, inl shows),
      )
        where
          pair : chain tip.hash ≡ (tip.height, m)
          pair = ground (arith, (c tip e).0, (c tip e).1 m w)

          shows : tip_hash_of p ≡ some (tip.hash)
          shows = ap (λ o. elim o [ none ↦ none | some t ↦ some (t.hash) ]) e

      same_tip-Good :
          (tip : Tip)
          → p.view.tip ≡ some tip
          → tip.hash ≡ st.snap.tip_hash
          → (st.snap.fetched_at == 0) ≡ false
          → Good (
            record st { snap = record (st.snap) { fetched_at = p.stored } },
            some (st.snap.tip_height, st.snap.mtp),
          )
      same_tip-Good tip e q kept = (
        record { agrees = λ h. v.agrees kept; shown = λ h. inl (shows, refl) },
        (st.snap.tip_hash, v.agrees kept, inl shows),
      )
        where
          shows : tip_hash_of p ≡ some (st.snap.tip_hash)
          shows = ap (λ o. elim o [ none ↦ none | some t ↦ some (t.hash) ]) e ∙ ap some q

      read_tip-Good : (o : Option Tip) → p.view.tip ≡ o → Good (read_tip p st o)
      unfolding read_tip note_unavailable
      read_tip-Good none e = (weaken, tt)
      read_tip-Good (some tip) e =
          elim (Bool-cases (tip.hash == st.snap.tip_hash && not (st.snap.fetched_at == 0))) [
            | inl f ↦ rw f (
                same_tip-Good tip e (beq→eq tip.hash st.snap.tip_hash (ground (arith, f)))
                  (ground (arith, f)))
            | inr f ↦ rw f (store_median-Good tip e (window_median p.view tip) refl)
          ]

      chain_state-Good : Good (chain_state ttl p st)
      unfolding chain_state is_fresh
      chain_state-Good = elim (Bool-cases (is_fresh ttl p.now st.snap)) [
        | inl f ↦ rw f (
          weaken,
          (
            st.snap.tip_hash,
            v.agrees (ground (arith, f)),
            inr (st.snap.fetched_at, v.shown (ground (arith, f)), ground (arith, f)),
          ),
        )
        | inr f ↦ rw f (read_tip-Good p.view.tip refl)
      ]

  after-IsFaithful :
      (log : List Poll) → All (Commits chain) log → IsFaithful chain log (after ttl log).snap
  unfolding after
  after-IsFaithful [] h = record {
    agrees = λ q. absurd (ground (arith, q));
    shown = λ q. absurd (ground (arith, q));
  }
  after-IsFaithful (p ∷ older) h =
      (chain_state-Good older p (after ttl older) (after-IsFaithful older h.1) h.0).0

-- Why a transaction may be rejected: by the chain below a tip that the reading shows or that an
-- earlier reading showed less than the time to live before, or by the store's height.
abbrev pub Rejected :
    (String → ℕ × ℕ) → ℕ → ℕ → List Poll → Sources → Transaction → NotFinalError → Type 0
Rejected chain ttl default_sequence log c tx e =
    ((p : Poll) × (c.reader ≡ some p)
      × (hm : ℕ × ℕ) × Answers chain ttl log p hm
      × (is_transaction_final default_sequence tx ((hm.0 + 1) % 2 ^ 32) hm.1 ≡ not_final e))
    ⊎ ((height : ℕ) × (c.height_reader ≡ some (some height))
        × (0 < height)
        × (tx.lock_time < lock_time_threshold)
        × (is_transaction_final default_sequence tx (next_height_u32 height) 0 ≡ not_final e))

module _ (default_sequence : ℕ) (chain : String → ℕ × ℕ) (ttl : ℕ) (log : List Poll) where
  check_height_only-rejects :
      (reader : Option Poll) (hr : Option (Option ℕ)) (tx : Transaction) (st : State)
      (e : NotFinalError)
      → (check_height_only default_sequence
          (record { reader = reader; height_reader = hr })
          tx
          st).1
        ≡ not_final e
      → Rejected chain ttl default_sequence log
          (record { reader = reader; height_reader = hr })
          tx
          e
  unfolding check_height_only
  check_height_only-rejects reader none tx st e h = absurd (ground (arith, h))
  check_height_only-rejects reader (some none) tx st e h = absurd (ground (arith, h))
  check_height_only-rejects reader (some (some height)) tx st e h =
      inr (height, refl, ground (arith, h), ground (arith, h), ground (arith, h))

  check_state-rejects :
      (p : Poll) (hr : Option (Option ℕ)) (tx : Transaction) (e : NotFinalError)
      (r : State × Option (ℕ × ℕ))
      → Right chain ttl log p r.1
      → (check_state default_sequence (record { reader = some p; height_reader = hr }) tx r).1
        ≡ not_final e
      → Rejected chain ttl default_sequence log
          (record { reader = some p; height_reader = hr })
          tx
          e
  unfolding check_state
  check_state-rejects p hr tx e (st, none) a h = check_height_only-rejects (some p) hr tx st e h
  check_state-rejects p hr tx e (st, some hm) a h = inl (p, refl, hm, a, h)

  checked-rejects :
      (reader : Option Poll) (hr : Option (Option ℕ)) (tx : Transaction) (e : NotFinalError)
      → All (Commits chain) log
      → ((p : Poll) → reader ≡ some p → Commits chain p)
      → let c : Sources = record { reader = reader; height_reader = hr } in
        (check default_sequence ttl (new_checker c) tx (after ttl log)).1 ≡ not_final e
        → Rejected chain ttl default_sequence log c tx e
  unfolding new_checker check
  checked-rejects none none tx e hl hp h = absurd (ground (arith, h))
  checked-rejects none (some a) tx e hl hp h =
      elim (Bool-cases (lock_time_irrelevant default_sequence tx)) [
        | inl f ↦ absurd (ground (arith, f, h))
        | inr f ↦ check_height_only-rejects none (some a) tx (after ttl log) e (rw f at h)
      ]
  checked-rejects (some p) hr tx e hl hp h =
      elim (Bool-cases (lock_time_irrelevant default_sequence tx)) [
        | inl f ↦ absurd (ground (arith, f, h))
        | inr f ↦
            check_state-rejects p hr tx e (chain_state ttl p (after ttl log))
              (chain_state-Good chain ttl log p (after ttl log) (after-IsFaithful chain ttl log hl)
                (hp p refl)).1
              (rw f at h)
      ]

-- The height of a tip, and the median time past of the chain below it.
abbrev pub past : (String → ℕ) → (String → ℕ → ℕ) → String → ℕ × ℕ
past heights times hash = (heights hash, median_time_past (times hash) (heights hash))

-- A block hash commits to the chain below it: a reading that shows a tip has its height, and reads
-- the headers of its chain, or fails to.
abbrev pub Follows : (String → ℕ) → (String → ℕ → ℕ) → Poll → Type 0
Follows heights times p =
    (t : Tip)
    → p.view.tip ≡ some t
    → (heights t.hash ≡ t.height) × Reads (times t.hash) p.view.headers

module _ (default_sequence : ℕ) (heights : String → ℕ) (times : String → ℕ → ℕ) (ttl : ℕ)
    (log : List Poll) where
  Follows-Commits : (p : Poll) → Follows heights times p → Commits (past heights times) p
  Follows-Commits p f t e = (
    (f t e).0,
    λ m w.
        ap (median_time_past (times t.hash)) (f t e).0
        ∙ window_median-median_time_past (times t.hash) p.view t m (f t e).1 w,
  )

  -- Where block hashes commit to the heights and the block times of the chain below them, readers of a tip
  -- show these or fail, and whatever a checker read before: it rejects a transaction only if the lock-time
  -- rule does, at the next height and the median of the last eleven block times of the chain below
  -- a tip that this reading shows or that an earlier one showed less than the time to live ago, or, on a
  -- height lock, at the height of the store.
  pub check_rejects :
      (c : Sources) (tx : Transaction) (e : NotFinalError)
      → All (Follows heights times) log
      → ((p : Poll) → c.reader ≡ some p → Follows heights times p)
      → (check default_sequence ttl (new_checker c) tx (after ttl log)).1 ≡ not_final e
      → Rejected (past heights times) ttl default_sequence log c tx e
  check_rejects c tx e hl hp h =
      checked-rejects default_sequence (past heights times) ttl log c.reader c.height_reader tx e
        (All-mono (Follows heights times) (Commits (past heights times)) log Follows-Commits hl)
        (λ p q. Follows-Commits p (hp p q)) h
