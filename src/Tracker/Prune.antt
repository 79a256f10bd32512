-- ===== src/Tracker/Prune.antt =====
-- store/tracker.go and store/trackerscan.go: what is deeply confirmed, in the scan and in the prune.
use arcade.Prelude.{
  ℕ, ◌+◌, ◌≡◌, refl, ap, inl, inr, Bool, true, false, not, ◌&&◌, ◌||◌, List, [], ◌∷◌, none, some,
  arith, ◌==◌, IsEq, if◌then◌else◌, ltb, leb, contains, Bool-cases, eq_cases,
}
use arcade.Prelude.Map.{Map, lookup, delete, lookup-delete}
use arcade.Models.Status.{Status, status_eq, mined, other, all_statuses, is_terminal}
use arcade.Tracker.{
  TrackedTx, confirmations_required, tracker_statuses, tracks_status, new_tracker_scan, keeps,
  is_confirmed, prune_entries, prune_confirmed,
}

-- The filter that the scan replaced: rows that are terminal but not mined go, and mined rows with
-- a height that is buried under the confirmations required.
unfoldable pub inline_filter : ℕ → Status → ℕ → Bool
inline_filter tip status block_height =
    (not (is_terminal status) || status == mined)
    && not
        (status == mined && ltb 0 block_height && leb (block_height + confirmations_required) tip)

tracks_status-rule :
    (status : Status)
    → contains all_statuses status ≡ true
    → tracks_status status ≡ (not (is_terminal status) || status == mined)
unfolding tracks_status tracker_statuses is_terminal
tracks_status-rule (other s) h = absurd (ground (arith, h))
tracks_status-rule _ h = refl

-- On a known tip and a status of the domain, the scan keeps what the filter kept.
keeps-inline_filter :
    (tip : ℕ) (status : Status) (block_height : ℕ)
    → contains all_statuses status ≡ true
    → keeps (new_tracker_scan tip true) status block_height ≡ inline_filter tip status block_height
unfolding keeps new_tracker_scan inline_filter
keeps-inline_filter tip status block_height h = ground (arith, tracks_status-rule status h)

module _ {Hash : Type 0} ⦃e : IsEq Hash⦄ where
  prune_entries-lookup :
      (current : ℕ) (es : List (Hash × TrackedTx)) (t : Map Hash TrackedTx) (c : Hash)
      → let (t', immutable) = prune_entries current es t in
        lookup c t' ≡ (if contains immutable c then none else lookup c t)
  unfolding prune_entries
  prune_entries-lookup current [] t c = refl
  prune_entries-lookup current ((hash, tx) ∷ es) t c = elim (Bool-cases (is_confirmed current tx)) [
    | inr b ↦ rw b (prune_entries-lookup current es t c)
    | inl b ↦
        rw b (
          ground (arith, prune_entries-lookup current es (delete hash t) c, lookup-delete hash c t))
  ]

  prune_entries-takes :
      (current : ℕ) (es : List (Hash × TrackedTx)) (t : Map Hash TrackedTx) (c : Hash)
      (tx : TrackedTx)
      → lookup c es ≡ some tx
      → is_confirmed current tx ≡ true
      → contains (prune_entries current es t).1 c ≡ true
  unfolding prune_entries lookup
  prune_entries-takes current [] t c tx h k = absurd (ground (arith, h))
  prune_entries-takes current ((hash, tx') ∷ es) t c tx h k =
      elim (Bool-cases (is_confirmed current tx')) [
        | inr b ↦ rw b (elim (eq_cases hash c) [
          | inl (q, x) ↦ absurd (ground (arith, b, k, same_confirmed tx' tx (rw q at h)))
          | inr (q, x) ↦ prune_entries-takes current es t c tx (rw q at h) k
        ])
        | inl b ↦ rw b (elim (eq_cases hash c) [
          | inl (q, x) ↦ rw q refl
          | inr (q, x) ↦ rw q (prune_entries-takes current es (delete hash t) c tx (rw q at h) k)
        ])
      ]
    where
      same_confirmed :
          (a b : TrackedTx) → some a ≡ some b → is_confirmed current a ≡ is_confirmed current b
      same_confirmed a b e = ap (λ o. elim o [ none ↦ false | some z ↦ is_confirmed current z ]) e

  -- A prune takes out the hashes that it returns, and no other, and leaves what the tracker holds of the rest as
  -- it is; a transaction that is tracked and deeply confirmed is among those returned, and gone.
  prune_confirmed-takes :
      (current : ℕ) (t : Map Hash TrackedTx) (c : Hash) (tx : TrackedTx)
      → lookup c t ≡ some tx
      → let (t', immutable) = prune_confirmed current t in
        ((d : Hash) → lookup d t' ≡ (if contains immutable d then none else lookup d t))
        × ((not (is_confirmed current tx) || contains immutable c) ≡ true)
        × ((if is_confirmed current tx then lookup c t' else none) ≡ none)
  unfolding prune_confirmed
  prune_confirmed-takes current t c tx h = (
    prune_entries-lookup current t t,
    ground (arith, prune_entries-takes current t t c tx h),
    ground (arith, prune_entries-takes current t t c tx h, prune_entries-lookup current t t c),
  )
