-- ===== src/Pebble/History.antt =====
-- store/pebble/pebble.go: the history of superseded anchors of a row.
use arcade.Prelude.{
  ℕ, String, ◌≡◌, ◌≢◌, refl, sym, ◌∙◌, ◌⊎◌, true, false, not, ◌&&◌, arith, ◌==◌, string_eq, length,
  ◌≤◌, subst,
}
use arcade.Models.Anchors.{max_orphaned_anchors, same_last}
use arcade.Models.Anchors.Laws.{append_anchor-last, length-append_anchor}
use arcade.Models.Status.{seen_on_network, mined, immutable, status_eq}
use arcade.Pebble.Row.{StoredStatus, StoredOrphanedAnchor, append_orphaned_anchor}
use arcade.Pebble.Index.{index_eq}
use arcade.Pebble.Ops.{mined_row, reverted_row}
use arcade.Pebble.Reorg.{after_revert}

-- The newest entry of a row's history is `hash`, and the history is within its bound.
abbrev pub Remembers : String → StoredStatus → Type 0
Remembers hash r =
    (same_last (λ (a : StoredOrphanedAnchor). a.block_hash) r.orphaned_anchors hash ≡ true)
    × (length r.orphaned_anchors ≤ max_orphaned_anchors)

append_orphaned_anchor-Remembers :
    (row : StoredStatus) (now : ℕ) (hash : String)
    → hash ≢ ""
    → row.block_hash ≡ hash
    → length row.orphaned_anchors ≤ max_orphaned_anchors
    → Remembers hash (append_orphaned_anchor row now)
unfolding append_orphaned_anchor
append_orphaned_anchor-Remembers row now hash n p l = (
  subst
      (λ h.
        same_last (λ (a : StoredOrphanedAnchor). a.block_hash)
          (append_orphaned_anchor row now).orphaned_anchors h
        ≡ true)
      p
      (append_anchor-last (λ (a : StoredOrphanedAnchor). a.block_hash) row.orphaned_anchors _
        (λ e. n (sym p ∙ e))),
  length-append_anchor (λ (a : StoredOrphanedAnchor). a.block_hash) row.orphaned_anchors _ l,
)

append_orphaned_anchor-status :
    (row : StoredStatus) (now : ℕ) → (append_orphaned_anchor row now).status ≡ row.status
unfolding append_orphaned_anchor
append_orphaned_anchor-status row now = refl

-- A row that is anchored to a block, whose hash is not empty, that is not IMMUTABLE and whose history
-- is within its bound, is SEEN_ON_NETWORK and without an anchor after a revert of the block, and the
-- block is the newest entry of its history, which is within its bound.
reverted_row_keeps_proof :
    (now : ℕ) (hash : String) (e : StoredStatus)
    → hash ≢ ""
    → e.block_hash ≡ hash
    → e.status ≢ immutable
    → length e.orphaned_anchors ≤ max_orphaned_anchors
    → let r = after_revert now hash e in
      (r.status ≡ seen_on_network) × (r.block_hash ≡ "") × (r.block_height ≡ 0) × Remembers hash r
unfolding after_revert reverted_row
reverted_row_keeps_proof now hash e n p i l = rw guard (
  append_orphaned_anchor-status _ now,
  refl,
  refl,
  append_orphaned_anchor-Remembers _ now hash n p l,
)
  where
    guard : (e.block_hash == hash && not (e.status == immutable)) ≡ true
    guard =
        ground (arith, string_eq.beq_iff e.block_hash hash, status_eq.beq_iff e.status immutable)

-- A MINED row that is anchored to another block, and whose history is within its bound, gets the new
-- anchor and stays MINED, and the block that it was anchored to becomes the newest entry of its
-- history, which is within its bound.
mined_row_keeps_proof :
    (now : ℕ) (hash : String) (height : ℕ) (e : StoredStatus)
    → e.status ≡ mined
    → e.block_hash ≢ hash
    → e.block_hash ≢ ""
    → length e.orphaned_anchors ≤ max_orphaned_anchors
    → let r = mined_row now hash height e in
      (r.status ≡ mined)
      × (r.block_hash ≡ hash)
      × (r.block_height ≡ height)
      × Remembers e.block_hash r
unfolding mined_row
mined_row_keeps_proof now hash height e m d n l =
    (refl, refl, refl, rw moved (append_orphaned_anchor-Remembers e now _ n refl l))
  where
    moved : (e.status == mined && not (e.block_hash == hash)) ≡ true
    moved = ground (arith, string_eq.beq_iff e.block_hash hash, status_eq.beq_iff e.status mined)

-- The same anchor again, or a row that was not MINED, leaves the history as it was.
mined_row-same_history :
    (now : ℕ) (hash : String) (height : ℕ) (e : StoredStatus)
    → (e.status ≢ mined) ⊎ (e.block_hash ≡ hash)
    → (mined_row now hash height e).orphaned_anchors ≡ e.orphaned_anchors
unfolding mined_row
mined_row-same_history now hash height e k = rw stayed
  where
    stayed : (e.status == mined && not (e.block_hash == hash)) ≡ false
    stayed = ground (arith, string_eq.beq_iff e.block_hash hash, status_eq.beq_iff e.status mined)
