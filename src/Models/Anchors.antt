-- ===== src/Models/Anchors.antt =====
-- models/transaction.go: `OrphanedAnchor` and `AppendOrphanedAnchor`, the bounded history of the
-- blocks that a transaction was once mined in. store/pebble has the same algorithm over its own
-- record, so the algorithm is generic in the record and the projection to its block hash.
use arcade.Prelude.{
  ℕ, suc, ◌-◌, ◌+◌, ◌≤◌, String, ◌≡◌, ◌≢◌, refl, Bool, ◌&&◌, ◌||◌, true, false, List, [], ◌∷◌, ◌++◌,
  Option, none, some, arith, ◌==◌, string_eq, if◌then◌else◌, length, get_last?, drop, ltb,
}
pub mod Laws

pub record OrphanedAnchor : Type 0 where
  pub block_hash : String
  pub block_height : ℕ
  pub orphaned_at : ℕ
  pub merkle_path : List ℕ

abbrev pub max_orphaned_anchors : ℕ
max_orphaned_anchors = 5

-- The cap, `history[len(history)-MaxOrphanedAnchors:]` where it is exceeded.
unfoldable pub cap_history {ℓ} : {A : Type ℓ} → List A → List A
cap_history history =
    if ltb max_orphaned_anchors (length history)
    then drop (length history - max_orphaned_anchors) history
    else history

module _ {A : Type 0} (hash : A → String) where
  unfoldable pub same_last : List A → String → Bool
  same_last history h = elim (get_last? history) [ none ↦ false | some last ↦ hash last == h ]

  unfoldable pub append_anchor : List A → A → List A
  unfolding cap_history same_last
  append_anchor history anchor =
      if hash anchor == "" || same_last history (hash anchor)
      then history
      else cap_history (history ++ anchor ∷ [])

unfoldable pub append_orphaned_anchor : List OrphanedAnchor → OrphanedAnchor → List OrphanedAnchor
unfolding append_anchor
append_orphaned_anchor = append_anchor (λ a. a.block_hash)
