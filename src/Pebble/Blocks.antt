-- ===== src/Pebble/Blocks.antt =====
-- store/pebble/pebble.go: the operations on block-processing rows. A time is its nanoseconds, 0 when it
-- is not set; a generation that the caller leaves open, the zero time, is `none`. The shard lock
-- makes each turn atomic.
use arcade.Prelude.{
  ℕ, ◌+◌, String, Bool, true, false, ◌&&◌, ◌||◌, not, List, [], ◌∷◌, Option, none, some, ◌==◌,
  string_eq, nat_eq, if◌then◌else◌, ltb, leb, keep, IsEq, ◌≡◌, ◌↔◌, arith, refl,
}
use arcade.Prelude.Map.{Map, lookup, insert}
use arcade.Pebble.Ops.{Io, Error, context_cancelled, read_error, write_error, Outcome, ok, err}
pub mod Marked
pub mod Generations
pub mod Heights

-- models/block.go: BlockProcessingStatusValue
pub data BlockStatus : Type 0 where
  active orphaned parked : BlockStatus

abbrev pub block_status_beq : BlockStatus → BlockStatus → Bool
block_status_beq active active = true
block_status_beq orphaned orphaned = true
block_status_beq parked parked = true
block_status_beq _ _ = false

pub block_status_beq_iff : (a b : BlockStatus) → (block_status_beq a b ≡ true) ↔ (a ≡ b)
block_status_beq_iff _ _ = ground arith

instance abbrev pub block_status_eq : IsEq BlockStatus
block_status_eq = record { beq = block_status_beq; beq_iff = block_status_beq_iff }

-- storedBlockProcessing
pub record StoredBlock : Type 0 where
  pub block_hash : String
  pub block_height : ℕ
  pub header_seen_ns : ℕ
  pub processed_ns : ℕ
  pub bump_built_ns : ℕ
  pub status : BlockStatus
  pub orphaned_at_ns : ℕ
  pub reconciled_at_ns : ℕ

-- The generation that toModel shows: only an orphaned row's.
unfoldable pub shown_generation : StoredBlock → Option ℕ
shown_generation b =
    if not (b.orphaned_at_ns == 0) && b.status == orphaned then some b.orphaned_at_ns else none

pub record Blocks : Type 0 where
  pub rows : Map String StoredBlock
  pub heights : List (ℕ × String)

unfoldable pub entry_beq : ℕ × String → ℕ × String → Bool
entry_beq (h, b) (k, c) = h == k && b == c

unfoldable pub set_entry : ℕ × String → List (ℕ × String) → List (ℕ × String)
set_entry e [] = e ∷ []
set_entry e (f ∷ es) = if entry_beq f e then e ∷ es else f ∷ set_entry e es

unfoldable pub delete_entry : ℕ × String → List (ℕ × String) → List (ℕ × String)
delete_entry e es = keep (λ f. not (entry_beq f e)) es

-- The batch of writeBlockProc: an index entry at another height goes, the row and its entry are set.
unfoldable pub write_block_proc : Option StoredBlock → StoredBlock → Blocks → Blocks
write_block_proc none cur s = record {
  rows = insert cur.block_hash cur s.rows;
  heights = set_entry (cur.block_height, cur.block_hash) s.heights;
}
write_block_proc (some prev) cur s = record {
  rows = insert cur.block_hash cur s.rows;
  heights =
      set_entry (cur.block_height, cur.block_hash)
        (if prev.block_height == cur.block_height
          then s.heights
          else delete_entry (prev.block_height, prev.block_hash) s.heights);
}

-- What a turn does with the row that it read: leave it, or write, and its result.
pub data Turn {ℓ} (A : Type ℓ) : Type ℓ where
  leave : A → Turn A
  write : StoredBlock → A → Turn A

unfoldable pub finish {ℓ} :
    {A : Type ℓ} → Io → Option StoredBlock → Turn A → Blocks → Blocks × Outcome A
finish io prev (leave a) s = (s, ok a)
finish io prev (write cur a) s =
    if io.write_fails then (s, err write_error) else (write_block_proc prev cur s, ok a)

-- The shape that the operations share: the context, the lock, readBlockProc, and the turn.
unfoldable pub with_block {ℓ} :
    {A : Type ℓ} → Io → String → (Option StoredBlock → Turn A) → Blocks → Blocks × Outcome A
with_block io block_hash turn s =
    if io.cancelled
    then (s, err context_cancelled)
    else if io.read_fails
    then (s, err read_error)
    else (let prev = lookup block_hash s.rows in finish io prev (turn prev) s)

-- UpsertBlockHeaderSeen
unfoldable pub upsert_block_header_seen : String → ℕ → ℕ → Option StoredBlock → Turn (Unit {0})
upsert_block_header_seen block_hash block_height seen_at none =
    write
      (record {
        block_hash = block_hash;
        block_height = block_height;
        header_seen_ns = seen_at;
        processed_ns = 0;
        bump_built_ns = 0;
        status = active;
        orphaned_at_ns = 0;
        reconciled_at_ns = 0;
      })
      tt
upsert_block_header_seen block_hash block_height seen_at (some prev) =
    write
      (record {
        block_hash = block_hash;
        block_height = block_height;
        header_seen_ns = if prev.header_seen_ns == 0 then seen_at else prev.header_seen_ns;
        processed_ns = prev.processed_ns;
        bump_built_ns = prev.bump_built_ns;
        status = active;
        orphaned_at_ns = prev.orphaned_at_ns;
        reconciled_at_ns = 0;
      })
      tt

-- MarkBlockProcessed
unfoldable pub mark_block_processed : String → ℕ → ℕ → Option StoredBlock → Turn (Unit {0})
mark_block_processed block_hash block_height processed_at none =
    write
      (record {
        block_hash = block_hash;
        block_height = block_height;
        header_seen_ns = processed_at;
        processed_ns = processed_at;
        bump_built_ns = 0;
        status = active;
        orphaned_at_ns = 0;
        reconciled_at_ns = 0;
      })
      tt
mark_block_processed block_hash block_height processed_at (some prev) =
    write (record prev { block_hash = block_hash; processed_ns = processed_at }) tt

-- ClearBlockProcessed
unfoldable pub clear_block_processed : Option StoredBlock → Turn (Unit {0})
clear_block_processed none = leave tt
clear_block_processed (some prev) = write (record prev { processed_ns = 0 }) tt

-- MarkBlockBUMPBuilt
unfoldable pub mark_block_bump_built : String → ℕ → ℕ → Option StoredBlock → Turn (Unit {0})
mark_block_bump_built block_hash block_height built_at none =
    write
      (record {
        block_hash = block_hash;
        block_height = block_height;
        header_seen_ns = built_at;
        processed_ns = 0;
        bump_built_ns = built_at;
        status = active;
        orphaned_at_ns = 0;
        reconciled_at_ns = 0;
      })
      tt
mark_block_bump_built block_hash block_height built_at (some prev) =
    write (record prev { block_hash = block_hash; bump_built_ns = built_at }) tt

-- mintOrphanGeneration
unfoldable pub mint_orphan_generation : ℕ → ℕ → ℕ
mint_orphan_generation prev want = if leb want prev then prev + 1 else want

-- One turn of the loop of MarkBlocksOrphaned; the result counts the transition.
unfoldable pub mark_block_orphaned : ℕ → Option StoredBlock → Turn ℕ
mark_block_orphaned gen none = leave 0
mark_block_orphaned gen (some prev) =
    let was_orphaned = prev.status == orphaned in
    if was_orphaned && ltb gen prev.orphaned_at_ns
    then leave 0
    else write
        (record prev {
          status = orphaned;
          orphaned_at_ns = mint_orphan_generation prev.orphaned_at_ns gen;
          reconciled_at_ns = 0;
        })
        (if was_orphaned then 0 else 1)

-- The guard of the three compare-and-set operations.
unfoldable pub holds_generation : Option ℕ → StoredBlock → Bool
holds_generation token b =
    b.status == orphaned && elim token [ none ↦ true | some g ↦ b.orphaned_at_ns == g ]

-- MarkBlockReconciled
unfoldable pub mark_block_reconciled : Option ℕ → ℕ → Option StoredBlock → Turn Bool
mark_block_reconciled token at none = leave false
mark_block_reconciled token at (some prev) =
    if holds_generation token prev
    then write (record prev { reconciled_at_ns = at }) true
    else leave false

-- RequeueOrphanedBlock
unfoldable pub requeue_orphaned_block : Option ℕ → Option StoredBlock → Turn Bool
requeue_orphaned_block token none = leave false
requeue_orphaned_block token (some prev) =
    if holds_generation token prev
    then (if prev.reconciled_at_ns == 0
        then leave true
        else write (record prev { reconciled_at_ns = 0 }) true)
    else leave false

-- ReactivateBlock
unfoldable pub reactivate_block : ℕ → Option ℕ → Option StoredBlock → Turn Bool
reactivate_block block_height token none = leave false
reactivate_block block_height token (some prev) =
    if holds_generation token prev
    then write (record prev { block_height = block_height; status = active; reconciled_at_ns = 0 })
        true
    else leave false

-- One turn of the loop of MarkBlocksParked.
unfoldable pub mark_block_parked : Option StoredBlock → Turn ℕ
mark_block_parked none = leave 0
mark_block_parked (some prev) =
    if prev.status == active then write (record prev { status = parked }) 0 else leave 0

-- A loop over block hashes, up to the first error: the sum of the results, and the error.
unfoldable pub each_block :
    (String → Io) → (Option StoredBlock → Turn ℕ) → List String → Blocks → Blocks × ℕ × Option Error
each_block io turn [] s = (s, 0, none)
each_block io turn (h ∷ hs) s =
    let (s', r) = with_block (io h) h turn s in
    elim r [
      | err e ↦ (s', 0, some e)
      | ok n ↦ let (s'', m, e) = each_block io turn hs s' in (s'', n + m, e)
    ]
