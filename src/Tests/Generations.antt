-- ===== src/Tests/Generations.antt =====
-- store/pebble/pebble.go: a block that is orphaned, judged, reactivated and orphaned again.
use arcade.Prelude.{◌≡◌, refl, String, List, [], ◌∷◌, some, arith, string_eq}
use arcade.Prelude.Map.{lookup}
use arcade.Pebble.Ops.{Io}
use arcade.Pebble.Blocks.{
  StoredBlock, Blocks, orphaned, with_block, mark_block_reconciled, requeue_orphaned_block,
  reactivate_block,
}
use arcade.Pebble.Blocks.Marked.{Call, orphan, reactivate, header_seen, call, calls}
use arcade.Pebble.Blocks.Heights.{IsIndexed, calls-IsIndexed}
use arcade.Pebble.Blocks.Generations.{fine, stale_generation}

abbrev judged : StoredBlock
judged = record {
  block_hash = "b";
  block_height = 5;
  header_seen_ns = 1;
  processed_ns = 2;
  bump_built_ns = 3;
  status = orphaned;
  orphaned_at_ns = 10;
  reconciled_at_ns = 0;
}

abbrev one_block : Blocks
one_block = record { rows = ("b", judged) ∷ []; heights = (5, "b") ∷ [] }

one_block-keyed :
    (k : String) (b : StoredBlock) → lookup k one_block.rows ≡ some b → b.block_hash ≡ k
unfolding lookup
one_block-keyed k b h = ground (arith, string_eq.beq_iff "b" k, h)

one_block-found : lookup "b" one_block.rows ≡ some judged
unfolding lookup
one_block-found = refl

abbrev later : List (Io × String × Call)
later =
    (fine, "b", reactivate 5 (some 11))
    ∷ (fine, "b", header_seen 6 20)
    ∷ (fine, "b", orphan 10)
    ∷ []

stale_generation_example :
    let s' = calls later (call fine "b" (orphan 10) one_block) in
    ((with_block fine "b" (mark_block_reconciled (some 10) 30) s').0 ≡ s')
    × ((with_block fine "b" (requeue_orphaned_block (some 10)) s').0 ≡ s')
    × ((with_block fine "b" (reactivate_block 7 (some 10)) s').0 ≡ s')
stale_generation_example =
    stale_generation "b" 10 7 30 judged one_block later fine
      (record {
        keyed = one_block-keyed;
        row = judged;
        found = one_block-found;
        at_least = omega arith;
      })
      one_block-found refl

no_blocks-IsIndexed : IsIndexed (record { rows = []; heights = [] })
unfolding lookup
no_blocks-IsIndexed = record { keyed = λ h b e. absurd (ground (arith, e)); indexed = λ k h. refl }

-- A header at height 5, and the same block at height 6.
calls-IsIndexed_example : IsIndexed (
    calls
      ((fine, "b", header_seen 5 1) ∷ (fine, "b", header_seen 6 2) ∷ [])
      (record { rows = []; heights = [] }))
calls-IsIndexed_example =
    calls-IsIndexed ((fine, "b", header_seen 5 1) ∷ (fine, "b", header_seen 6 2) ∷ [])
      (record { rows = []; heights = [] }) no_blocks-IsIndexed
