-- ===== src/Pebble/Blocks/Generations.antt =====
-- store/pebble/pebble.go: the orphan generation of a block row is a high-water mark, so that a
-- compare-and-set with the generation of an earlier orphaning does nothing.
use arcade.Prelude.{
  ℕ, ◌+◌, ◌≤◌, ◌≡◌, refl, sym, ◌∙◌, ap, subst, inl, inr, String, false, ◌&&◌, List, Option, some,
  arith, ◌==◌, string_eq, nat_eq, ltb, Bool-cases,
}
use arcade.Prelude.Map.{lookup, insert, lookup-insert_self}
use arcade.Pebble.Ops.{Io}
use arcade.Pebble.Blocks.{
  orphaned, block_status_eq, StoredBlock, Blocks, Turn, leave, finish, with_block, write_block_proc,
  mint_orphan_generation, mark_block_orphaned, holds_generation, mark_block_reconciled,
  requeue_orphaned_block, reactivate_block,
}
use arcade.Pebble.Blocks.Marked.{
  Call, orphan, call, calls, Marked, mint-above, call-Marked, calls-Marked,
}

-- Nothing fails.
abbrev pub fine : Io
fine = record { cancelled = false; read_fails = false; write_fails = false }

-- The row of the new generation.
abbrev minted : ℕ → StoredBlock → StoredBlock
minted gen prev = record prev {
  status = orphaned;
  orphaned_at_ns = mint_orphan_generation prev.orphaned_at_ns gen;
  reconciled_at_ns = 0;
}

orphan-minted :
    (h : String) (gen : ℕ) (prev : StoredBlock) (s : Blocks)
    → lookup h s.rows ≡ some prev
    → prev.block_hash ≡ h
    → (prev.status == orphaned && ltb gen prev.orphaned_at_ns) ≡ false
    → lookup h (call fine h (orphan gen) s).rows ≡ some (minted gen prev)
unfolding call with_block finish write_block_proc mark_block_orphaned
orphan-minted h gen prev s e own free =
    subst
      (λ o. lookup h (finish fine o (mark_block_orphaned gen o) s).0.rows ≡ some (minted gen prev))
      (sym e)
      (rw free (
        subst (λ k. lookup h (insert k (minted gen prev) s.rows) ≡ some (minted gen prev)) (sym own)
          (lookup-insert_self h (minted gen prev) s.rows)))

-- An orphaning that is not overtaken by a newer one mints a generation above the row's.
orphaned-Marked :
    (h : String) (gen : ℕ) (prev : StoredBlock) (s : Blocks)
    → Marked h prev.orphaned_at_ns s
    → lookup h s.rows ≡ some prev
    → (prev.status == orphaned && ltb gen prev.orphaned_at_ns) ≡ false
    → Marked h (prev.orphaned_at_ns + 1) (call fine h (orphan gen) s)
orphaned-Marked h gen prev s v e free = record {
  keyed = (call-Marked fine h h prev.orphaned_at_ns (orphan gen) s v).keyed;
  row = minted gen prev;
  found = orphan-minted h gen prev s e (v.keyed h prev e) free;
  at_least = omega (arith, (mint-above prev.orphaned_at_ns gen).0);
}

with_block-leave {ℓ} :
    {A : Type ℓ} (io : Io) (h : String) (turn : Option StoredBlock → Turn A) (a : A) (s : Blocks)
    → turn (lookup h s.rows) ≡ leave a
    → (with_block io h turn s).0 ≡ s
unfolding with_block finish
with_block-leave io h turn a s e = elim (Bool-cases io.cancelled) [
  | inl c ↦ rw c refl
  | inr c ↦ rw c (elim (Bool-cases io.read_fails) [ inl r ↦ rw r refl | inr r ↦ rw r (rw e refl) ])
]

below-holds_generation :
    (g : ℕ) (b : StoredBlock) → g + 1 ≤ b.orphaned_at_ns → holds_generation (some g) b ≡ false
unfolding holds_generation
below-holds_generation g b h = ground (arith, h)

stale-leave :
    (g height at : ℕ) (b : StoredBlock)
    → g + 1 ≤ b.orphaned_at_ns
    → (mark_block_reconciled (some g) at (some b) ≡ leave false)
      × (requeue_orphaned_block (some g) (some b) ≡ leave false)
      × (reactivate_block height (some g) (some b) ≡ leave false)
unfolding mark_block_reconciled requeue_orphaned_block reactivate_block
stale-leave g height at b h = rw (below-holds_generation g b h) (refl, refl, refl)

-- A generation that a row had is never accepted again once the row was orphaned anew. Let every row
-- stand under its own hash, and the row of `h` have generation `g`; let an orphaning of `h` that a newer one
-- does not overtake succeed, and any calls on any blocks follow it, whether they fail or not. Then reconciling,
-- requeueing and reactivating `h` with generation `g` each leave the store as it is.
pub stale_generation :
    (h : String) (gen height at : ℕ) (prev : StoredBlock) (s : Blocks)
    (cs : List (Io × String × Call)) (io : Io)
    → Marked h prev.orphaned_at_ns s
    → lookup h s.rows ≡ some prev
    → (prev.status == orphaned && ltb gen prev.orphaned_at_ns) ≡ false
    → let s' = calls cs (call fine h (orphan gen) s) in
      ((with_block io h (mark_block_reconciled (some prev.orphaned_at_ns) at) s').0 ≡ s')
      × ((with_block io h (requeue_orphaned_block (some prev.orphaned_at_ns)) s').0 ≡ s')
      × ((with_block io h (reactivate_block height (some prev.orphaned_at_ns)) s').0 ≡ s')
stale_generation h gen height at prev s cs io v e free =
    let s' = calls cs (call fine h (orphan gen) s) in
    let w = calls-Marked h (prev.orphaned_at_ns + 1) cs _ (orphaned-Marked h gen prev s v e free) in
    let (a, b, c) = stale-leave prev.orphaned_at_ns height at w.row w.at_least in
    (
      with_block-leave io h _ false s'
          (ap (mark_block_reconciled (some prev.orphaned_at_ns) at) w.found ∙ a),
      with_block-leave io h _ false s'
          (ap (requeue_orphaned_block (some prev.orphaned_at_ns)) w.found ∙ b),
      with_block-leave io h _ false s'
          (ap (reactivate_block height (some prev.orphaned_at_ns)) w.found ∙ c),
    )

-- The generation of a row is a high-water mark: from a store in which every row stands under its own hash
-- and `h` has a row of generation `g` or later, any calls on any blocks, whether they fail or not, lead
-- to such a store again.
generation_grows :
    (h : String) (g : ℕ) (cs : List (Io × String × Call)) (s : Blocks)
    → Marked h g s
    → Marked h g (calls cs s)
generation_grows = calls-Marked
