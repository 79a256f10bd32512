-- ===== src/Pebble/Blocks/Marked.antt =====
-- store/pebble/pebble.go: histories of calls on block rows, and what each leaves of a row's generation.
use arcade.Prelude.{
  ℕ, ◌≤◌, ◌<◌, ◌≡◌, refl, sym, ◌∙◌, ap, inl, inr, String, List, [], ◌∷◌, Option, none, some, arith,
  string_eq, nat_eq, eq_cases, Bool-cases,
}
use arcade.Prelude.Map.{lookup, insert, lookup-insert, lookup-insert_cases}
use arcade.Pebble.Ops.{Io}
use arcade.Pebble.Blocks.{
  block_status_eq, StoredBlock, Blocks, Turn, leave, write, finish, with_block, write_block_proc,
  upsert_block_header_seen, mark_block_processed, clear_block_processed, mark_block_bump_built,
  mint_orphan_generation, mark_block_orphaned, mark_block_reconciled, requeue_orphaned_block,
  reactivate_block, mark_block_parked,
}

-- A call of one operation on one block; a batch operation is its calls in order.
pub data Call : Type 0 where
  header_seen : ℕ → ℕ → Call
  processed : ℕ → ℕ → Call
  unprocessed : Call
  bump_built : ℕ → ℕ → Call
  orphan : ℕ → Call
  reconcile : Option ℕ → ℕ → Call
  requeue : Option ℕ → Call
  reactivate : ℕ → Option ℕ → Call
  park : Call

unfoldable pub call : Io → String → Call → Blocks → Blocks
call io h (header_seen height at) s = (with_block io h (upsert_block_header_seen h height at) s).0
call io h (processed height at) s = (with_block io h (mark_block_processed h height at) s).0
call io h unprocessed s = (with_block io h clear_block_processed s).0
call io h (bump_built height at) s = (with_block io h (mark_block_bump_built h height at) s).0
call io h (orphan gen) s = (with_block io h (mark_block_orphaned gen) s).0
call io h (reconcile token at) s = (with_block io h (mark_block_reconciled token at) s).0
call io h (requeue token) s = (with_block io h (requeue_orphaned_block token) s).0
call io h (reactivate height token) s = (with_block io h (reactivate_block height token) s).0
call io h park s = (with_block io h mark_block_parked s).0

unfoldable pub calls : List (Io × String × Call) → Blocks → Blocks
calls [] s = s
calls ((io, h, c) ∷ cs) s = calls cs (call io h c s)

-- The row that a turn writes is the block's own, and its generation is not below the one before.
abbrev pub Advances {ℓ} : {A : Type ℓ} → String → Option StoredBlock → Turn A → Type 0
Advances h prev (leave a) = Unit
Advances h none (write cur a) = cur.block_hash ≡ h
Advances h (some prev) (write cur a) =
    (cur.block_hash ≡ h) × (prev.orphaned_at_ns ≤ cur.orphaned_at_ns)

-- `h` has a row, whose generation is at least `g`; and every row stands under its own hash.
pub record Marked (h : String) (g : ℕ) (s : Blocks) : Type 0 where
  pub keyed : (k : String) (b : StoredBlock) → lookup k s.rows ≡ some b → b.block_hash ≡ k
  pub row : StoredBlock
  pub found : lookup h s.rows ≡ some row
  pub at_least : g ≤ row.orphaned_at_ns

pub mint-above :
    (prev want : ℕ)
    → (prev < mint_orphan_generation prev want) × (want ≤ mint_orphan_generation prev want)
unfolding mint_orphan_generation
mint-above prev want = (ground arith, ground arith)

set-Marked :
    (h k : String) (g : ℕ) (cur : StoredBlock) (heights : List (ℕ × String)) (s : Blocks)
    → Marked h g s
    → cur.block_hash ≡ k
    → (k ≡ h → g ≤ cur.orphaned_at_ns)
    → Marked h g (record { rows = insert cur.block_hash cur s.rows; heights = heights })
set-Marked h k g cur heights s v e up = elim (eq_cases cur.block_hash h) [
  | inl (b, x) ↦ record {
    keyed = keyed;
    row = cur;
    found = ground (arith, lookup-insert cur.block_hash h cur s.rows, b);
    at_least = up (sym e ∙ x);
  }
  | inr (b, x) ↦ record {
    keyed = keyed;
    row = v.row;
    found = ground (arith, lookup-insert cur.block_hash h cur s.rows, b, v.found);
    at_least = v.at_least;
  }
]
  where
    keyed :
        (j : String) (b : StoredBlock)
        → lookup j (insert cur.block_hash cur s.rows) ≡ some b
        → b.block_hash ≡ j
    keyed j b f = elim (lookup-insert_cases cur.block_hash j cur b s.rows f) [
      | inl (x, y) ↦ ap (λ z. z.block_hash) (sym y) ∙ x
      | inr (x, y) ↦ v.keyed j b y
    ]

some_row : (a b : StoredBlock) → some a ≡ some b → a.orphaned_at_ns ≡ b.orphaned_at_ns
some_row a b e = ap (λ o. elim o [ none ↦ 0 | some x ↦ x.orphaned_at_ns ]) e

finish-Marked {ℓ} :
    {A : Type ℓ} (io : Io) (h k : String) (g : ℕ) (prev : Option StoredBlock) (t : Turn A)
    (s : Blocks)
    → lookup k s.rows ≡ prev
    → Advances k prev t
    → Marked h g s
    → Marked h g (finish io prev t s).0
unfolding finish write_block_proc
finish-Marked io h k g prev (leave a) s e adv v = v
finish-Marked io h k g none (write cur a) s e adv v = elim (Bool-cases io.write_fails) [
  | inl w ↦ rw w v
  | inr w ↦ rw w (
      set-Marked h k g cur _ s v adv
        (λ x. absurd (ground (arith, sym e ∙ ap (λ j. lookup j s.rows) x ∙ v.found))))
]
finish-Marked io h k g (some prev) (write cur a) s e adv v = elim (Bool-cases io.write_fails) [
  | inl w ↦ rw w v
  | inr w ↦ rw w (
      set-Marked h k g cur _ s v adv.0 (λ x. omega (
        arith,
        adv.1,
        v.at_least,
        some_row prev v.row (sym e ∙ ap (λ j. lookup j s.rows) x ∙ v.found),
      )))
]

with_block-Marked {ℓ} :
    {A : Type ℓ} (io : Io) (h k : String) (g : ℕ) (turn : Option StoredBlock → Turn A) (s : Blocks)
    → ((prev : Option StoredBlock)
        → ((b : StoredBlock) → prev ≡ some b → b.block_hash ≡ k)
        → Advances k prev (turn prev))
    → Marked h g s
    → Marked h g (with_block io k turn s).0
unfolding with_block finish
with_block-Marked io h k g turn s adv v = elim (Bool-cases io.cancelled) [
  | inl c ↦ rw c v
  | inr c ↦ rw c (elim (Bool-cases io.read_fails) [
    | inl r ↦ rw r v
    | inr r ↦ rw r (
        finish-Marked io h k g (lookup k s.rows) (turn (lookup k s.rows)) s refl
          (adv (lookup k s.rows) (v.keyed k)) v)
  ])
]

-- What the operations' turns have in common.
abbrev pub Own : String → Option StoredBlock → Type 0
Own k prev = (b : StoredBlock) → prev ≡ some b → b.block_hash ≡ k

pub orphan-Advances :
    (k : String) (gen : ℕ) (prev : Option StoredBlock)
    → Own k prev
    → Advances k prev (mark_block_orphaned gen prev)
unfolding mark_block_orphaned
orphan-Advances k gen none own = tt
orphan-Advances k gen (some b) own = ground (arith, own b refl, mint-above b.orphaned_at_ns gen)

pub reconcile-Advances :
    (k : String) (token : Option ℕ) (at : ℕ) (prev : Option StoredBlock)
    → Own k prev
    → Advances k prev (mark_block_reconciled token at prev)
unfolding mark_block_reconciled
reconcile-Advances k token at none own = tt
reconcile-Advances k token at (some b) own = ground (arith, own b refl)

pub requeue-Advances :
    (k : String) (token : Option ℕ) (prev : Option StoredBlock)
    → Own k prev
    → Advances k prev (requeue_orphaned_block token prev)
unfolding requeue_orphaned_block
requeue-Advances k token none own = tt
requeue-Advances k token (some b) own = ground (arith, own b refl)

pub reactivate-Advances :
    (k : String) (height : ℕ) (token : Option ℕ) (prev : Option StoredBlock)
    → Own k prev
    → Advances k prev (reactivate_block height token prev)
unfolding reactivate_block
reactivate-Advances k height token none own = tt
reactivate-Advances k height token (some b) own = ground (arith, own b refl)

pub park-Advances :
    (k : String) (prev : Option StoredBlock) → Own k prev → Advances k prev (mark_block_parked prev)
unfolding mark_block_parked
park-Advances k none own = tt
park-Advances k (some b) own = ground (arith, own b refl)

pub stamp-Advances :
    (k : String) (height at : ℕ) (prev : Option StoredBlock)
    → Own k prev
    → Advances k prev (upsert_block_header_seen k height at prev)
      × Advances k prev (mark_block_processed k height at prev)
      × Advances k prev (clear_block_processed prev)
      × Advances k prev (mark_block_bump_built k height at prev)
unfolding upsert_block_header_seen mark_block_processed clear_block_processed mark_block_bump_built
stamp-Advances k height at none own = (refl, refl, tt, refl)
stamp-Advances k height at (some b) own =
    ((refl, omega arith), (refl, omega arith), (own b refl, omega arith), (refl, omega arith))

pub call-Marked :
    (io : Io) (h k : String) (g : ℕ) (c : Call) (s : Blocks)
    → Marked h g s
    → Marked h g (call io k c s)
unfolding call
call-Marked io h k g (header_seen height at) s =
    with_block-Marked io h k g _ s (λ p own. (stamp-Advances k height at p own).0)
call-Marked io h k g (processed height at) s =
    with_block-Marked io h k g _ s (λ p own. (stamp-Advances k height at p own).1)
call-Marked io h k g unprocessed s =
    with_block-Marked io h k g _ s (λ p own. (stamp-Advances k 0 0 p own).2)
call-Marked io h k g (bump_built height at) s =
    with_block-Marked io h k g _ s (λ p own. (stamp-Advances k height at p own).3)
call-Marked io h k g (orphan gen) s = with_block-Marked io h k g _ s (orphan-Advances k gen)
call-Marked io h k g (reconcile token at) s =
    with_block-Marked io h k g _ s (reconcile-Advances k token at)
call-Marked io h k g (requeue token) s = with_block-Marked io h k g _ s (requeue-Advances k token)
call-Marked io h k g (reactivate height token) s =
    with_block-Marked io h k g _ s (reactivate-Advances k height token)
call-Marked io h k g park s = with_block-Marked io h k g _ s (park-Advances k)

pub calls-Marked :
    (h : String) (g : ℕ) (cs : List (Io × String × Call)) (s : Blocks)
    → Marked h g s
    → Marked h g (calls cs s)
unfolding calls
calls-Marked h g [] s v = v
calls-Marked h g ((io, k, c) ∷ cs) s v =
    calls-Marked h g cs (call io k c s) (call-Marked io h k g c s v)
