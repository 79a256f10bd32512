-- ===== src/Pebble/Reorg.antt =====
-- store/pebble/pebble.go: what the revert of a block does to the rows.
use arcade.Prelude.{
  ℕ, String, ◌≡◌, ◌≢◌, refl, ◌∙◌, inl, inr, Bool, false, not, ◌&&◌, ◌||◌, List, [], ◌∷◌, Option,
  none, some, arith, ◌==◌, string_eq, if◌then◌else◌, eq_cases, contains, Option-cases, Bool-cases,
}
use arcade.Prelude.Map.{lookup, lookup-insert_self, lookup-insert_ne}
use arcade.Models.Status.{seen_on_network, immutable, status_eq}
use arcade.Pebble.Row.{StoredStatus}
use arcade.Pebble.Index.{
  IndexKey, by_status, by_block, by_retry_ready, by_updated, target, index_eq, status_indexes,
}
use arcade.Pebble.Ops.{
  Store, Io, Outcome, ok, write_row, commit, for_each, txids_by_block_hash, reverted_row,
  set_status_one, set_status_by_block_hash,
}
use arcade.Pebble.Consistency.{IsConsistent, asked, owned}

-- Nothing fails.
abbrev pub healthy : Io
healthy = record { cancelled = false; read_fails = false; write_fails = false }

-- The row that a revert of `block_hash` leaves: rows of other blocks and IMMUTABLE rows are spared.
unfoldable pub after_revert : ℕ → String → StoredStatus → StoredStatus
after_revert now block_hash e =
    if e.block_hash == block_hash && not (e.status == immutable)
    then reverted_row now seen_on_network e
    else e

abbrev pub map_row : (StoredStatus → StoredStatus) → Option StoredStatus → Option StoredStatus
map_row f none = none
map_row f (some e) = some (f e)

scan-finds :
    (hash t : String) (index : List IndexKey)
    → contains (txids_by_block_hash hash index) t ≡ contains index (by_block hash t)
unfolding txids_by_block_hash
scan-finds hash t [] = refl
scan-finds hash t (by_block h k ∷ index) = ground (arith, scan-finds hash t index)
scan-finds hash t (by_status _ _ ∷ index) = scan-finds hash t index
scan-finds hash t (by_retry_ready _ _ ∷ index) = scan-finds hash t index
scan-finds hash t (by_updated _ _ ∷ index) = scan-finds hash t index

-- The block entry is asked for by the rows of the block.
status_indexes-block :
    (e : StoredStatus) (hash t : String)
    → e.tx_id ≡ t
    → hash ≢ ""
    → contains (status_indexes e) (by_block hash t) ≡ (e.block_hash == hash)
unfolding status_indexes
status_indexes-block e hash t p n = ground (
  arith,
  string_eq.beq_iff e.block_hash hash,
  string_eq.beq_iff e.block_hash "",
  string_eq.beq_iff e.tx_id t,
)

reverted_row-anchor :
    (now : ℕ) (e : StoredStatus) → (reverted_row now seen_on_network e).block_hash ≡ ""
unfolding reverted_row
reverted_row-anchor now e = refl

after_revert_idem :
    (now : ℕ) (hash : String) (e : StoredStatus)
    → hash ≢ ""
    → after_revert now hash (after_revert now hash e) ≡ after_revert now hash e
unfolding after_revert
after_revert_idem now hash e n =
    ground (arith, reverted_row-anchor now e, string_eq.beq_iff "" hash)

module _ (now : ℕ) (hash : String) (t : String) where
  abbrev turn : String → Store → Store × Outcome (Option String)
  turn k = set_status_one healthy now hash seen_on_network k

  turn-ok : (k : String) (s : Store) → (o : Option String) × ((turn k s).1 ≡ ok o)
  unfolding set_status_one commit
  turn-ok k s = elim (Option-cases (lookup k s.rows)) [
    | inl e ↦ (none, rw e)
    | inr (e, h) ↦ elim (Bool-cases (e.block_hash == hash && not (e.status == immutable))) [
      | inl b ↦ (some k, rw (h, b))
      | inr b ↦ (none, rw (h, b))
    ]
  ]

  lookup-turn :
      (k : String) (s : Store)
      → lookup t (turn k s).0.rows
        ≡ (if k == t then map_row (after_revert now hash) (lookup t s.rows) else lookup t s.rows)
  unfolding set_status_one commit write_row after_revert
  lookup-turn k s = elim (eq_cases k t) [
    | inl (b, x) ↦ elim (Option-cases (lookup k s.rows)) [
      | inl e ↦ ground (arith, b, e, x)
      | inr (e, h) ↦
          ground (arith, b, h, x, lookup-insert_self k (reverted_row now seen_on_network e) s.rows)
    ]
    | inr (b, x) ↦ elim (Option-cases (lookup k s.rows)) [
      | inl e ↦ ground (arith, b, e)
      | inr (e, h) ↦
          ground (arith, b, h, lookup-insert_ne k t (reverted_row now seen_on_network e) s.rows x)
    ]
  ]

  lookup-for_each :
      (ts : List String) (s : Store)
      → hash ≢ ""
      → lookup t (for_each turn ts s).0.rows ≡ (
          if contains ts t
          then map_row (after_revert now hash) (lookup t s.rows)
          else lookup t s.rows)
  unfolding for_each
  lookup-for_each [] s n = refl
  lookup-for_each (k ∷ ts) s n =
      let rest = lookup-for_each ts (turn k s).0 n in
      let (o, e) = turn-ok k s in rw (e, for_each) (rest ∙ join (lookup t s.rows) (lookup-turn k s))
    where
      join :
          (o : Option StoredStatus) {o' : Option StoredStatus}
          → o' ≡ (if k == t then map_row (after_revert now hash) o else o)
          → (if contains ts t then map_row (after_revert now hash) o' else o')
            ≡ (if k == t || contains ts t then map_row (after_revert now hash) o else o)
      join none p = ground (arith, p)
      join (some e) p = ground (arith, p, after_revert_idem now hash e n)

-- In a consistent store the scan finds a row exactly when it is anchored to the block.
scan-anchored :
    (hash t : String) (s : Store) (e : StoredStatus)
    → IsConsistent s
    → hash ≢ ""
    → lookup t s.rows ≡ some e
    → contains (txids_by_block_hash hash s.index) t ≡ (e.block_hash == hash)
unfolding owned asked target
scan-anchored hash t s e v n h =
    scan-finds hash t s.index
    ∙ v.indexed (by_block hash t)
    ∙ rw h (status_indexes-block e hash t (v.keyed t e h) n)

spared_row :
    (now : ℕ) (hash : String) (e : StoredStatus) (listed : Bool)
    → listed ≡ (e.block_hash == hash)
    → (if listed then some (after_revert now hash e) else some e) ≡ some (after_revert now hash e)
unfolding after_revert
spared_row now hash e listed p = ground (arith, p)

-- A revert of a block, whose hash is not empty, to SEEN_ON_NETWORK on a consistent store, when nothing
-- fails, rewrites exactly the rows that are anchored to the block and not IMMUTABLE, each to its
-- reverted row; every other row stays as it was, and no row appears or goes.
pub revert_exact :
    (now : ℕ) (hash t : String) (s : Store)
    → IsConsistent s
    → hash ≢ ""
    → lookup t (set_status_by_block_hash healthy (λ k. healthy) now hash seen_on_network s).0.rows
      ≡ map_row (after_revert now hash) (lookup t s.rows)
unfolding set_status_by_block_hash
revert_exact now hash t s v n =
    lookup-for_each now hash t (txids_by_block_hash hash s.index) s n
    ∙ elim (Option-cases (lookup t s.rows)) [
      | inl e ↦ rw e (ground arith)
      | inr (e, h) ↦ rw h (spared_row now hash e _ (scan-anchored hash t s e v n h))
    ]
