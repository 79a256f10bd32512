-- ===== src/Tracker/Load.antt =====
-- store/tracker.go: loadFromStore in batches is the load of the rows that the scan keeps, one by one.
use arcade.Prelude.{
  ℕ, ◌+◌, ◌≡◌, refl, sym, ◌∙◌, ap, inl, inr, String, Bool, List, [], ◌∷◌, ◌++◌, Option, none, some,
  arith, IsEq, if◌then◌else◌, leb, length, length-append, append_assoc, append-nil, Bool-cases,
  Option-cases,
}
use arcade.Prelude.Map.{Map, insert}
use arcade.Tracker.{
  TrackedTx, TrackerRow, TrackerScan, row_tx, not_loaded, keeps, Loading, insert_all, flush,
  load_row, load_rows, load_from_store, is_tracked, filter_tracked_txids,
}

module _ {Hash : Type 0} ⦃e : IsEq Hash⦄ (hash_from_hex : String → Option Hash) where
  -- The entry of a row that the scan keeps and whose id parses.
  abbrev pub entry_of : TrackerScan → TrackerRow → List (Hash × TrackedTx)
  entry_of scan row =
      if keeps scan row.status row.block_height
      then elim (hash_from_hex row.tx_id) [ none ↦ [] | some h ↦ (h, row_tx row) ∷ [] ]
      else []

  abbrev pub entries_of : TrackerScan → List TrackerRow → List (Hash × TrackedTx)
  entries_of scan [] = []
  entries_of scan (row ∷ rows) = entry_of scan row ++ entries_of scan rows

  -- The rows that the scan does not keep.
  abbrev pub dropped : TrackerScan → List TrackerRow → ℕ
  dropped scan [] = 0
  dropped scan (row ∷ rows) =
      (if keeps scan row.status row.block_height then 0 else 1) + dropped scan rows

  insert_all-append :
      (xs ys : List (Hash × TrackedTx)) (t : Map Hash TrackedTx)
      → insert_all (xs ++ ys) t ≡ insert_all ys (insert_all xs t)
  unfolding insert_all
  insert_all-append [] ys t = refl
  insert_all-append ((h, tx) ∷ xs) ys t = insert_all-append xs ys (insert h tx t)

  -- What a load in progress comes to: its state once it is flushed.
  abbrev Comes : Loading Hash → List (Hash × TrackedTx) → ℕ → ℕ → Loading Hash → Type 0
  Comes l new rows gone l' =
      (insert_all l'.batch l'.tracker ≡ insert_all (l.batch ++ new) l.tracker)
      × (l'.loaded + length l'.batch ≡ l.loaded + length l.batch + length new)
      × (l'.scanned ≡ l.scanned + rows)
      × (l'.skipped ≡ l.skipped + gone)

  flush-batched :
      (size : ℕ) (l : Loading Hash)
      → let l' = if leb size (length l.batch) then flush l else l in
        (insert_all l'.batch l'.tracker ≡ insert_all l.batch l.tracker)
        × (l'.loaded + length l'.batch ≡ l.loaded + length l.batch)
        × (l'.scanned ≡ l.scanned)
        × (l'.skipped ≡ l.skipped)
  unfolding flush insert_all
  flush-batched size l = elim (Bool-cases (leb size (length l.batch))) [
    | inl b ↦ rw b (refl, omega arith, refl, refl)
    | inr b ↦ rw b (refl, refl, refl, refl)
  ]

  load_row-Comes :
      (size : ℕ) (scan : TrackerScan) (row : TrackerRow) (l : Loading Hash)
      → Comes l
          (entry_of scan row)
          1
          (if keeps scan row.status row.block_height then 0 else 1)
          (load_row hash_from_hex size scan row l)
  unfolding load_row
  load_row-Comes size scan row l = elim (Bool-cases (keeps scan row.status row.block_height)) [
    | inr k ↦ rw (k, append-nil) (refl, omega arith, omega arith, omega arith)
    | inl k ↦ rw k (elim (Option-cases (hash_from_hex row.tx_id)) [
      | inl n ↦ rw (n, append-nil) (refl, omega arith, omega arith, omega arith)
      | inr (h, p) ↦ rw p (
          let l' : Loading Hash = record l {
            scanned = l.scanned + 1;
            batch = l.batch ++ (h, row_tx row) ∷ [];
          } in
          let (same, loaded, scanned, skipped) = flush-batched size l' in
          (
            same,
            omega (arith, loaded, length-append l.batch ((h, row_tx row) ∷ [])),
            scanned,
            omega (arith, skipped),
          ))
    ])
  ]

  load_rows-Comes :
      (size : ℕ) (scan : TrackerScan) (rows : List TrackerRow) (l : Loading Hash)
      → Comes l
          (entries_of scan rows)
          (length rows)
          (dropped scan rows)
          (load_rows hash_from_hex size scan rows l)
  unfolding load_rows
  load_rows-Comes size scan [] l = rw append-nil (refl, omega arith, omega arith, omega arith)
  load_rows-Comes size scan (row ∷ rows) l =
      let l' = load_row hash_from_hex size scan row l in
      let (a, b, c, d) = load_row-Comes size scan row l in
      let (a', b', c', d') = load_rows-Comes size scan rows l' in
      let new = entries_of scan rows in
      (
        a'
            ∙ insert_all-append l'.batch new l'.tracker
            ∙ ap (insert_all new) a
            ∙ sym (insert_all-append (l.batch ++ entry_of scan row) new l.tracker)
            ∙ ap (λ xs. insert_all xs l.tracker) (append_assoc l.batch (entry_of scan row) new),
        omega (arith, b, b', length-append (entry_of scan row) new),
        omega (arith, c, c'),
        omega (arith, d, d'),
      )

  -- Whatever the batch size, and whether the store fails after its rows or not, a load inserts the
  -- entries of the rows that the scan keeps and whose ids parse, in the order of the rows, and no other;
  -- and it counts the rows scanned, those loaded, and those that the scan does not keep.
  pub load_from_store-batches :
      (batch_size : ℕ) (scan : TrackerScan) (rows : List TrackerRow) (fails : Bool)
      (t : Map Hash TrackedTx)
      → let (l, failed) = load_from_store hash_from_hex batch_size scan rows fails t in
        (l.tracker ≡ insert_all (entries_of scan rows) t)
        × (l.batch ≡ [])
        × (l.scanned ≡ length rows)
        × (l.loaded ≡ length (entries_of scan rows))
        × (l.skipped ≡ dropped scan rows)
        × (failed ≡ fails)
  unfolding load_from_store flush
  load_from_store-batches batch_size scan rows fails t =
      let size = if leb batch_size 0 then 10000 else batch_size in
      let (a, b, c, d) = load_rows-Comes size scan rows (not_loaded t) in
      (a, refl, omega (arith, c), omega (arith, b), omega (arith, d), refl)

  -- Every id is tracked or counted as unknown.
  filter_tracked_txids-counts :
      (txids : List String) (t : Map Hash TrackedTx)
      → let (tracked, unknown) = filter_tracked_txids hash_from_hex txids t in
        length tracked + unknown ≡ length txids
  unfolding filter_tracked_txids
  filter_tracked_txids-counts [] t = omega arith
  filter_tracked_txids-counts (s ∷ txids) t = elim (Bool-cases (is_tracked hash_from_hex s t)) [
    | inl e ↦ rw e (omega (arith, filter_tracked_txids-counts txids t))
    | inr e ↦ rw e (omega (arith, filter_tracked_txids-counts txids t))
  ]
