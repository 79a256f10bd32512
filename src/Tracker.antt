-- ===== src/Tracker.antt =====
-- store/tracker.go and store/trackerscan.go: the in-memory set of tracked transactions and the scan that
-- fills it. The lock is left out: each method runs under it. The parser of a hash is a library's, and so
-- an argument.
use arcade.Prelude.{
  ℕ, ◌+◌, ◌-◌, ◌%◌, ◌^◌, String, Bool, true, false, not, ◌&&◌, ◌||◌, List, [], ◌∷◌, ◌++◌, Option,
  none, some, ◌==◌, IsEq, if◌then◌else◌, ltb, leb, contains, keep, length,
}
use arcade.Prelude.Map.{Map, lookup, insert, delete, member}
use arcade.Models.Status.{Status, mined, status_eq, other, all_statuses, is_terminal}
pub mod Load
pub mod Prune

-- ConfirmationsRequired
abbrev pub confirmations_required : ℕ
confirmations_required = 100

pub record TrackedTx : Type 0 where
  pub status : Status
  pub mined_height : ℕ

pub record TrackerRow : Type 0 where
  pub tx_id : String
  pub status : Status
  pub block_height : ℕ

abbrev pub row_tx : TrackerRow → TrackedTx
row_tx row = record { status = row.status; mined_height = row.block_height }

-- trackerStatuses
unfoldable pub tracker_statuses : List Status
tracker_statuses = keep (λ s. not (is_terminal s) || s == mined) all_statuses

-- TracksStatus
unfoldable pub tracks_status : Status → Bool
tracks_status s = contains tracker_statuses s

pub record TrackerScan : Type 0 where
  pub prune_mined_below : ℕ

-- NewTrackerScan
unfoldable pub new_tracker_scan : ℕ → Bool → TrackerScan
new_tracker_scan tip_height tip_known =
    if not tip_known || ltb tip_height confirmations_required
    then record { prune_mined_below = 0 }
    else record { prune_mined_below = tip_height - confirmations_required + 1 }

-- TrackerScan.Keep
unfoldable pub keeps : TrackerScan → Status → ℕ → Bool
keeps scan status block_height =
    tracks_status status
    && not (
        status == mined
        && ltb 0 block_height
        && ltb 0 scan.prune_mined_below
        && ltb block_height scan.prune_mined_below)

-- The condition of PruneConfirmed, on 64-bit heights.
unfoldable pub is_confirmed : ℕ → TrackedTx → Bool
is_confirmed current tx =
    tx.status == mined
    && ltb 0 tx.mined_height
    && leb ((tx.mined_height + confirmations_required) % 2 ^ 64) current

-- loadFromStore: its local state.
pub record Loading (Hash : Type 0) : Type 0 where
  pub tracker : Map Hash TrackedTx
  pub batch : List (Hash × TrackedTx)
  pub scanned : ℕ
  pub loaded : ℕ
  pub skipped : ℕ

module _ {Hash : Type 0} ⦃e : IsEq Hash⦄ where
  -- AddHash
  unfoldable pub add_hash : Hash → Status → Map Hash TrackedTx → Map Hash TrackedTx
  add_hash hash status t = insert hash (record { status = status; mined_height = 0 }) t

  -- UpdateStatusHash
  unfoldable pub update_status_hash : Hash → Status → Map Hash TrackedTx → Map Hash TrackedTx
  update_status_hash hash status t = elim (lookup hash t) [
    | none ↦ t
    | some tx ↦ insert hash (record tx { status = status }) t
  ]

  -- SetMinedHash
  unfoldable pub set_mined_hash : Hash → ℕ → Map Hash TrackedTx → Map Hash TrackedTx
  set_mined_hash hash block_height t = elim (lookup hash t) [
    | none ↦ t
    | some tx ↦ insert hash (record { status = mined; mined_height = block_height }) t
  ]

  -- PruneConfirmed: the loop over the entries, which deletes from the map.
  unfoldable pub prune_entries :
      ℕ → List (Hash × TrackedTx) → Map Hash TrackedTx → Map Hash TrackedTx × List Hash
  prune_entries current [] t = (t, [])
  prune_entries current ((hash, tx) ∷ es) t =
      if is_confirmed current tx
      then (let (t', immutable) = prune_entries current es (delete hash t) in
          (t', hash ∷ immutable))
      else prune_entries current es t

  unfoldable pub prune_confirmed : ℕ → Map Hash TrackedTx → Map Hash TrackedTx × List Hash
  prune_confirmed current t = prune_entries current t t

  -- FilterTrackedHashes
  unfoldable pub filter_tracked_hashes : List Hash → Map Hash TrackedTx → List Hash
  filter_tracked_hashes hashes t = keep (λ h. member h t) hashes

  unfoldable pub insert_all : List (Hash × TrackedTx) → Map Hash TrackedTx → Map Hash TrackedTx
  insert_all [] t = t
  insert_all ((h, tx) ∷ batch) t = insert_all batch (insert h tx t)

  unfoldable pub flush : Loading Hash → Loading Hash
  flush l = record l {
    tracker = insert_all l.batch l.tracker;
    loaded = l.loaded + length l.batch;
    batch = [];
  }

  abbrev pub not_loaded : Map Hash TrackedTx → Loading Hash
  not_loaded t = record { tracker = t; batch = []; scanned = 0; loaded = 0; skipped = 0 }

  module _ (new_hash_from_hex : String → Option Hash) where
    -- Add, UpdateStatus, SetMined and Remove: a malformed txid changes nothing.
    unfoldable pub with_hash :
        String
        → (Hash → Map Hash TrackedTx → Map Hash TrackedTx)
        → Map Hash TrackedTx
        → Map Hash TrackedTx
    with_hash txid change t = elim (new_hash_from_hex txid) [ none ↦ t | some h ↦ change h t ]

    unfoldable pub add : String → Status → Map Hash TrackedTx → Map Hash TrackedTx
    add txid status = with_hash txid (λ h. add_hash h status)

    unfoldable pub update_status : String → Status → Map Hash TrackedTx → Map Hash TrackedTx
    update_status txid status = with_hash txid (λ h. update_status_hash h status)

    unfoldable pub set_mined : String → ℕ → Map Hash TrackedTx → Map Hash TrackedTx
    set_mined txid block_height = with_hash txid (λ h. set_mined_hash h block_height)

    unfoldable pub remove : String → Map Hash TrackedTx → Map Hash TrackedTx
    remove txid = with_hash txid delete

    -- Contains
    unfoldable pub is_tracked : String → Map Hash TrackedTx → Bool
    is_tracked txid t = elim (new_hash_from_hex txid) [ none ↦ false | some h ↦ member h t ]

    -- GetStatus
    unfoldable pub get_status : String → Map Hash TrackedTx → Status × Bool
    get_status txid t = elim (new_hash_from_hex txid) [
      | none ↦ (other "", false)
      | some h ↦ elim (lookup h t) [ none ↦ (other "", false) | some tx ↦ (tx.status, true) ]
    ]

    -- FilterTrackedTxids
    unfoldable pub filter_tracked_txids : List String → Map Hash TrackedTx → List String × ℕ
    filter_tracked_txids [] t = ([], 0)
    filter_tracked_txids (s ∷ txids) t =
        let (tracked, unknown) = filter_tracked_txids txids t in
        if is_tracked s t then (s ∷ tracked, unknown) else (tracked, unknown + 1)

    -- The callback on one row.
    unfoldable pub load_row : ℕ → TrackerScan → TrackerRow → Loading Hash → Loading Hash
    load_row batch_size scan row l =
        let l = record l { scanned = l.scanned + 1 } in
        if not (keeps scan row.status row.block_height)
        then record l { skipped = l.skipped + 1 }
        else elim (new_hash_from_hex row.tx_id) [
          | none ↦ l
          | some h ↦
              let l = record l { batch = l.batch ++ (h, row_tx row) ∷ [] } in
              if leb batch_size (length l.batch) then flush l else l
        ]

    unfoldable pub load_rows : ℕ → TrackerScan → List TrackerRow → Loading Hash → Loading Hash
    load_rows batch_size scan [] l = l
    load_rows batch_size scan (row ∷ rows) l =
        load_rows batch_size scan rows (load_row batch_size scan row l)

    -- The store emits `rows`, and then fails or does not: the batch is flushed either way.
    unfoldable pub load_from_store :
        ℕ → TrackerScan → List TrackerRow → Bool → Map Hash TrackedTx → Loading Hash × Bool
    load_from_store batch_size scan rows fails t =
        let size = if leb batch_size 0 then 10000 else batch_size in
        (flush (load_rows size scan rows (not_loaded t)), fails)
