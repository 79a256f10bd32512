-- ===== src/Tests/Tracking.antt =====
-- store/tracker.go: two rows, one of which is malformed, loaded in batches of one.
use arcade.Prelude.{
  ◌≡◌, String, true, List, [], ◌∷◌, Option, none, some, ◌==◌, string_eq, if◌then◌else◌, length,
}
use arcade.Prelude.Map.{Map}
use arcade.Models.Status.{received, mined}
use arcade.Tracker.{TrackedTx, TrackerRow, TrackerScan, insert_all, load_from_store}
use arcade.Tracker.Load.{entries_of, dropped, load_from_store-batches}

-- A parser that refuses the empty string.
abbrev parse : String → Option String
parse s = if s == "" then none else some s

abbrev rows : List TrackerRow
rows =
    record { tx_id = "t"; status = received; block_height = 0 }
    ∷ record { tx_id = ""; status = received; block_height = 0 }
    ∷ record { tx_id = "u"; status = mined; block_height = 7 }
    ∷ []

abbrev scan : TrackerScan
scan = record { prune_mined_below = 50 }

load_from_store-batches_example :
    let (l, failed) = load_from_store parse 1 scan rows true [] in
    (l.tracker ≡ insert_all (entries_of parse scan rows) [])
    × (l.batch ≡ [])
    × (l.scanned ≡ length rows)
    × (l.loaded ≡ length (entries_of parse scan rows))
    × (l.skipped ≡ dropped parse scan rows)
    × (failed ≡ true)
load_from_store-batches_example = load_from_store-batches parse 1 scan rows true []

abbrev tracker : Map String TrackedTx
tracker =
    ("t", record { status = received; mined_height = 0 })
    ∷ ("u", record { status = mined; mined_height = 7 })
    ∷ []
