-- ===== src/Tests/Caching.antt =====
-- ssrfguard/cache.go, store/bumpcache/bumpcache.go and services/sse/tokenindex.go: a few calls.
use arcade.Prelude.{ℕ, ◌≤◌, String, List, [], ◌∷◌, Option, none, some, arith, length, string_eq}
use arcade.Prelude.Map.{lookup}
use arcade.Caches.Lru.{Lru}
use arcade.Caches.ListLru.{Entries, list_lru}
use arcade.Caches.Budget.{IsBudgeted}
use arcade.Caches.Bumps.{cost}
use arcade.Caches.Success.{Call, stored, get}
use arcade.Caches.Success.Latest.{get_latest, Serves}
use arcade.Caches.Success
use arcade.Caches.Fills.{Event, rebuilt, invalidated, began, loaded, ended, looked, run, start}
use arcade.Caches.Fills.Counts.{Since}
use arcade.Caches.Fills.Fresh.{run_fresh}
use arcade.Caches.Fills.Budgets.{run-IsBudgeted}
use arcade.Caches.Tokens.{CacheEntry, entry_cost, find}
use arcade.Caches.Tokens
use arcade.Caches.Tokens.Answers.{Answers, find-Answers}

abbrev one_put : List Call
one_put = stored 5 5 "k" "v" ∷ []

get_latest_example :
    (length (Success.run 10 1 one_put) ≤ 1)
    × Serves 10 1 one_put 7 "k" (get 7 "k" (Success.run 10 1 one_put)).1
get_latest_example = get_latest 10 1 one_put 7 "k"

-- A compound is the number of its version, and has as many leaves.
abbrev compounds : Lru String ℕ (Entries String ℕ)
compounds = list_lru 2

abbrev version : ℕ → ℕ
version v = v

-- A fill that reads before a rebuild and ends after the removal, and one that begins after it.
abbrev overlapping : List (Event ℕ)
overlapping =
    rebuilt "b"
    ∷ began "b"
    ∷ loaded 0 1
    ∷ rebuilt "b"
    ∷ invalidated "b"
    ∷ began "b"
    ∷ loaded 0 2
    ∷ ended 1
    ∷ ended 0
    ∷ looked "b"
    ∷ []

run_fresh_example :
    let w = run compounds version version 8 overlapping (start compounds.empty tt) in
    Since version (w.removed_at "b") (lookup "b" (compounds.contents w.cache.kept.lru))
run_fresh_example = run_fresh compounds version version 8 tt overlapping "b" (omega arith)

run-IsBudgeted_example :
    IsBudgeted compounds
      (cost version)
      8
      (run compounds version version 8 overlapping (start compounds.empty tt)).cache.kept
run-IsBudgeted_example = run-IsBudgeted compounds version version 8 tt overlapping

abbrev token_sets : Lru String CacheEntry (Entries String CacheEntry)
token_sets = list_lru 2

abbrev one_byte : String → ℕ
one_byte s = 1

abbrev asked : ℕ → Option (List String) → Tokens.Call
asked now answer = record { now = now; stored = now; txid = "t"; answer = answer }

find-Answers_example :
    let c = Tokens.run token_sets one_byte 1000 60 (asked 1 (some ("alice" ∷ [])) ∷ []) in
    Answers 60
      (asked 1 (some ("alice" ∷ [])) ∷ [])
      (asked 2 none)
      (find token_sets one_byte 1000 60 2 2 "t" none c).1
    × IsBudgeted token_sets (entry_cost one_byte) 1000 c
find-Answers_example =
    find-Answers token_sets one_byte 1000 60 (asked 1 (some ("alice" ∷ [])) ∷ []) (asked 2 none)
