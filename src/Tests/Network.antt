-- ===== src/Tests/Network.antt =====
-- teranode/client.go and store/paging.go: an endpoint that fails three times, an answer with a failure
-- list, and a scan of two heights.
use arcade.Prelude.{
  ℕ, ◌≡◌, ◌≢◌, ◌⊎◌, refl, inl, inr, String, Bool, false, List, [], ◌∷◌, Option, none, some, arith,
  contains, string_eq, beq-false→ne,
}
use arcade.Prelude.Map.{lookup}
use arcade.Teranode.{HealthConfig, new_client, get_healthy_endpoints}
use arcade.Teranode.Breaker.{Event, signalled, unreachable, probe_answered, run}
use arcade.Teranode.Registrations.{watch, offered}
use arcade.Teranode.Offers.{seeded, get_healthy_endpoints-watch}
use arcade.Teranode.Submit.{
  Answer, TxsFailures, unexpected_status, line_txid, place_line, place_lines, failure_count,
  parse_txs_failures, read_refusal, submit_transactions, Kept, submit_transactions-Kept,
}
use arcade.Paging.{
  BlockRow, done, out_of_fuel, scan_page, scan, visit, advance, for_each_block_processing,
}
use arcade.Paging.Rows.{In, page_of, below}
use arcade.Paging.Ends.{for_each_block_processing_covers}

abbrev defaults : HealthConfig
defaults = record {
  failure_threshold = 0;
  broadcast_failure_threshold = 0;
  min_healthy_endpoints = 1;
}

abbrev three_failures : List Event
three_failures =
    signalled (unreachable 1) "http://a/"
    ∷ signalled (unreachable 2) "http://a"
    ∷ signalled probe_answered "http://b"
    ∷ signalled (unreachable 3) "http://a"
    ∷ []

abbrev two_urls : List String
two_urls = "http://a" ∷ "http://b" ∷ []

get_healthy_endpoints-watch_example :
    let c = run three_failures (new_client two_urls defaults) in
    (lookup "http://a" c.health
      ≡ watch c.config "http://a" three_failures (seeded two_urls "http://a"))
    × (contains (get_healthy_endpoints c) "http://a"
        ≡ offered c.config (watch c.config "http://a" three_failures (seeded two_urls "http://a")))
get_healthy_endpoints-watch_example =
    get_healthy_endpoints-watch two_urls defaults three_failures "http://a"

abbrev refused_batch : Answer
refused_batch = record {
  status_code = 400;
  trimmed = "";
  lines = "Failed to process transactions:" ∷ "TX_INVALID (31): bad" ∷ [];
  read_fails = false;
}

abbrev no_wrapper : String → Option String
no_wrapper line = none

abbrev no_hex : String → String
no_hex line = ""

abbrev as_is : String → String
as_is s = s

abbrev one_line : TxsFailures
one_line = record { by_key = []; unkeyed = "TX_INVALID (31): bad" ∷ [] }

submit_transactions-Kept_example :
    (refused_batch.read_fails ≡ false)
    × (refused_batch.status_code ≢ 200)
    × (refused_batch.status_code ≢ 413)
    × ((submit_transactions no_wrapper no_hex as_is (some refused_batch)).problem
        ≡ unexpected_status)
    × Kept no_wrapper no_hex as_is "TX_INVALID (31): bad" one_line
unfolding submit_transactions read_refusal parse_txs_failures place_lines place_line line_txid
    failure_count
submit_transactions-Kept_example =
    submit_transactions-Kept no_wrapper no_hex as_is refused_batch one_line "TX_INVALID (31): bad"
      refl refl (beq-false→ne "TX_INVALID (31): bad" "" refl)

abbrev at_height : ℕ → BlockRow
at_height n = record { block_hash = ""; block_height = n }

abbrev heights : List BlockRow
heights = at_height 2 ∷ at_height 1 ∷ []

abbrev never : BlockRow → Bool
never r = false

for_each_block_processing_covers_example :
    let (seen, result) = for_each_block_processing never 1 (page_of heights) 65540 1 in
    (result ≢ out_of_fuel) × (In (at_height 1) seen ⊎ (result ≢ done))
for_each_block_processing_covers_example =
    for_each_block_processing_covers never 1 2 65540 1 heights (at_height 1)
      ((omega arith, tt), (tt, tt)) (omega arith, (omega arith, tt)) (inr (inl refl)) (omega arith)
      (omega arith) (omega arith) (omega arith)

abbrev genesis : List BlockRow
genesis = at_height 1 ∷ at_height 0 ∷ at_height 0 ∷ []

-- Two rows at height 0 and pages of two: the scan reports no error, and has seen one of them.
boundary_at_zero :
    for_each_block_processing never 0 (page_of genesis) 9 2 ≡ (at_height 1 ∷ at_height 0 ∷ [], done)
unfolding for_each_block_processing scan scan_page visit advance page_of below
boundary_at_zero = refl
